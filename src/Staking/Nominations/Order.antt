-- ===== src/Staking/Nominations/Order.antt =====
-- The order and the sum of a list of bonds under the list operations.
use bifrost_node.Prelude.{
  ℕ, ◌+◌, ◌≤◌, ◌≡◌, refl, List, [], ◌∷◌, arith, leb, if◌then◌else◌, length, last?, but_last, first?,
}
use bifrost_node.Staking.Nominations.{Bond, insert_before_equals, sort_by_amount, amount_or_zero}

abbrev pub sum : List Bond → ℕ
sum [] = 0
sum (b ∷ bs) = b.amount + sum bs

-- The amounts fall along the list and start at `n` at most.
abbrev pub IsBelow : ℕ → List Bond → Type 0
IsBelow n [] = Unit {0}
IsBelow n (b ∷ bs) = (b.amount ≤ n) × IsBelow b.amount bs

abbrev pub IsSorted : List Bond → Type 0
IsSorted [] = Unit {0}
IsSorted (b ∷ bs) = IsBelow b.amount bs

pub IsBelow-mono : (m n : ℕ) (bs : List Bond) → m ≤ n → IsBelow m bs → IsBelow n bs
IsBelow-mono m n [] h s = tt
IsBelow-mono m n (b ∷ bs) h s = (omega arith, s.1)

pub IsBelow-IsSorted : (n : ℕ) (bs : List Bond) → IsBelow n bs → IsSorted bs
IsBelow-IsSorted n [] s = tt
IsBelow-IsSorted n (b ∷ bs) s = s.1

pub IsSorted-IsBelow :
    (n : ℕ) (bs : List Bond) → IsSorted bs → amount_or_zero (first? bs) ≤ n → IsBelow n bs
IsSorted-IsBelow n [] s h = tt
IsSorted-IsBelow n (b ∷ bs) s h = (h, s)

-- Plain insertion into a falling list, behind the bonds of the same amount.
unfoldable pub insort : Bond → List Bond → List Bond
insort b [] = b ∷ []
insort b (x ∷ xs) = if leb b.amount x.amount then x ∷ insort b xs else b ∷ x ∷ xs

pub insort-IsBelow :
    (n : ℕ) (b : Bond) (xs : List Bond) → b.amount ≤ n → IsBelow n xs → IsBelow n (insort b xs)
unfolding insort
insort-IsBelow n b [] h s = (h, tt)
insort-IsBelow n b (x ∷ xs) h s = ground (arith, insort-IsBelow x.amount b xs)

pub insort-IsSorted : (b : Bond) (xs : List Bond) → IsSorted xs → IsSorted (insort b xs)
unfolding insort
insort-IsSorted b [] s = tt
insort-IsSorted b (x ∷ xs) s = ground (arith, insort-IsBelow x.amount b xs)

pub sum-insort : (b : Bond) (xs : List Bond) → sum (insort b xs) ≡ sum xs + b.amount
unfolding insort
sum-insort b [] = omega arith
sum-insort b (x ∷ xs) = ground (arith, sum-insort b xs)

pub length-insort : (b : Bond) (xs : List Bond) → length (insort b xs) ≡ length xs + 1
unfolding insort
length-insort b [] = omega arith
length-insort b (x ∷ xs) = ground (arith, length-insort b xs)

-- The sort gives a falling list of the same length and sum.
insert_before_equals-IsBelow :
    (n : ℕ) (b : Bond) (xs : List Bond)
    → b.amount ≤ n
    → IsBelow n xs
    → IsBelow n (insert_before_equals b xs)
unfolding insert_before_equals
insert_before_equals-IsBelow n b [] h s = (h, tt)
insert_before_equals-IsBelow n b (x ∷ xs) h s =
    ground (arith, insert_before_equals-IsBelow x.amount b xs)

insert_before_equals-IsSorted :
    (b : Bond) (xs : List Bond) → IsSorted xs → IsSorted (insert_before_equals b xs)
unfolding insert_before_equals
insert_before_equals-IsSorted b [] s = tt
insert_before_equals-IsSorted b (x ∷ xs) s =
    ground (arith, insert_before_equals-IsBelow x.amount b xs)

sum-insert_before_equals :
    (b : Bond) (xs : List Bond) → sum (insert_before_equals b xs) ≡ sum xs + b.amount
unfolding insert_before_equals
sum-insert_before_equals b [] = omega arith
sum-insert_before_equals b (x ∷ xs) = ground (arith, sum-insert_before_equals b xs)

length-insert_before_equals :
    (b : Bond) (xs : List Bond) → length (insert_before_equals b xs) ≡ length xs + 1
unfolding insert_before_equals
length-insert_before_equals b [] = omega arith
length-insert_before_equals b (x ∷ xs) = ground (arith, length-insert_before_equals b xs)

pub sort_by_amount-IsSorted : (xs : List Bond) → IsSorted (sort_by_amount xs)
unfolding sort_by_amount
sort_by_amount-IsSorted [] = tt
sort_by_amount-IsSorted (b ∷ bs) = insert_before_equals-IsSorted b _ (sort_by_amount-IsSorted bs)

pub sum-sort_by_amount : (xs : List Bond) → sum (sort_by_amount xs) ≡ sum xs
unfolding sort_by_amount
sum-sort_by_amount [] = refl
sum-sort_by_amount (b ∷ bs) =
    omega (arith, sum-insert_before_equals b (sort_by_amount bs), sum-sort_by_amount bs)

pub length-sort_by_amount : (xs : List Bond) → length (sort_by_amount xs) ≡ length xs
unfolding sort_by_amount
length-sort_by_amount [] = refl
length-sort_by_amount (b ∷ bs) =
    omega (arith, length-insert_before_equals b (sort_by_amount bs), length-sort_by_amount bs)

-- The list without its last bond, the one that `pop` takes, and without its first.
pub sum-but_last : (xs : List Bond) → sum (but_last xs) + amount_or_zero (last? xs) ≡ sum xs
sum-but_last [] = refl
sum-but_last (x ∷ []) = omega arith
sum-but_last (x ∷ y ∷ xs) = omega (arith, sum-but_last (y ∷ xs))

pub but_last-IsBelow : (n : ℕ) (xs : List Bond) → IsBelow n xs → IsBelow n (but_last xs)
but_last-IsBelow n [] s = tt
but_last-IsBelow n (x ∷ []) s = tt
but_last-IsBelow n (x ∷ y ∷ xs) s = (s.0, but_last-IsBelow x.amount (y ∷ xs) s.1)

pub but_last-IsSorted : (xs : List Bond) → IsSorted xs → IsSorted (but_last xs)
but_last-IsSorted [] s = tt
but_last-IsSorted (x ∷ []) s = tt
but_last-IsSorted (x ∷ y ∷ xs) s = but_last-IsBelow x.amount (y ∷ xs) s
