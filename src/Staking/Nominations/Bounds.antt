-- ===== src/Staking/Nominations/Bounds.antt =====
-- Lower bounds on a list of bonds, its greatest and its least amount.
use bifrost_node.Prelude.{
  ℕ, ◌+◌, ◌≤◌, ◌≡◌, refl, ◌⊎◌, inl, inr, max, List, [], ◌∷◌, arith, some, length, last?, but_last,
  first?, tail,
}
use bifrost_node.Staking.Nominations.{Bond, insert_before_equals, sort_by_amount, amount_or_zero}
use bifrost_node.Staking.Nominations.Order.{IsBelow, IsSorted, insort, sum}

-- Every amount is at least `n`.
abbrev pub IsAbove : ℕ → List Bond → Type 0
IsAbove n [] = Unit {0}
IsAbove n (b ∷ bs) = (n ≤ b.amount) × IsAbove n bs

pub IsAbove-zero : (bs : List Bond) → IsAbove 0 bs
IsAbove-zero [] = tt
IsAbove-zero (b ∷ bs) = (omega arith, IsAbove-zero bs)

pub IsAbove-mono : (m n : ℕ) (bs : List Bond) → m ≤ n → IsAbove n bs → IsAbove m bs
IsAbove-mono m n [] h a = tt
IsAbove-mono m n (b ∷ bs) h a = (omega arith, IsAbove-mono m n bs h a.1)

pub insort-IsAbove :
    (n : ℕ) (b : Bond) (xs : List Bond) → n ≤ b.amount → IsAbove n xs → IsAbove n (insort b xs)
unfolding insort
insort-IsAbove n b [] h a = (h, tt)
insort-IsAbove n b (x ∷ xs) h a = ground (arith, insort-IsAbove n b xs)

insert_before_equals-IsAbove :
    (n : ℕ) (b : Bond) (xs : List Bond)
    → n ≤ b.amount
    → IsAbove n xs
    → IsAbove n (insert_before_equals b xs)
unfolding insert_before_equals
insert_before_equals-IsAbove n b [] h a = (h, tt)
insert_before_equals-IsAbove n b (x ∷ xs) h a = ground (arith, insert_before_equals-IsAbove n b xs)

pub sort_by_amount-IsAbove : (n : ℕ) (xs : List Bond) → IsAbove n xs → IsAbove n (sort_by_amount xs)
unfolding sort_by_amount
sort_by_amount-IsAbove n [] a = tt
sort_by_amount-IsAbove n (b ∷ bs) a =
    insert_before_equals-IsAbove n b (sort_by_amount bs) a.0 (sort_by_amount-IsAbove n bs a.1)

pub but_last-IsAbove : (n : ℕ) (xs : List Bond) → IsAbove n xs → IsAbove n (but_last xs)
but_last-IsAbove n [] a = tt
but_last-IsAbove n (x ∷ []) a = tt
but_last-IsAbove n (x ∷ y ∷ xs) a = (a.0, but_last-IsAbove n (y ∷ xs) a.1)

lowest-le : (n : ℕ) (xs : List Bond) → IsBelow n xs → amount_or_zero (last? xs) ≤ n
lowest-le n [] s = omega arith
lowest-le n (x ∷ []) s = s.0
lowest-le n (x ∷ y ∷ xs) s = omega (arith, lowest-le x.amount (y ∷ xs) s.1)

-- The last amount of a falling list is a lower bound, and the greatest one.
pub lowest-IsAbove : (xs : List Bond) → IsSorted xs → IsAbove (amount_or_zero (last? xs)) xs
lowest-IsAbove [] s = tt
lowest-IsAbove (x ∷ []) s = (omega arith, tt)
lowest-IsAbove (x ∷ y ∷ xs) s = (lowest-le x.amount (y ∷ xs) s, lowest-IsAbove (y ∷ xs) s.1)

pub le-lowest :
    (n : ℕ) (xs : List Bond) → IsAbove n xs → (xs ≡ []) ⊎ (n ≤ amount_or_zero (last? xs))
le-lowest n [] a = inl refl
le-lowest n (x ∷ []) a = inr a.0
le-lowest n (x ∷ y ∷ xs) a = ground (arith, le-lowest n (y ∷ xs) a.1)

pub highest-insort :
    (b : Bond) (xs : List Bond)
    → amount_or_zero (first? (insort b xs)) ≡ max b.amount (amount_or_zero (first? xs))
unfolding insort
highest-insort b [] = omega arith
highest-insort b (x ∷ xs) = ground arith

pub highest-but_last-le :
    (xs : List Bond) → amount_or_zero (first? (but_last xs)) ≤ amount_or_zero (first? xs)
highest-but_last-le [] = omega arith
highest-but_last-le (x ∷ []) = omega arith
highest-but_last-le (x ∷ y ∷ xs) = omega arith

pub highest-tail-le :
    (xs : List Bond) → IsSorted xs → amount_or_zero (first? (tail xs)) ≤ amount_or_zero (first? xs)
highest-tail-le [] s = omega arith
highest-tail-le (x ∷ []) s = omega arith
highest-tail-le (x ∷ y ∷ xs) s = s.0

-- The bond that `pop` takes.
pub last?-parts :
    (xs : List Bond) (l : Bond)
    → last? xs ≡ some l
    → (sum (but_last xs) + l.amount ≡ sum xs) × (length (but_last xs) + 1 ≡ length xs)
last?-parts [] l e = cc
last?-parts (x ∷ []) l e = ground arith
last?-parts (x ∷ y ∷ xs) l e = ground (arith, last?-parts (y ∷ xs) l e)

pub last?-some : (xs : List Bond) → 1 ≤ length xs → (l : Bond) × (last? xs ≡ some l)
last?-some [] h = elim h [ ]
last?-some (x ∷ []) h = (x, refl)
last?-some (x ∷ y ∷ xs) h = last?-some (y ∷ xs) (omega arith)

pub first?-some : (xs : List Bond) → 1 ≤ length xs → (h : Bond) × (first? xs ≡ some h)
first?-some [] h = elim h [ ]
first?-some (x ∷ xs) h = (x, refl)

pub le-last? : (n : ℕ) (xs : List Bond) (l : Bond) → IsAbove n xs → last? xs ≡ some l → n ≤ l.amount
le-last? n [] l a e = cc
le-last? n (x ∷ []) l a e = ground arith
le-last? n (x ∷ y ∷ xs) l a e = le-last? n (y ∷ xs) l a.1 e

pub last?-IsAbove :
    (xs : List Bond) (l : Bond) → IsSorted xs → last? xs ≡ some l → IsAbove l.amount xs
last?-IsAbove xs l s e = IsAbove-mono l.amount _ xs (ground arith) (lowest-IsAbove xs s)

pub highest-le : (n : ℕ) (xs : List Bond) → IsBelow n xs → amount_or_zero (first? xs) ≤ n
highest-le n [] s = omega arith
highest-le n (x ∷ xs) s = s.0

pub IsSorted-highest : (xs : List Bond) → IsSorted xs → IsBelow (amount_or_zero (first? xs)) xs
IsSorted-highest [] s = tt
IsSorted-highest (x ∷ xs) s = (omega arith, s)
