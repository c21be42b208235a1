-- ===== src/Staking/Nominations/Ceiling.antt =====
-- Upper bounds on a list of bonds that need not be sorted.
use bifrost_node.Prelude.{ℕ, ◌≤◌, List, [], ◌∷◌, arith, first?}
use bifrost_node.Staking.Nominations.{Bond, insert_before_equals, sort_by_amount, amount_or_zero}
use bifrost_node.Staking.Nominations.Order.{IsBelow}

-- Every amount is at most `n`.
abbrev pub IsUnder : ℕ → List Bond → Type 0
IsUnder n [] = Unit {0}
IsUnder n (b ∷ bs) = (b.amount ≤ n) × IsUnder n bs

pub IsUnder-mono : (m n : ℕ) (bs : List Bond) → m ≤ n → IsUnder m bs → IsUnder n bs
IsUnder-mono m n [] h u = tt
IsUnder-mono m n (b ∷ bs) h u = (omega arith, IsUnder-mono m n bs h u.1)

pub IsBelow-IsUnder : (n : ℕ) (bs : List Bond) → IsBelow n bs → IsUnder n bs
IsBelow-IsUnder n [] s = tt
IsBelow-IsUnder n (b ∷ bs) s =
    (s.0, IsUnder-mono b.amount n bs s.0 (IsBelow-IsUnder b.amount bs s.1))

insert_before_equals-IsUnder :
    (n : ℕ) (b : Bond) (xs : List Bond)
    → b.amount ≤ n
    → IsUnder n xs
    → IsUnder n (insert_before_equals b xs)
unfolding insert_before_equals
insert_before_equals-IsUnder n b [] h u = (h, tt)
insert_before_equals-IsUnder n b (x ∷ xs) h u = ground (arith, insert_before_equals-IsUnder n b xs)

pub sort_by_amount-IsUnder : (n : ℕ) (xs : List Bond) → IsUnder n xs → IsUnder n (sort_by_amount xs)
unfolding sort_by_amount
sort_by_amount-IsUnder n [] u = tt
sort_by_amount-IsUnder n (b ∷ bs) u =
    insert_before_equals-IsUnder n b (sort_by_amount bs) u.0 (sort_by_amount-IsUnder n bs u.1)

pub highest_under : (n : ℕ) (xs : List Bond) → IsUnder n xs → amount_or_zero (first? xs) ≤ n
highest_under n [] u = omega arith
highest_under n (x ∷ xs) u = u.0
