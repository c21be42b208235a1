-- ===== src/Staking/Nominations/Stakes.antt =====
-- How much of a list of bonds is one account's, under the list operations.
use bifrost_node.Prelude.{
  ℕ, ◌+◌, ◌≡◌, refl, some, List, [], ◌∷◌, arith, ◌==◌, if◌then◌else◌, last?, but_last, first?, tail,
}
use bifrost_node.Staking.Nominations.{Bond, insert_before_equals, sort_by_amount}
use bifrost_node.Staking.Nominations.Order.{insort}

abbrev pub staked : ℕ → Bond → ℕ
staked o b = if b.owner == o then b.amount else 0

abbrev pub stake : ℕ → List Bond → ℕ
stake o [] = 0
stake o (b ∷ bs) = staked o b + stake o bs

pub stake-insort :
    (o : ℕ) (b : Bond) (xs : List Bond) → stake o (insort b xs) ≡ stake o xs + staked o b
unfolding insort
stake-insort o b [] = omega arith
stake-insort o b (x ∷ xs) = ground (arith, stake-insort o b xs)

stake-insert_before_equals :
    (o : ℕ) (b : Bond) (xs : List Bond)
    → stake o (insert_before_equals b xs) ≡ stake o xs + staked o b
unfolding insert_before_equals
stake-insert_before_equals o b [] = omega arith
stake-insert_before_equals o b (x ∷ xs) = ground (arith, stake-insert_before_equals o b xs)

pub stake-sort_by_amount : (o : ℕ) (xs : List Bond) → stake o (sort_by_amount xs) ≡ stake o xs
unfolding sort_by_amount
stake-sort_by_amount o [] = refl
stake-sort_by_amount o (b ∷ bs) =
    omega (arith, stake-insert_before_equals o b (sort_by_amount bs), stake-sort_by_amount o bs)

pub stake-but_last :
    (o : ℕ) (xs : List Bond) (l : Bond)
    → last? xs ≡ some l
    → stake o (but_last xs) + staked o l ≡ stake o xs
stake-but_last o [] l e = cc
stake-but_last o (x ∷ []) l e = ground arith
stake-but_last o (x ∷ y ∷ xs) l e = ground (arith, stake-but_last o (y ∷ xs) l e)

pub stake-tail :
    (o : ℕ) (xs : List Bond) (h : Bond)
    → first? xs ≡ some h
    → stake o (tail xs) + staked o h ≡ stake o xs
stake-tail o [] h e = cc
stake-tail o (x ∷ xs) h e = ground arith
