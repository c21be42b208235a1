-- ===== src/Staking/Nominations/Owners.antt =====
-- How often an account owns a bond of the list, under the list operations.
use bifrost_node.Prelude.{
  ℕ, ◌+◌, ◌≡◌, refl, some, List, [], ◌∷◌, arith, ◌==◌, if◌then◌else◌, last?, but_last, first?, tail,
}
use bifrost_node.Staking.Nominations.{Bond, insert_before_equals, sort_by_amount}
use bifrost_node.Staking.Nominations.Order.{insort}

abbrev pub owns : ℕ → Bond → ℕ
owns o b = if b.owner == o then 1 else 0

abbrev pub holds : ℕ → List Bond → ℕ
holds o [] = 0
holds o (b ∷ bs) = owns o b + holds o bs

pub holds-insort :
    (o : ℕ) (b : Bond) (xs : List Bond) → holds o (insort b xs) ≡ holds o xs + owns o b
unfolding insort
holds-insort o b [] = omega arith
holds-insort o b (x ∷ xs) = ground (arith, holds-insort o b xs)

holds-insert_before_equals :
    (o : ℕ) (b : Bond) (xs : List Bond)
    → holds o (insert_before_equals b xs) ≡ holds o xs + owns o b
unfolding insert_before_equals
holds-insert_before_equals o b [] = omega arith
holds-insert_before_equals o b (x ∷ xs) = ground (arith, holds-insert_before_equals o b xs)

pub holds-sort_by_amount : (o : ℕ) (xs : List Bond) → holds o (sort_by_amount xs) ≡ holds o xs
unfolding sort_by_amount
holds-sort_by_amount o [] = refl
holds-sort_by_amount o (b ∷ bs) =
    omega (arith, holds-insert_before_equals o b (sort_by_amount bs), holds-sort_by_amount o bs)

pub holds-but_last :
    (o : ℕ) (xs : List Bond) (l : Bond)
    → last? xs ≡ some l
    → holds o (but_last xs) + owns o l ≡ holds o xs
holds-but_last o [] l e = cc
holds-but_last o (x ∷ []) l e = ground arith
holds-but_last o (x ∷ y ∷ xs) l e = ground (arith, holds-but_last o (y ∷ xs) l e)

pub holds-tail :
    (o : ℕ) (xs : List Bond) (h : Bond)
    → first? xs ≡ some h
    → holds o (tail xs) + owns o h ≡ holds o xs
holds-tail o [] h e = cc
holds-tail o (x ∷ xs) h e = ground arith
