-- ===== src/Staking/Nominations/Search.antt =====
-- The binary search of `insert_sorted_greatest_to_least` against plain insertion.
use bifrost_node.Prelude.{
  ℕ, zero, suc, ◌+◌, ◌-◌, ◌/◌, ◌≤◌, ◌<◌, ◌≡◌, refl, ap, sym, ◌⊎◌, inl, inr, ◌++◌, none, some, List,
  [], ◌∷◌, arith, compare, Ordering, leb, ltb, if◌then◌else◌, length, get_elem?, take, drop,
  Bool-cases, sat_add,
}
use bifrost_node.Staking.Nominations.{
  Bond, Nominations, bisect, binary_search_by, position, insertion_index,
  insert_sorted_greatest_to_least, probe, next_base, skip_equals, against, differs, Found, ok_at,
  err_at, ended,
}
use bifrost_node.Staking.Nominations.Order.{IsBelow, IsSorted, IsBelow-IsSorted, insort}

-- How many bonds at the front are of at least the amount: where a new bond of it belongs.
place : ℕ → List Bond → ℕ
place a [] = 0
place a (x ∷ xs) = if leb a x.amount then suc (place a xs) else 0

place-le : (a : ℕ) (xs : List Bond) → place a xs ≤ length xs
unfolding place
place-le a [] = omega arith
place-le a (x ∷ xs) = ground (arith, place-le a xs)

-- The elements at `place` split the falling list at the amount.
get_elem?-place :
    (a : ℕ) (xs : List Bond) (i : ℕ) (y : Bond)
    → IsSorted xs
    → get_elem? xs i ≡ some y
    → ((i < place a xs) × (a ≤ y.amount)) ⊎ ((place a xs ≤ i) × (y.amount < a))
unfolding place
get_elem?-place a [] i y s e = cc
get_elem?-place a (x ∷ xs) zero y s e = ground arith
get_elem?-place a (x ∷ xs) (suc i) y s e =
    ground (
      arith,
      get_elem?-place a xs i y (IsBelow-IsSorted x.amount xs s) e,
      below x.amount xs i y s e,
    )
  where
    below :
        (n : ℕ) (bs : List Bond) (j : ℕ) (z : Bond)
        → IsBelow n bs
        → get_elem? bs j ≡ some z
        → z.amount ≤ n
    below n [] j z t e = cc
    below n (b ∷ bs) zero z t e = ground arith
    below n (b ∷ bs) (suc j) z t e = ground (arith, below b.amount bs j z t.1 e)

get_elem?-some :
    {A : Type 0} (xs : List A) (i : ℕ) → i < length xs → (y : A) × (get_elem? xs i ≡ some y)
get_elem?-some [] i h = elim h [ ]
get_elem?-some (x ∷ xs) zero h = (x, refl)
get_elem?-some (x ∷ xs) (suc i) h = get_elem?-some xs i (omega arith)

insert_at_place :
    (b : Bond) (xs : List Bond)
    → take (place b.amount xs) xs ++ b ∷ drop (place b.amount xs) xs ≡ insort b xs
unfolding place insort
insert_at_place b [] = refl
insert_at_place b (x ∷ xs) = elim (Bool-cases (leb b.amount x.amount)) [
  | inl e ↦ rw e (ap (◌∷◌ x) (insert_at_place b xs))
  | inr e ↦ rw e refl
]

-- What the halving loop keeps: the place lies in the window, or is 0.
abbrev Within : ℕ → List Bond → ℕ → ℕ → Type 0
Within a xs size base =
    (base + size ≤ length xs) × (place a xs ≤ base + size) × ((base ≡ 0) ⊎ (base < place a xs))

module _ (a : ℕ) (xs : List Bond) (s : IsSorted xs) where
  next_base-Within :
      (size base : ℕ)
      → 1 < size
      → Within a xs size base
      → Within a xs (size - size / 2) (next_base (against a) xs base (size / 2))
  unfolding against
  next_base-Within size base p w =
      let (y, e) = get_elem?-some xs (base + size / 2) (omega arith) in
      ground (arith, get_elem?-place a xs (base + size / 2) y s e)

  bisect-Within :
      (fuel size base : ℕ)
      → 0 < size
      → size ≤ fuel
      → Within a xs size base
      → Within a xs 1 (bisect (against a) xs fuel size base)
  unfolding bisect
  bisect-Within zero size base p f w = absurd (omega arith)
  bisect-Within (suc fuel) size base p f w = elim (Bool-cases (ltb 1 size)) [
    | inr last ↦ rw last (ground arith)
    | inl more ↦ rw more (
        bisect-Within fuel (size - size / 2) (next_base (against a) xs base (size / 2))
          (ground arith) (ground arith) (next_base-Within size base (ground arith) w))
  ]

drop-suc :
    (xs : List Bond) (i : ℕ) (y : Bond) → get_elem? xs i ≡ some y → drop i xs ≡ y ∷ drop (suc i) xs
drop-suc [] i y e = cc
drop-suc (x ∷ xs) zero y e = cc
drop-suc (x ∷ xs) (suc i) y e = drop-suc xs i y e

head-drop :
    (xs : List Bond) (i : ℕ)
    → (drop i xs ≡ []) × (length xs ≤ i) ⊎ ((y : Bond) × (get_elem? xs i ≡ some y))
head-drop [] zero = inl (refl, omega arith)
head-drop [] (suc i) = inl (refl, omega arith)
head-drop (x ∷ xs) zero = inr (x, refl)
head-drop (x ∷ xs) (suc i) = ground (arith, head-drop xs i)

position_after :
    (a : ℕ) (xs : List Bond) (i : ℕ)
    → IsSorted xs
    → place a xs ≡ suc i
    → (position (differs a) (drop (suc i) xs) ≡ none) × (length xs ≡ suc i)
      ⊎ (position (differs a) (drop (suc i) xs) ≡ some 0)
unfolding position differs
position_after a xs i s q = elim (head-drop xs (suc i)) [
  | inl (e, h) ↦ inl (rw e refl, omega (arith, place-le a xs))
  | inr (z, e) ↦
      inr (rw (drop-suc xs (suc i) z e) (ground (arith, get_elem?-place a xs (suc i) z s e)))
]

position-skip :
    (a : ℕ) (y : Bond) (ys : List Bond) (i : ℕ)
    → y.amount ≡ a
    → ((position (differs a) ys ≡ none) → position (differs a) (y ∷ ys) ≡ none)
      × ((position (differs a) ys ≡ some i) → position (differs a) (y ∷ ys) ≡ some (suc i))
unfolding position differs
position-skip a y ys i h = ground arith

-- From the last bond of the amount the search skips to the place behind it.
skip_equals-place :
    (a : ℕ) (xs : List Bond) (i : ℕ) (y : Bond)
    → IsSorted xs
    → get_elem? xs i ≡ some y
    → y.amount ≡ a
    → place a xs ≡ suc i
    → skip_equals a xs i ≡ place a xs
unfolding skip_equals
skip_equals-place a xs i y s e h q =
    ground
      (arith, drop-suc xs i y e, position_after a xs i s q, position-skip a y (drop (suc i) xs) 0 h)

-- At the end of the loop the window has one element: it is the last one of at least the amount,
-- or none is.
abbrev Places : ℕ → List Bond → Found → Type 0
Places a xs (ok_at i) =
    (y : Bond) × (get_elem? xs i ≡ some y) × (y.amount ≡ a) × (place a xs ≡ suc i)
Places a xs (err_at i) = place a xs ≡ i

Places-ended :
    (a : ℕ) (l : List Bond) (base : ℕ) (y : Bond) (o : Ordering)
    → IsSorted l
    → Within a l 1 base
    → get_elem? l base ≡ some y
    → compare a y.amount ≡ o
    → Places a l (ended o base)
Places-ended a l base y Ordering.lt s w e c = ground (arith, get_elem?-place a l base y s e)
Places-ended a l base y Ordering.eq s w e c =
    (y, e, ground arith, ground (arith, get_elem?-place a l base y s e))
Places-ended a l base y Ordering.gt s w e c = ground (arith, get_elem?-place a l base y s e)

probe-some :
    (a : ℕ) (l : List Bond) (i : ℕ) (y : Bond)
    → get_elem? l i ≡ some y
    → compare a y.amount ≡ probe (against a) l i
unfolding against
probe-some a l i y e = rw (e, probe) refl

Places-search : (a : ℕ) (l : List Bond) → IsSorted l → Places a l (binary_search_by (against a) l)
unfolding binary_search_by place
Places-search a [] s = refl
Places-search a (x ∷ xs) s =
    let l : List Bond = x ∷ xs in
    let base : ℕ = bisect (against a) l (length l) (length l) 0 in
    let w : Within a l 1 base =
      bisect-Within a l s (length l) (length l) 0 (omega arith) (omega arith)
        (omega arith, omega (arith, place-le a l), inl refl) in
    let (y, e) = get_elem?-some l base (omega arith) in
    Places-ended a l base y (probe (against a) l base) s w e (probe-some a l base y e)

insertion_index-place : (a : ℕ) (xs : List Bond) → IsSorted xs → insertion_index a xs ≡ place a xs
unfolding insertion_index
insertion_index-place a xs s = go (binary_search_by (against a) xs) (Places-search a xs s)
  where
    go :
        (f : Found)
        → Places a xs f
        → (elim f [ ok_at i ↦ skip_equals a xs i | err_at i ↦ i ]) ≡ place a xs
    go (ok_at i) (y, e, h, q) = skip_equals-place a xs i y s e h q
    go (err_at i) h = sym h

-- On a falling list the binary search and the skip over equal amounts insert where plain
-- insertion does, and the total grows by the amount, up to the greatest `u128`.
pub insert_sorted_greatest_to_least-eq-insort :
    (n : Nominations) (b : Bond)
    → IsSorted n.nominations
    → insert_sorted_greatest_to_least n b
      ≡ record { nominations = insort b n.nominations; total = sat_add n.total b.amount }
unfolding insert_sorted_greatest_to_least
insert_sorted_greatest_to_least-eq-insort n b s =
    rw (insertion_index-place b.amount n.nominations s, insert_at_place b n.nominations)
