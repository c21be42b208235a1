-- ===== src/Blaze/Fees/Median.antt =====
-- The median of a list of rates, and how many of them are on each side of it.
use Prim.Native.Nat.{◌/◌}
use bifrost_node.Prelude.{
  ℕ, inl, inr, Bool-cases, zero, suc, ◌+◌, ◌*◌, ◌≤◌, ◌<◌, ◌≡◌, refl, Bool, true, false, some, List,
  [], ◌∷◌, leb, length, get_elem?, sort_by, sort_by-perm, insert_by, length-perm, sum_of,
  sum_of-perm, arith,
}
use bifrost_node.Blaze.Fees.{median}

-- How many rates are at most `m`, and how many are at least `m`.
abbrev pub one_if : Bool → ℕ
one_if true = 1
one_if false = 0

abbrev pub at_most : ℕ → List ℕ → ℕ
at_most m = sum_of (λ x. one_if (leb x m))

abbrev pub at_least : ℕ → List ℕ → ℕ
at_least m = sum_of (λ x. one_if (leb m x))

-- `x` is at most every element, and so on down the list.
abbrev pub Above : ℕ → List ℕ → Type 0
Above x [] = Unit
Above x (y ∷ ys) = (x ≤ y) × Above x ys

abbrev pub Ascending : List ℕ → Type 0
Ascending [] = Unit
Ascending (x ∷ xs) = Above x xs × Ascending xs

Above-le : (x y : ℕ) (xs : List ℕ) → x ≤ y → Above y xs → Above x xs
Above-le x y [] l h = tt
Above-le x y (z ∷ xs) l (h, hs) = (omega arith, Above-le x y xs l hs)

Above-insert_by : (x y : ℕ) (xs : List ℕ) → x ≤ y → Above x xs → Above x (insert_by leb y xs)
Above-insert_by x y [] l h = (l, tt)
Above-insert_by x y (z ∷ xs) l (h, hs) = ground (arith, Above-insert_by x y xs l hs)

insert_by-Ascending : (x : ℕ) (xs : List ℕ) → Ascending xs → Ascending (insert_by leb x xs)
insert_by-Ascending x [] h = (tt, tt)
insert_by-Ascending x (y ∷ ys) (h, hs) = elim (Bool-cases (leb x y)) [
  | inl e ↦ let le : x ≤ y = ground arith in rw e ((le, Above-le x y ys le h), (h, hs))
  | inr e ↦
      let le : y ≤ x = ground arith in
      rw e (Above-insert_by y x ys le h, insert_by-Ascending x ys hs)
]

sort_by-Ascending : (xs : List ℕ) → Ascending (sort_by leb xs)
unfolding sort_by
sort_by-Ascending [] = tt
sort_by-Ascending (x ∷ xs) = insert_by-Ascending x (sort_by leb xs) (sort_by-Ascending xs)

Above-at_least : (x : ℕ) (xs : List ℕ) → Above x xs → at_least x xs ≡ length xs
Above-at_least x [] h = refl
Above-at_least x (y ∷ ys) (h, hs) = ground (arith, Above-at_least x ys hs)

Above-get_elem : (x m i : ℕ) (xs : List ℕ) → Above x xs → get_elem? xs i ≡ some m → x ≤ m
Above-get_elem x m i [] h e = ground arith
Above-get_elem x m zero (y ∷ ys) (h, hs) e = ground arith
Above-get_elem x m (suc i) (y ∷ ys) (h, hs) e = Above-get_elem x m i ys hs e

get_elem-at_most :
    (m i : ℕ) (xs : List ℕ) → Ascending xs → get_elem? xs i ≡ some m → i + 1 ≤ at_most m xs
get_elem-at_most m i [] h e = ground arith
get_elem-at_most m zero (x ∷ xs) (h, hs) e = ground arith
get_elem-at_most m (suc i) (x ∷ xs) (h, hs) e =
    ground (arith, Above-get_elem x m i xs h e, get_elem-at_most m i xs hs e)

get_elem-at_least :
    (m i : ℕ) (xs : List ℕ) → Ascending xs → get_elem? xs i ≡ some m → length xs ≤ at_least m xs + i
get_elem-at_least m i [] h e = ground arith
get_elem-at_least m zero (x ∷ xs) (h, hs) e = ground (arith, Above-at_least x xs h)
get_elem-at_least m (suc i) (x ∷ xs) (h, hs) e = ground (arith, get_elem-at_least m i xs hs e)

get_elem-some :
    {A : Type 0} (i : ℕ) (xs : List A) → i < length xs → (x : A) × (get_elem? xs i ≡ some x)
get_elem-some i [] h = absurd (omega arith)
get_elem-some zero (x ∷ xs) h = (x, refl)
get_elem-some (suc i) (x ∷ xs) h = get_elem-some i xs (omega arith)

-- More than half of the rates are at most `m`, and at least half of them at least that.
abbrev pub IsMiddle : List ℕ → ℕ → Type 0
IsMiddle xs m = (length xs < 2 * at_most m xs) × (length xs ≤ 2 * at_least m xs)

-- More than half of the rates are at most the median, and at least half of them at least that.
pub median-IsMiddle : (xs : List ℕ) (m : ℕ) → median xs ≡ some m → IsMiddle xs m
unfolding median
median-IsMiddle xs m e =
    let p = sort_by-perm leb xs in
    let below = get_elem-at_most m (length xs / 2) (sort_by leb xs) (sort_by-Ascending xs) e in
    let above = get_elem-at_least m (length xs / 2) (sort_by leb xs) (sort_by-Ascending xs) e in
    let same_below = sum_of-perm (λ x. one_if (leb x m)) p in
    let same_above = sum_of-perm (λ x. one_if (leb m x)) p in
    (omega arith, omega (arith, length-perm p))

-- There is one, if there is a rate at all.
pub median-some : (xs : List ℕ) → 0 < length xs → (m : ℕ) × (median xs ≡ some m)
unfolding median
median-some xs h =
    get_elem-some (length xs / 2) (sort_by leb xs)
      (omega (arith, length-perm (sort_by-perm leb xs)))
