-- ===== src/Prelude/Sorting.antt =====
-- `slice::sort_by`, a stable sort, and sums over a list, which do not see the order.
use Prim.Native.Nat.{ℕ, suc, ◌+◌, ◌≤◌}
use mathlib.Core.Path.{◌≡◌, refl, ap, ◌∙◌}
use mathlib.Core.Bool.{Bool, true, false}
use mathlib.Core.List.{List, [], ◌∷◌, ◌++◌, Permᴰ, Sublistᴰ}
use mathlib.Core.List.Permᴰ
use native.Mathlib.Omega.{arith}
use bifrost_node.Prelude.Tests.{if◌then◌else◌}
use bifrost_node.Prelude.Lists.{length}

-- `before x y` says that `x` may stand before `y`: their comparison is not `Greater`.
module _ {ℓ} {A : Type ℓ} (before : A → A → Bool) where
  abbrev pub insert_by : A → List A → List A
  insert_by x [] = x ∷ []
  insert_by x (y ∷ ys) = let rest = insert_by x ys in if before x y then x ∷ y ∷ ys else y ∷ rest

  unfoldable pub sort_by : List A → List A
  sort_by [] = []
  sort_by (x ∷ xs) = insert_by x (sort_by xs)

  insert_step-perm :
      {x y : A} {ys rest : List A} (b : Bool)
      → Permᴰ rest (x ∷ ys)
      → Permᴰ (if b then x ∷ y ∷ ys else y ∷ rest) (x ∷ y ∷ ys)
  insert_step-perm {x} {y} {ys} true _ = Permᴰ.refl (x ∷ y ∷ ys)
  insert_step-perm false p = Permᴰ.trans (Permᴰ.cons refl p) (Permᴰ.swap refl refl)

  insert_by-perm : (x : A) (ys : List A) → Permᴰ (insert_by x ys) (x ∷ ys)
  insert_by-perm x [] = Permᴰ.refl (x ∷ [])
  insert_by-perm x (y ∷ ys) = insert_step-perm (before x y) (insert_by-perm x ys)

  pub sort_by-perm : (xs : List A) → Permᴰ (sort_by xs) xs
  unfolding sort_by
  sort_by-perm [] = Permᴰ.nil
  sort_by-perm (x ∷ xs) =
      Permᴰ.trans (insert_by-perm x (sort_by xs)) (Permᴰ.cons refl (sort_by-perm xs))

pub length-perm {ℓ} : {A : Type ℓ} {xs ys : List A} → Permᴰ xs ys → length xs ≡ length ys
length-perm Permᴰ.nil = refl
length-perm (Permᴰ.cons e p) = ap suc (length-perm p)
length-perm (Permᴰ.swap e e') = refl
length-perm (Permᴰ.trans p q) = length-perm p ∙ length-perm q

module _ {ℓ} {A : Type ℓ} (f : A → ℕ) where
  abbrev pub sum_of : List A → ℕ
  sum_of [] = 0
  sum_of (x ∷ xs) = f x + sum_of xs

  pub sum_of-append : (xs ys : List A) → sum_of (xs ++ ys) ≡ sum_of xs + sum_of ys
  sum_of-append [] ys = omega arith
  sum_of-append (x ∷ xs) ys = omega (arith, sum_of-append xs ys)

  pub sum_of-perm : {xs ys : List A} → Permᴰ xs ys → sum_of xs ≡ sum_of ys
  sum_of-perm Permᴰ.nil = refl
  sum_of-perm (Permᴰ.cons e p) = grind (arith, ap f e, sum_of-perm p)
  sum_of-perm (Permᴰ.swap e e') = grind (arith, ap f e, ap f e')
  sum_of-perm (Permᴰ.trans p q) = sum_of-perm p ∙ sum_of-perm q

  pub sum_of-sublist : {xs ys : List A} → Sublistᴰ xs ys → sum_of xs ≤ sum_of ys
  sum_of-sublist Sublistᴰ.slnil = omega arith
  sum_of-sublist (Sublistᴰ.cons s) = omega (arith, sum_of-sublist s)
  sum_of-sublist (Sublistᴰ.cons-cons e s) = omega (arith, ap f e, sum_of-sublist s)
