-- ===== src/Blaze/Coins/Parts.antt =====
-- Selections from a pool, whatever their order, and their sums.
use mathlib.Core.Path.{subst}
use mathlib.Core.List.{append_assoc}
use mathlib.Core.List.Sublistᴰ
use mathlib.Core.List.Permᴰ
use bifrost_node.Prelude.{
  ℕ, ◌≤◌, ◌<◌, ◌≡◌, refl, List, [], ◌∷◌, ◌++◌, length, Sublistᴰ, Permᴰ, sum_of, sum_of-append,
  sum_of-perm, length-perm, length-append, u64_mod, arith,
}
use bifrost_node.Blaze.Coins.{ScoredUtxo, sum64}
use bifrost_node.Blaze.Coins.Sound.{prefix-Sublist}

-- Part of a pool, in any order and with each entry at most as often as it is there.
pub record IsPartOf (sel pool : List ScoredUtxo) : Type 0 where
  pub left : List ScoredUtxo
  pub arranged : Permᴰ (sel ++ left) pool

module _ {xs ys : List ScoredUtxo} where
  pub IsPartOf-le : (f : ScoredUtxo → ℕ) → IsPartOf xs ys → sum_of f xs ≤ sum_of f ys
  IsPartOf-le f part = omega (arith, sum_of-perm f part.arranged, sum_of-append f xs part.left)

  pub IsPartOf-length-le : IsPartOf xs ys → length xs ≤ length ys
  IsPartOf-length-le part = omega (arith, length-perm part.arranged, length-append xs part.left)

  pub IsPartOf-sublist : Sublistᴰ xs ys → IsPartOf xs ys
  IsPartOf-sublist s =
      let (left, p) = Sublistᴰ.exists_perm_append s in
      record { left = left; arranged = Permᴰ.symm p }

pub IsPartOf-perm : {sel xs ys : List ScoredUtxo} → Permᴰ xs ys → IsPartOf sel xs → IsPartOf sel ys
IsPartOf-perm p part = record { left = part.left; arranged = Permᴰ.trans part.arranged p }

-- A part of a pool, put in the pool's order.
pub IsPartOf-ordered :
    {sel pool : List ScoredUtxo}
    → IsPartOf sel pool
    → (ordered : List ScoredUtxo) × Permᴰ ordered sel × Sublistᴰ ordered pool
IsPartOf-ordered {sel} part = Permᴰ.exists_sublist part.arranged (prefix-Sublist sel part.left)

pub sum64-exact :
    (f : ScoredUtxo → ℕ) (xs : List ScoredUtxo) → sum_of f xs < u64_mod → sum64 f xs ≡ sum_of f xs
unfolding sum64
sum64-exact f [] h = refl
sum64-exact f (x ∷ xs) h = let tail = sum64-exact f xs (omega arith) in ground arith

pub IsPartOf-trans : {xs ys zs : List ScoredUtxo} → IsPartOf xs ys → IsPartOf ys zs → IsPartOf xs zs
IsPartOf-trans {xs} {zs = zs} p q = record {
  left = p.left ++ q.left;
  arranged =
      subst (λ l. Permᴰ l zs) (append_assoc xs p.left q.left)
        (Permᴰ.trans (Permᴰ.append_right q.left p.arranged) q.arranged);
}
