-- ===== src/Blaze/Coins/Least.antt =====
-- About the cost that a walk of `dfs` leaves.
use Prim.Native.Nat.{◌^◌}
use native.Mathlib.Nat.{two-pow-succ, one-le-pow}
use mathlib.Core.Path.{subst}
use mathlib.Core.List.{append_assoc}
use mathlib.Core.List.Sublistᴰ
use bifrost_node.Prelude.{
  ℕ, suc, ◌+◌, ◌≤◌, ◌<◌, ◌≡◌, refl, sym, ap, ◌∙◌, false, List, [], ◌∷◌, ◌++◌, add64, inl, inr,
  length, Sublistᴰ, sum_of-append, sum_of-sublist, u64_mod, arith,
}
use bifrost_node.Blaze.Coins.{
  ScoredUtxo, Problem, SearchState, visit, dfs, suffix_sum, input_vbytes, search, unsearched,
}
use bifrost_node.Blaze.Coins.Search.{tried}
use bifrost_node.Blaze.Coins.Bounds.{dfs-calls, dfs-best_cost-le}
use bifrost_node.Blaze.Coins.Sound.{value_of, IsAdmissible, Fits, IsAt, IsAt-include, IsAt-exclude}

-- What makes it safe to stop at the first prefix that reaches the target, and to prune: a longer
-- selection costs no less, no cost of one that reaches the target is below `least`, and a value below one in bounds is in bounds.
pub record Grows (p : Problem) (pool : List ScoredUtxo) : Type 0 where
  pub costs :
      (curr more : List ScoredUtxo)
      → Sublistᴰ (curr ++ more) pool
      → p.target ≤ value_of curr
      → p.cost curr (value_of curr) ≤ p.cost (curr ++ more) (value_of (curr ++ more))
  pub floor :
      (sel : List ScoredUtxo)
      → Sublistᴰ sel pool
      → p.target ≤ value_of sel
      → p.least ≤ p.cost sel (value_of sel)
  pub bound : (a b : ℕ) → a ≤ b → p.over b ≡ false → p.over a ≡ false

suffix_sum-exact : (xs : List ScoredUtxo) → value_of xs < u64_mod → suffix_sum xs ≡ value_of xs
unfolding suffix_sum
suffix_sum-exact [] h = refl
suffix_sum-exact (x ∷ xs) h = let tail = suffix_sum-exact xs (omega arith) in ground arith

-- A call with tries left, in front of an admissible selection that extends the current one, records
-- a cost that is no higher, finds that none is lower, or goes on.
visit-Reaches :
    (p : Problem) (remaining : ℕ) (curr : List ScoredUtxo) (value weight : ℕ) (s : SearchState)
    (next : SearchState → SearchState) (cost : ℕ)
    → s.tries < p.max_tries
    → p.target ≤ add64 value remaining
    → p.over value ≡ false
    → weight ≤ p.max_weight
    → (p.target ≤ value → p.cost curr value ≤ cost)
    → p.least ≤ cost
    → ((value < p.target) → (next (tried s)).best_cost ≤ cost)
    → (visit p remaining curr value weight s next).best_cost ≤ cost
unfolding visit
visit-Reaches p remaining curr value weight s next cost left reach within light stop floor go_on =
    ground arith

module _ {p : Problem} {pool : List ScoredUtxo} (fits : Fits pool) (grows : Grows p pool) where
  -- `more` extends the current selection by entries that are left.
  visit-Least :
      (rest curr more : List ScoredUtxo) (value weight : ℕ) (s : SearchState)
      (next : SearchState → SearchState)
      → IsAt pool rest curr value weight
      → Sublistᴰ more rest
      → IsAdmissible p (curr ++ more)
      → s.tries < p.max_tries
      → (value < p.target
          → (next (tried s)).best_cost ≤ p.cost (curr ++ more) (value_of (curr ++ more)))
      → (visit p (suffix_sum rest) curr value weight s next).best_cost
        ≤ p.cost (curr ++ more) (value_of (curr ++ more))
  visit-Least rest curr more value weight s next at inside admissible left go_on =
      let whole = Sublistᴰ.trans (Sublistᴰ.append (Sublistᴰ.refl curr) inside) at.part in
      let split = sum_of-append (λ x. x.effective_value) curr more in
      let split_weight = sum_of-append input_vbytes curr more in
      let entries = sum_of-sublist (λ x. x.effective_value) inside in
      let all = sum_of-sublist (λ x. x.effective_value) at.part in
      let split_all = sum_of-append (λ x. x.effective_value) curr rest in
      let reaches = admissible.reaches in
      let at_value = at.value_sum in
      let exact = suffix_sum-exact rest (omega (arith, fits.values)) in
      visit-Reaches p (suffix_sum rest) curr value weight s next
        (p.cost (curr ++ more) (value_of (curr ++ more))) left
        (rw exact (ground (arith, fits.values)))
        (grows.bound value (value_of (curr ++ more)) (omega arith) admissible.within)
        (omega (arith, admissible.light, at.weight_sum))
        (λ h.
          subst (λ v. p.cost curr v ≤ p.cost (curr ++ more) (value_of (curr ++ more)))
            (sym at.value_sum) (grows.costs curr more whole (omega arith)))
        (grows.floor (curr ++ more) whole reaches) go_on

  dfs-Least :
      (rest curr more : List ScoredUtxo) (value weight : ℕ) (s : SearchState)
      → IsAt pool rest curr value weight
      → Sublistᴰ more rest
      → IsAdmissible p (curr ++ more)
      → s.tries + 2 ^ suc (length rest) ≤ p.max_tries + 1
      → (dfs p rest curr value weight s).best_cost ≤ p.cost (curr ++ more) (value_of (curr ++ more))
  unfolding dfs suffix_sum
  dfs-Least [] curr more value weight s at inside admissible room =
      let split = sum_of-append (λ x. x.effective_value) curr more in
      let none_left = sum_of-sublist (λ x. x.effective_value) inside in
      visit-Least [] curr more value weight s (λ t. t) at inside admissible (omega arith)
        (λ below. absurd (omega (arith, admissible.reaches, at.value_sum)))
  dfs-Least (x ∷ rest) curr more value weight s at inside admissible room =
      let n = suc (length rest) in
      let doubled : 2 ^ suc n ≡ 2 ^ n + 2 ^ n = two-pow-succ n in
      let positive : 1 ≤ 2 ^ n = one-le-pow n 2 (omega arith) in
      let value_x = add64 value x.effective_value in
      let weight_x = add64 weight (input_vbytes x) in
      let included = dfs p rest (curr ++ x ∷ []) value_x weight_x (tried s) in
      let calls = dfs-calls p rest (curr ++ x ∷ []) value_x weight_x (tried s) in
      visit-Least (x ∷ rest) curr more value weight s _ at inside admissible (omega arith) (λ below.
        elim (Sublistᴰ.cases_cons inside) [
          | inl skipped ↦
              dfs-Least rest curr more value weight included
                (IsAt-exclude fits x rest curr value weight at) skipped admissible (omega arith)
          | inr (others, e, taken) ↦
              let same = append_assoc curr (x ∷ []) others ∙ ap (λ l. curr ++ l) (sym e) in
              let best =
                subst (λ l. included.best_cost ≤ p.cost l (value_of l)) same
                  (dfs-Least rest (curr ++ x ∷ []) others value_x weight_x (tried s)
                    (IsAt-include fits x rest curr value weight at) taken
                    (subst (IsAdmissible p) (sym same) admissible) (omega arith)) in
              omega (arith, dfs-best_cost-le p rest curr value weight included)
        ])

  -- No admissible selection from the pool costs less than what the search leaves.
  pub search-Least :
      (sel : List ScoredUtxo)
      → Sublistᴰ sel pool
      → IsAdmissible p sel
      → 2 ^ suc (length pool) ≤ p.max_tries + 1
      → (search p pool).best_cost ≤ p.cost sel (value_of sel)
  search-Least sel inside admissible room =
      dfs-Least pool [] sel 0 0 unsearched
        (record { part = Sublistᴰ.refl pool; value_sum = refl; weight_sum = refl }) inside
        admissible (omega (arith, room))
