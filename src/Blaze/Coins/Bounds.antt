-- ===== src/Blaze/Coins/Bounds.antt =====
-- Bounds on `tries` and on the best cost along a walk of `dfs`.
use Prim.Native.Nat.{◌^◌}
use native.Mathlib.Nat.{two-pow-succ, one-le-pow}
use bifrost_node.Prelude.{ℕ, suc, ◌+◌, ◌≤◌, ◌<◌, ◌≡◌, List, [], ◌∷◌, ◌++◌, add64, length, arith}
use bifrost_node.Blaze.Coins.{ScoredUtxo, Problem, SearchState, dfs, suffix_sum, input_vbytes}
use bifrost_node.Blaze.Coins.Search.{tried, visit-Keeps}

module _ (p : Problem) where
  -- A search that starts within its limit of tries ends within it.
  pub dfs-tries-le :
      (rest curr : List ScoredUtxo) (value weight : ℕ) (s : SearchState)
      → s.tries ≤ p.max_tries
      → (dfs p rest curr value weight s).tries ≤ p.max_tries
  unfolding dfs
  dfs-tries-le [] curr value weight s h =
      visit-Keeps p 0 curr value weight s (λ t. t) (λ t. t.tries ≤ p.max_tries) h (λ l. omega arith)
        (λ l _ _ _. ground arith) (λ l. omega arith)
  dfs-tries-le (x ∷ rest) curr value weight s h =
      visit-Keeps p (suffix_sum (x ∷ rest)) curr value weight s _ (λ t. t.tries ≤ p.max_tries) h
        (λ l. omega arith) (λ l _ _ _. ground arith)
        (λ l.
          dfs-tries-le rest curr value weight _
            (dfs-tries-le rest (curr ++ x ∷ []) _ _ (tried s) (omega arith)))

  -- The search of n entries raises `tries` by less than 2 ^ (n + 1), whatever its limit.
  pub dfs-calls :
      (rest curr : List ScoredUtxo) (value weight : ℕ) (s : SearchState)
      → (dfs p rest curr value weight s).tries < s.tries + 2 ^ suc (length rest)
  unfolding dfs
  dfs-calls [] curr value weight s =
      visit-Keeps p 0 curr value weight s (λ t. t) (λ t. t.tries < s.tries + 2) (omega arith)
        (λ l. omega arith) (λ l _ _ _. ground arith) (λ l. omega arith)
  dfs-calls (x ∷ rest) curr value weight s =
      let n = suc (length rest) in
      let doubled : 2 ^ suc n ≡ 2 ^ n + 2 ^ n = two-pow-succ n in
      let positive : 1 ≤ 2 ^ n = one-le-pow n 2 (omega arith) in
      let inner =
        dfs-calls rest (curr ++ x ∷ []) (add64 value x.effective_value)
          (add64 weight (input_vbytes x)) (tried s) in
      let outer = dfs-calls rest curr value weight (
        dfs p rest (curr ++ x ∷ []) (add64 value x.effective_value) (add64 weight (input_vbytes x))
          (tried s)) in
      visit-Keeps p (suffix_sum (x ∷ rest)) curr value weight s _
        (λ t. t.tries < s.tries + 2 ^ suc (suc (length rest))) (omega arith) (λ l. omega arith)
        (λ l _ _ _. ground arith) (λ l. omega arith)

  -- The best cost never rises.
  pub dfs-best_cost-le :
      (rest curr : List ScoredUtxo) (value weight : ℕ) (s : SearchState)
      → (dfs p rest curr value weight s).best_cost ≤ s.best_cost
  unfolding dfs
  dfs-best_cost-le [] curr value weight s =
      visit-Keeps p 0 curr value weight s (λ t. t) (λ t. t.best_cost ≤ s.best_cost) (omega arith)
        (λ l. omega arith) (λ l _ _ _. ground arith) (λ l. omega arith)
  dfs-best_cost-le (x ∷ rest) curr value weight s =
      visit-Keeps p (suffix_sum (x ∷ rest)) curr value weight s _ (λ t. t.best_cost ≤ s.best_cost)
        (omega arith) (λ l. omega arith) (λ l _ _ _. ground arith)
        (λ l. omega (
          arith,
          dfs-best_cost-le rest curr value weight (
              dfs p rest (curr ++ x ∷ []) (add64 value x.effective_value)
                (add64 weight (input_vbytes x)) (tried s)),
          dfs-best_cost-le rest (curr ++ x ∷ []) (add64 value x.effective_value)
              (add64 weight (input_vbytes x)) (tried s),
        ))
