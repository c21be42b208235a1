-- ===== src/Blaze/Coins/Sound.antt =====
-- About the selections that a walk of `dfs` records.
use mathlib.Core.Path.{subst}
use mathlib.Core.List.{append_assoc}
use mathlib.Core.List.Sublistᴰ
use bifrost_node.Prelude.{
  ℕ, ◌≤◌, ◌<◌, ◌≡◌, refl, sym, false, List, [], ◌∷◌, ◌++◌, map, ltb, add64, Sublistᴰ, Bool-cases,
  inl, inr, ap, sum_of, sum_of-append, sum_of-sublist, u64_mod, arith,
}
use bifrost_node.Blaze.Coins.{
  ScoredUtxo, Problem, SearchState, record_best, dfs, suffix_sum, input_vbytes, u64_max, search,
}
use bifrost_node.Blaze.Coins.Search.{tried, visit-Keeps}

abbrev pub value_of : List ScoredUtxo → ℕ
value_of = sum_of (λ x. x.effective_value)

abbrev pub weight_of : List ScoredUtxo → ℕ
weight_of = sum_of input_vbytes

pub record IsAdmissible (p : Problem) (sel : List ScoredUtxo) : Type 0 where
  pub reaches : p.target ≤ value_of sel
  pub within : p.over (value_of sel) ≡ false
  pub light : weight_of sel ≤ p.max_weight

pub prefix-Sublist : (xs ys : List ScoredUtxo) → Sublistᴰ xs (xs ++ ys)
prefix-Sublist [] ys = Sublistᴰ.nil-sublist ys
prefix-Sublist (x ∷ xs) ys = Sublistᴰ.cons-cons refl (prefix-Sublist xs ys)

pub skip-Sublist : (x : ScoredUtxo) (xs ys : List ScoredUtxo) → Sublistᴰ (xs ++ ys) (xs ++ x ∷ ys)
skip-Sublist x [] ys = Sublistᴰ.cons (Sublistᴰ.refl ys)
skip-Sublist x (y ∷ xs) ys = Sublistᴰ.cons-cons refl (skip-Sublist x xs ys)

-- What a walk over `pool` has recorded: nothing, or an admissible selection and its cost.
pub data IsBest (p : Problem) (pool : List ScoredUtxo) (s : SearchState) : Type 0 where
  untouched : s.best_selection ≡ [] → s.best_cost ≡ u64_max → IsBest p pool s
  found :
      (sel : List ScoredUtxo)
      → Sublistᴰ sel pool
      → IsAdmissible p sel
      → s.best_selection ≡ map (λ x. x.utxo) sel
      → s.best_cost ≡ p.cost sel (value_of sel)
      → IsBest p pool s

-- The place of a call in the pool: the selection so far, and what is left of the pool.
pub record IsAt (pool rest curr : List ScoredUtxo) (value weight : ℕ) : Type 0 where
  pub part : Sublistᴰ (curr ++ rest) pool
  pub value_sum : value ≡ value_of curr
  pub weight_sum : weight ≡ weight_of curr

-- No sum over the pool wraps.
pub record Fits (pool : List ScoredUtxo) : Type 0 where
  pub values : value_of pool < u64_mod
  pub weights : weight_of pool < u64_mod

module _ {pool : List ScoredUtxo} (fits : Fits pool) where
  pub IsAt-include :
      (x : ScoredUtxo) (rest curr : List ScoredUtxo) (value weight : ℕ)
      → IsAt pool (x ∷ rest) curr value weight
      → IsAt pool rest
          (curr ++ x ∷ [])
          (add64 value x.effective_value)
          (add64 weight (input_vbytes x))
  IsAt-include x rest curr value weight at =
      let whole = sym (append_assoc curr (x ∷ []) rest) in
      let part = subst (λ l. Sublistᴰ l pool) whole at.part in
      let shorter = Sublistᴰ.trans (prefix-Sublist (curr ++ x ∷ []) rest) part in
      let values = sum_of-sublist (λ x. x.effective_value) shorter in
      let weights = sum_of-sublist input_vbytes shorter in
      let split_value = sum_of-append (λ x. x.effective_value) curr (x ∷ []) in
      let split_weight = sum_of-append input_vbytes curr (x ∷ []) in
      record { part = part; value_sum = ground arith; weight_sum = ground arith }

  pub IsAt-exclude :
      (x : ScoredUtxo) (rest curr : List ScoredUtxo) (value weight : ℕ)
      → IsAt pool (x ∷ rest) curr value weight
      → IsAt pool rest curr value weight
  IsAt-exclude x rest curr value weight at = record {
    part = Sublistᴰ.trans (skip-Sublist x curr rest) at.part;
    value_sum = at.value_sum;
    weight_sum = at.weight_sum;
  }

  pub IsAt-part :
      (rest curr : List ScoredUtxo) (value weight : ℕ)
      → IsAt pool rest curr value weight
      → Sublistᴰ curr pool
  IsAt-part rest curr value weight at = Sublistᴰ.trans (prefix-Sublist curr rest) at.part

  module _ (p : Problem) where
    IsBest-tried : (s : SearchState) → IsBest p pool s → IsBest p pool (tried s)
    IsBest-tried s (IsBest.untouched e c) = IsBest.untouched e c
    IsBest-tried s (IsBest.found sel part admissible e c) = IsBest.found sel part admissible e c

    IsBest-record_best :
        (rest curr : List ScoredUtxo) (value weight : ℕ) (s : SearchState)
        → IsAt pool rest curr value weight
        → p.target ≤ value
        → p.over value ≡ false
        → weight ≤ p.max_weight
        → IsBest p pool s
        → IsBest p pool (record_best p curr value s)
    IsBest-record_best rest curr value weight s at reaches within light best =
        elim (Bool-cases (ltb (p.cost curr value) s.best_cost)) [
          | inl better ↦ rw better (
              IsBest.found curr (IsAt-part rest curr value weight at)
                (record {
                  reaches = omega (arith, at.value_sum);
                  within = subst (λ v. p.over v ≡ false) at.value_sum within;
                  light = omega (arith, at.weight_sum);
                })
                refl (ap (p.cost curr) at.value_sum))
          | inr worse ↦ rw worse best
        ]

    -- The whole walk, from any place in the pool.
    pub dfs-IsBest :
        (rest curr : List ScoredUtxo) (value weight : ℕ) (s : SearchState)
        → IsAt pool rest curr value weight
        → IsBest p pool s
        → IsBest p pool (dfs p rest curr value weight s)
    unfolding dfs
    dfs-IsBest [] curr value weight s at best =
        visit-Keeps p 0 curr value weight s (λ t. t) (IsBest p pool) best (λ _. IsBest-tried s best)
          (λ _ reaches within light.
            IsBest-record_best [] curr value weight (tried s) at reaches within light
              (IsBest-tried s best))
          (λ _. IsBest-tried s best)
    dfs-IsBest (x ∷ rest) curr value weight s at best =
        visit-Keeps p (suffix_sum (x ∷ rest)) curr value weight s _ (IsBest p pool) best
          (λ _. IsBest-tried s best)
          (λ _ reaches within light.
            IsBest-record_best (x ∷ rest) curr value weight (tried s) at reaches within light
              (IsBest-tried s best))
          (λ _. dfs-IsBest rest curr value weight _ (IsAt-exclude x rest curr value weight at) (
            dfs-IsBest rest (curr ++ x ∷ []) _ _ (tried s)
              (IsAt-include x rest curr value weight at) (IsBest-tried s best)))

    pub search-IsBest : IsBest p pool (search p pool)
    search-IsBest =
        dfs-IsBest pool [] 0 0 _
          (record { part = Sublistᴰ.refl pool; value_sum = refl; weight_sum = refl })
          (IsBest.untouched refl refl)
