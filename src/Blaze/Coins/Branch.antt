-- ===== src/Blaze/Coins/Branch.antt =====
-- The walk of `select_coins_bnb`, and the waste of its selections.
use Prim.Native.Nat.{◌^◌}
use mathlib.Core.List.Sublistᴰ
use mathlib.Core.List.Permᴰ
use bifrost_node.Prelude.{
  ℕ, suc, ◌+◌, ◌-◌, ◌≤◌, ◌<◌, ◌≡◌, Option, none, some, List, ◌++◌, map, length, Sublistᴰ, Permᴰ,
  sum_of, sum_of-append, sum_of-sublist, sum_of-perm, length-perm, u64_mod, sort_by, sort_by-perm,
  arith,
}
use bifrost_node.Blaze.Coins.{
  ScoredUtxo, SelectionStrategy, Problem, SearchState, Selected, search, excess_fee, input_vbytes,
  bnb_before, bnb_problem, u64_max,
}
use bifrost_node.Blaze.Coins.Sound.{
  value_of, weight_of, prefix-Sublist, IsAdmissible, Fits, IsBest, search-IsBest,
}
use bifrost_node.Blaze.Coins.Parts.{
  IsPartOf, IsPartOf-sublist, IsPartOf-perm, IsPartOf-ordered, sum64-exact,
}
use bifrost_node.Blaze.Coins.Least.{Grows, search-Least}

abbrev pub waste_of : ℕ → List ScoredUtxo → ℕ
waste_of target sel = (value_of sel - target) + sum_of excess_fee sel

-- The selections that branch and bound may return.
pub record IsExchange (pool : List ScoredUtxo) (target cost_of_change max_weight : ℕ)
    (sel : List ScoredUtxo) : Type 0 where
  pub part : IsPartOf sel pool
  pub reaches : target ≤ value_of sel
  pub within : value_of sel ≤ target + cost_of_change
  pub light : weight_of sel ≤ max_weight

-- The sums that the search forms stay below 2 ^ 64.
pub record IsBounded (pool : List ScoredUtxo) : Type 0 where
  pub values : value_of pool + sum_of excess_fee pool < u64_max
  pub weights : weight_of pool < u64_mod

pub IsBounded-Fits : {pool : List ScoredUtxo} → IsBounded pool → Fits pool
IsBounded-Fits bounded = record {
  values = omega (arith, bounded.values);
  weights = bounded.weights;
}

IsBounded-perm : {xs ys : List ScoredUtxo} → Permᴰ xs ys → IsBounded ys → IsBounded xs
IsBounded-perm p bounded = record {
  values =
      omega
        (arith, bounded.values, sum_of-perm (λ x. x.effective_value) p, sum_of-perm excess_fee p);
  weights = omega (arith, bounded.weights, sum_of-perm input_vbytes p);
}

module _ (pool : List ScoredUtxo) (target cost_of_change max_weight max_tries : ℕ)
    (bounded : IsBounded pool) (no_wrap : target + cost_of_change < u64_mod) where
  abbrev problem : Problem
  problem = bnb_problem target cost_of_change max_weight max_tries

  pub bnb_cost-waste_of :
      (sel : List ScoredUtxo)
      → Sublistᴰ sel pool
      → problem.cost sel (value_of sel) ≡ waste_of target sel
  bnb_cost-waste_of sel inside =
      let values = sum_of-sublist (λ x. x.effective_value) inside in
      let fees = sum_of-sublist excess_fee inside in
      let exact = sum64-exact excess_fee sel (omega (arith, bounded.values)) in
      rw exact (ground (arith, bounded.values))

  bnb_problem-Grows : Grows problem pool
  bnb_problem-Grows = record {
    costs = λ curr more inside reaches.
        let prefix = Sublistᴰ.trans (prefix-Sublist curr more) inside in
        let split = sum_of-append (λ x. x.effective_value) curr more in
        let split_fees = sum_of-append excess_fee curr more in
        omega (arith, bnb_cost-waste_of curr prefix, bnb_cost-waste_of (curr ++ more) inside);
    floor = λ sel inside reaches. omega arith;
    bound = λ a b le within. ground arith;
  }

  Exchange-Admissible :
      {sel : List ScoredUtxo}
      → IsExchange pool target cost_of_change max_weight sel
      → IsAdmissible problem sel
  Exchange-Admissible e = record {
    reaches = e.reaches;
    within = ground (arith, e.within);
    light = e.light;
  }

  Admissible-within :
      {sel : List ScoredUtxo} → IsAdmissible problem sel → value_of sel ≤ target + cost_of_change
  Admissible-within {sel} a = let within = a.within in ground arith

module _ (pool : List ScoredUtxo) (target cost_of_change max_weight : ℕ) where
  -- A selection in bounds that wastes no more than any other.
  pub record IsLeastExchange (sel : List ScoredUtxo) : Type 0 where
    pub exchange : IsExchange pool target cost_of_change max_weight sel
    pub least :
        (other : List ScoredUtxo)
        → IsExchange pool target cost_of_change max_weight other
        → waste_of target sel ≤ waste_of target other

  -- What branch and bound promises of its result, with enough tries.
  abbrev pub BnbFinds : Option Selected → Type 0
  BnbFinds none = (sel : List ScoredUtxo) → ¬ IsExchange pool target cost_of_change max_weight sel
  BnbFinds (some (utxos, strategy)) =
      (sel : List ScoredUtxo) × (utxos ≡ map (λ x. x.utxo) sel)
      × (strategy ≡ SelectionStrategy.bnb)
      × IsLeastExchange sel

abbrev pub sorted : List ScoredUtxo → List ScoredUtxo
sorted pool = sort_by bnb_before pool

abbrev pub bnb_search : List ScoredUtxo → ℕ → ℕ → ℕ → ℕ → SearchState
bnb_search pool target cost_of_change max_weight max_tries =
    search (bnb_problem target cost_of_change max_weight max_tries) (sorted pool)

pub sorted-IsBounded : (pool : List ScoredUtxo) → IsBounded pool → IsBounded (sorted pool)
sorted-IsBounded pool bounded = IsBounded-perm (sort_by-perm bnb_before pool) bounded

module _ (pool : List ScoredUtxo) (target cost_of_change max_weight max_tries : ℕ)
    (bounded : IsBounded pool) (no_wrap : target + cost_of_change < u64_mod) where
  pub best :
      IsBest
        (bnb_problem target cost_of_change max_weight max_tries)
        (sorted pool)
        (bnb_search pool target cost_of_change max_weight max_tries)
  best = search-IsBest (IsBounded-Fits (sorted-IsBounded pool bounded)) _

  pub found-IsExchange :
      (sel : List ScoredUtxo)
      → Sublistᴰ sel (sorted pool)
      → IsAdmissible (bnb_problem target cost_of_change max_weight max_tries) sel
      → IsExchange pool target cost_of_change max_weight sel
  found-IsExchange sel inside a = record {
    part = IsPartOf-perm (sort_by-perm bnb_before pool) (IsPartOf-sublist inside);
    reaches = a.reaches;
    within =
        Admissible-within (sorted pool) target cost_of_change max_weight max_tries
          (sorted-IsBounded pool bounded) no_wrap a;
    light = a.light;
  }

  -- No selection in bounds wastes less than the cost that the search leaves.
  pub search-waste_of :
      2 ^ suc (length pool) ≤ max_tries + 1
      → (other : List ScoredUtxo) → IsExchange pool target cost_of_change max_weight other
      → (bnb_search pool target cost_of_change max_weight max_tries).best_cost
        ≤ waste_of target other
  search-waste_of room other e =
      let (ordered, same, inside) =
        IsPartOf-ordered (IsPartOf-perm (Permᴰ.symm (sort_by-perm bnb_before pool)) e.part) in
      let values = sum_of-perm (λ x. x.effective_value) same in
      let fees = sum_of-perm excess_fee same in
      let weights = sum_of-perm input_vbytes same in
      let length_eq = length-perm (sort_by-perm bnb_before pool) in
      let ordered_exchange : IsExchange (sorted pool) target cost_of_change max_weight ordered =
        record {
          part = IsPartOf-sublist inside;
          reaches = omega (arith, e.reaches);
          within = omega (arith, e.within);
          light = omega (arith, e.light);
        } in
      omega (
        arith,
        search-Least (IsBounded-Fits (sorted-IsBounded pool bounded))
            (bnb_problem-Grows (sorted pool) target cost_of_change max_weight max_tries
              (sorted-IsBounded pool bounded) no_wrap)
            ordered inside
            (Exchange-Admissible (sorted pool) target cost_of_change max_weight max_tries
              (sorted-IsBounded pool bounded) no_wrap ordered_exchange)
            (rw length_eq room),
        bnb_cost-waste_of (sorted pool) target cost_of_change max_weight max_tries
            (sorted-IsBounded pool bounded) no_wrap ordered inside,
      )
