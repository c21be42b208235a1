-- ===== src/Blaze/Coins.antt =====
-- Coin selection: the types of primitives/btc-relay/src/blaze.rs, and `select_coins` of
-- pallets/blaze/src/pallet/impls.rs with its two searches. Both searches are the same depth-first
-- walk over the sorted pool, which includes an entry and then leaves it out; they differ in what a
-- selection costs, in the cost that ends the walk and in the bound on the value.
pub mod Search
pub mod Bounds
pub mod Sound
pub mod Least
pub mod Parts
pub mod Branch
pub mod Waste
pub mod Split
pub mod Knapsack
pub mod Selection
use bifrost_node.Prelude.{
  ℕ, ◌+◌, ◌-◌, ◌^◌, Bool, true, false, ◌&&◌, ◌||◌, Option, none, some, List, [], ◌∷◌, ◌++◌, map,
  ltb, leb, ◌==◌, if◌then◌else◌, sort_by, u64_mod, add64, sat_add64,
}

pub record UtxoInfoWithSize : Type 0 where
  pub hash : ℕ
  pub txid : ℕ
  pub vout : ℕ
  pub amount : ℕ
  pub descriptor : List ℕ
  pub input_vbytes : ℕ

pub record ScoredUtxo : Type 0 where
  pub utxo : UtxoInfoWithSize
  pub fee : ℕ
  pub long_term_fee : ℕ
  pub effective_value : ℕ

pub data SelectionStrategy : Type 0 where
  bnb knapsack : SelectionStrategy

abbrev pub Selected : Type 0
Selected = List UtxoInfoWithSize × SelectionStrategy

abbrev pub u64_max : ℕ
u64_max = u64_mod - 1

-- `fee.saturating_sub(long_term_fee)`
abbrev pub excess_fee : ScoredUtxo → ℕ
excess_fee x = x.fee - x.long_term_fee

abbrev pub input_vbytes : ScoredUtxo → ℕ
input_vbytes x = x.utxo.input_vbytes

-- `.sum::<u64>()` of a mapped list.
unfoldable pub sum64 : (ScoredUtxo → ℕ) → List ScoredUtxo → ℕ
sum64 f [] = 0
sum64 f (x ∷ xs) = add64 (f x) (sum64 f xs)

-- `suffix_sums[i]`, for the entries from `i` on.
unfoldable pub suffix_sum : List ScoredUtxo → ℕ
suffix_sum [] = 0
suffix_sum (x ∷ xs) = sat_add64 (suffix_sum xs) x.effective_value

-- What the two `dfs` are given besides the pool and the place in it.
pub record Problem : Type 0 where
  pub target : ℕ
  pub max_weight : ℕ
  pub max_tries : ℕ
  pub over : ℕ → Bool
  pub cost : List ScoredUtxo → ℕ → ℕ
  pub least : ℕ

-- What they change: `tries`, `best_selection` and `best_waste` or `best_total`.
pub record SearchState : Type 0 where
  pub tries : ℕ
  pub best_selection : List UtxoInfoWithSize
  pub best_cost : ℕ

abbrev pub record_best : Problem → List ScoredUtxo → ℕ → SearchState → SearchState
record_best p curr value s =
    if ltb (p.cost curr value) s.best_cost
    then record s { best_cost = p.cost curr value; best_selection = map (λ x. x.utxo) curr }
    else s

-- The tests of a call of `dfs`; `next` is the rest of it, the two calls at the next index.
unfoldable pub visit :
    Problem → ℕ → List ScoredUtxo → ℕ → ℕ → SearchState → (SearchState → SearchState) → SearchState
visit p remaining curr value weight s next =
    if leb p.max_tries s.tries
    then s
    else (let tried = record s { tries = s.tries + 1 } in
        if ltb (add64 value remaining) p.target
        then tried
        else if p.over value
        then tried
        else if ltb p.max_weight weight
        then tried
        else if leb p.target value
        then record_best p curr value tried
        else if s.best_cost == p.least
        then tried
        else next tried)

-- `dfs`: the first list is `pool[index..]`, `curr` is `curr_selection`.
unfoldable pub dfs : Problem → List ScoredUtxo → List ScoredUtxo → ℕ → ℕ → SearchState → SearchState
dfs p [] curr value weight s = visit p 0 curr value weight s (λ tried. tried)
dfs p (x ∷ rest) curr value weight s = visit p (suffix_sum (x ∷ rest)) curr value weight s (λ tried.
    dfs p rest curr value weight (
      dfs p rest (curr ++ x ∷ []) (add64 value x.effective_value) (add64 weight (input_vbytes x))
        tried))

abbrev pub unsearched : SearchState
unsearched = record { tries = 0; best_selection = []; best_cost = u64_max }

abbrev pub search : Problem → List ScoredUtxo → SearchState
search p pool = dfs p pool [] 0 0 unsearched

abbrev pub bnb_before : ScoredUtxo → ScoredUtxo → Bool
bnb_before a b =
    ltb b.effective_value a.effective_value
    || (b.effective_value == a.effective_value && leb (excess_fee a) (excess_fee b))

abbrev pub bnb_problem : ℕ → ℕ → ℕ → ℕ → Problem
bnb_problem target cost_of_change max_selection_weight max_tries = record {
  target = target;
  max_weight = max_selection_weight;
  max_tries = max_tries;
  over = λ value. ltb (add64 target cost_of_change) value;
  cost = λ curr value. add64 (value - target) (sum64 excess_fee curr);
  least = 0;
}

abbrev pub strategy_of : List UtxoInfoWithSize → SelectionStrategy → Option Selected
strategy_of [] strategy = none
strategy_of (x ∷ xs) strategy = some (x ∷ xs, strategy)

unfoldable pub select_coins_bnb : List ScoredUtxo → ℕ → ℕ → ℕ → ℕ → Option Selected
select_coins_bnb pool target cost_of_change max_selection_weight max_tries =
    let found =
      search (bnb_problem target cost_of_change max_selection_weight max_tries)
        (sort_by bnb_before pool) in
    strategy_of found.best_selection SelectionStrategy.bnb

-- Phase 1 of the knapsack solver.
pub record Categories : Type 0 where
  pub applicable : List ScoredUtxo
  pub lowest_larger : Option ScoredUtxo
  pub best_exact : Option ScoredUtxo

-- `o.as_ref().map_or(true, |x| scored.effective_value < x.effective_value)`
abbrev pub improves : ScoredUtxo → Option ScoredUtxo → Bool
improves scored none = true
improves scored (some x) = ltb scored.effective_value x.effective_value

unfoldable pub categorize_one : ℕ → ℕ → ℕ → ScoredUtxo → Categories → Categories
categorize_one target change_target max_weight scored c =
    if leb target scored.effective_value
      && leb scored.effective_value (add64 target change_target)
      && leb (input_vbytes scored) max_weight
    then if improves scored c.best_exact then record c { best_exact = some scored } else c
    else if ltb scored.effective_value (add64 target change_target)
    then record c { applicable = c.applicable ++ scored ∷ [] }
    else if improves scored c.lowest_larger
    then record c { lowest_larger = some scored }
    else c

unfoldable pub categorize : ℕ → ℕ → ℕ → List ScoredUtxo → Categories → Categories
categorize target change_target max_weight [] c = c
categorize target change_target max_weight (x ∷ xs) c =
    categorize target change_target max_weight xs
      (categorize_one target change_target max_weight x c)

abbrev pub by_value : ScoredUtxo → ScoredUtxo → Bool
by_value a b = leb b.effective_value a.effective_value

abbrev pub knapsack_problem : ℕ → ℕ → Problem
knapsack_problem target max_weight = record {
  target = target;
  max_weight = max_weight;
  max_tries = 100_000;
  over = λ value. false;
  cost = λ curr value. value;
  least = target;
}

abbrev pub single : ScoredUtxo → Option Selected
single x = some (x.utxo ∷ [], SelectionStrategy.knapsack)

-- `lowest_larger.filter(..).map(..)`
abbrev pub larger_alone : ℕ → Option ScoredUtxo → Option Selected
larger_alone max_weight none = none
larger_alone max_weight (some x) = if leb (input_vbytes x) max_weight then single x else none

-- Phase 3, for a selection that the search found at the cost `best_total`.
abbrev pub compare_larger : ℕ → Option ScoredUtxo → List UtxoInfoWithSize → ℕ → Option Selected
compare_larger max_weight none best best_total = some (best, SelectionStrategy.knapsack)
compare_larger max_weight (some larger) best best_total =
    if leb (input_vbytes larger) max_weight && leb larger.effective_value best_total
    then single larger
    else some (best, SelectionStrategy.knapsack)

abbrev pub best_or_larger : ℕ → Option ScoredUtxo → List UtxoInfoWithSize → ℕ → Option Selected
best_or_larger max_weight larger [] best_total = larger_alone max_weight larger
best_or_larger max_weight larger (x ∷ xs) best_total =
    compare_larger max_weight larger (x ∷ xs) best_total

-- Phases 2 and 3, for a pool without an exact match.
unfoldable pub search_applicable : ℕ → ℕ → Categories → Option Selected
search_applicable target max_weight c =
    if ltb (sum64 (λ x. x.effective_value) c.applicable) target
    then larger_alone max_weight c.lowest_larger
    else (let found = search (knapsack_problem target max_weight) (sort_by by_value c.applicable) in
        best_or_larger max_weight c.lowest_larger found.best_selection found.best_cost)

unfoldable pub select_coins_knapsack : List ScoredUtxo → ℕ → ℕ → ℕ → Option Selected
select_coins_knapsack pool target change_target max_weight =
    let c =
      categorize target change_target max_weight pool
        (record { applicable = []; lowest_larger = none; best_exact = none }) in
    elim c.best_exact [ some exact ↦ single exact | none ↦ search_applicable target max_weight c ]

unfoldable pub select_coins : List ScoredUtxo → ℕ → ℕ → ℕ → ℕ → ℕ → Option Selected
select_coins pool target cost_of_change max_selection_weight max_tries change_target =
    elim (select_coins_bnb pool target cost_of_change max_selection_weight max_tries) [
      | some selected ↦ some selected
      | none ↦ select_coins_knapsack pool target change_target max_selection_weight
    ]
