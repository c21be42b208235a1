-- ===== src/Blaze/Tests/Coins.antt =====
-- Runs of the two searches on a small pool, and the theorems at that pool.
use bifrost_node.Prelude.{
  ℕ, ◌+◌, ◌≤◌, ◌<◌, ◌≡◌, refl, none, some, List, [], ◌∷◌, map, sort_by, Sublistᴰ, sum_of-sublist,
  arith,
}
use bifrost_node.Blaze.Coins.{
  ScoredUtxo, UtxoInfoWithSize, SelectionStrategy, visit, dfs, suffix_sum, sum64, select_coins_bnb,
  bnb_problem, unsearched, categorize, categorize_one, search_applicable, select_coins_knapsack,
  select_coins,
}
use bifrost_node.Blaze.Coins.Bounds.{dfs-tries-le}
use bifrost_node.Blaze.Coins.Sound.{Fits}
use bifrost_node.Blaze.Coins.Branch.{IsBounded, BnbFinds}
use bifrost_node.Blaze.Coins.Waste.{select_coins_bnb-Finds}
use bifrost_node.Blaze.Coins.Knapsack.{IsCovering}
use bifrost_node.Blaze.Coins.Selection.{Covered, select_coins-Covered, select_coins_knapsack-none}

abbrev utxo : ℕ → ℕ → ℕ → UtxoInfoWithSize
utxo id amount vbytes = record {
  hash = id;
  txid = id;
  vout = 0;
  amount = amount;
  descriptor = [];
  input_vbytes = vbytes;
}

abbrev scored : ℕ → ℕ → ℕ → ScoredUtxo
scored id value vbytes = record {
  utxo = utxo id (value + 10) vbytes;
  fee = 10;
  long_term_fee = 8;
  effective_value = value;
}

abbrev pool : List ScoredUtxo
pool = scored 1 40 60 ∷ scored 2 100 60 ∷ scored 3 70 60 ∷ []

bnb_run :
    select_coins_bnb pool 105 10 200 100
    ≡ some (map (λ x. x.utxo) (scored 3 70 60 ∷ scored 1 40 60 ∷ []), SelectionStrategy.bnb)
unfolding select_coins_bnb dfs visit suffix_sum sum64 sort_by
bnb_run = refl

knapsack_run :
    select_coins_knapsack pool 120 1000 200
    ≡ some (map (λ x. x.utxo) (scored 2 100 60 ∷ scored 1 40 60 ∷ []), SelectionStrategy.knapsack)
unfolding select_coins_knapsack categorize categorize_one search_applicable dfs visit suffix_sum
    sum64 sort_by
knapsack_run = refl

-- An entry that is too heavy and is the least of the larger ones hides one that would do.
heavy_hides_light :
    select_coins_knapsack (scored 1 5000 900 ∷ scored 2 6000 60 ∷ []) 1000 100 200 ≡ none
unfolding select_coins_knapsack categorize categorize_one search_applicable dfs visit suffix_sum
    sum64 sort_by
heavy_hides_light = refl

pool-IsBounded : IsBounded pool
pool-IsBounded = record { values = omega arith; weights = omega arith }

pool-Fits : Fits pool
pool-Fits = record { values = omega arith; weights = omega arith }

select_coins-Covered_example : Covered pool 120 1000 200 (select_coins pool 120 5 200 100 1000)
select_coins-Covered_example =
    select_coins-Covered pool 120 1000 200 5 100 pool-IsBounded (omega arith) (omega arith)
      (omega arith)

select_coins_bnb-Finds_example : BnbFinds pool 105 10 200 (select_coins_bnb pool 105 10 200 100)
select_coins_bnb-Finds_example =
    select_coins_bnb-Finds pool 105 10 200 100 pool-IsBounded (omega arith) (omega arith)
      (omega arith)

nothing_returned : select_coins_knapsack pool 190 50 150 ≡ none
unfolding select_coins_knapsack categorize categorize_one search_applicable dfs visit suffix_sum
    sum64 sort_by
nothing_returned = refl

entry_below : (x : ScoredUtxo) → Sublistᴰ (x ∷ []) pool → x.effective_value < 240
entry_below x s = omega (arith, sum_of-sublist (λ y. y.effective_value) s)

select_coins_knapsack-none_example : ¬ IsCovering pool 190 150 pool
select_coins_knapsack-none_example =
    select_coins_knapsack-none pool 190 50 150 pool-Fits (omega arith) (omega arith) (omega arith)
      nothing_returned pool entry_below

dfs-tries-le_example : (dfs (bnb_problem 105 10 200 3) pool [] 0 0 unsearched).tries ≤ 3
dfs-tries-le_example = dfs-tries-le (bnb_problem 105 10 200 3) pool [] 0 0 unsearched (omega arith)
