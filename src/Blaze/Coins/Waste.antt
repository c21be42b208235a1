-- ===== src/Blaze/Coins/Waste.antt =====
-- What `select_coins_bnb` returns.
use Prim.Native.Nat.{◌^◌}
use bifrost_node.Prelude.{
  ℕ, suc, ◌+◌, ◌≤◌, ◌<◌, ◌≡◌, refl, some, List, [], ◌∷◌, map, length, u64_mod, arith,
}
use bifrost_node.Blaze.Coins.{
  ScoredUtxo, UtxoInfoWithSize, SelectionStrategy, excess_fee, strategy_of, select_coins_bnb,
}
use bifrost_node.Blaze.Coins.Sound.{value_of, IsBest}
use bifrost_node.Blaze.Coins.Parts.{IsPartOf-le}
use bifrost_node.Blaze.Coins.Branch.{
  IsExchange, IsBounded, BnbFinds, sorted, sorted-IsBounded, best, found-IsExchange,
  search-waste_of, bnb_cost-waste_of,
}

pub strategy_of-found :
    (sel : List ScoredUtxo) (strategy : SelectionStrategy)
    → 0 < value_of sel
    → strategy_of (map (λ x. x.utxo) sel) strategy ≡ some (map (λ x. x.utxo) sel, strategy)
strategy_of-found [] strategy h = absurd (omega arith)
strategy_of-found (x ∷ sel) strategy h = refl

module _ (pool : List ScoredUtxo) (target cost_of_change max_weight max_tries : ℕ)
    (bounded : IsBounded pool) (no_wrap : target + cost_of_change < u64_mod)
    (asked : 0 < target) where
  -- however few tries it is given
  pub select_coins_bnb-IsExchange :
      (utxos : List UtxoInfoWithSize) (strategy : SelectionStrategy)
      → select_coins_bnb pool target cost_of_change max_weight max_tries ≡ some (utxos, strategy)
      → (sel : List ScoredUtxo) × (utxos ≡ map (λ x. x.utxo) sel)
        × IsExchange pool target cost_of_change max_weight sel
  unfolding select_coins_bnb
  select_coins_bnb-IsExchange utxos strategy returned =
      elim (best pool target cost_of_change max_weight max_tries bounded no_wrap) [
        | IsBest.untouched e c ↦ cc (rw e at returned)
        | IsBest.found sel inside a e c ↦
            let whole =
              rw (e, strategy_of-found sel SelectionStrategy.bnb (omega (arith, a.reaches))) at
                returned in
            (
              sel,
              cc whole,
              found-IsExchange pool target cost_of_change max_weight max_tries bounded no_wrap sel
                  inside a,
            )
      ]

  -- With tries enough for the pool, branch and bound returns a part of the pool that covers the
  -- target by at most the cost of change, within the weight, and wastes no more than any other
  -- such part; it returns nothing only when there is none.
  pub select_coins_bnb-Finds :
      2 ^ suc (length pool) ≤ max_tries + 1
      → BnbFinds pool target cost_of_change max_weight
          (select_coins_bnb pool target cost_of_change max_weight max_tries)
  unfolding select_coins_bnb
  select_coins_bnb-Finds room =
      let least =
        search-waste_of pool target cost_of_change max_weight max_tries bounded no_wrap room in
      elim (best pool target cost_of_change max_weight max_tries bounded no_wrap) [
        | IsBest.untouched e c ↦ rw e (λ other exchange.
            let values = IsPartOf-le (λ x. x.effective_value) exchange.part in
            let fees = IsPartOf-le excess_fee exchange.part in
            absurd (omega (arith, least other exchange, bounded.values)))
        | IsBest.found sel inside a e c ↦
            rw (e, strategy_of-found sel SelectionStrategy.bnb (omega (arith, a.reaches)))
              (
                sel,
                refl,
                refl,
                record {
                  exchange =
                      found-IsExchange pool target cost_of_change max_weight max_tries bounded
                        no_wrap sel inside a;
                  least = λ other exchange. omega (
                    arith,
                    least other exchange,
                    c,
                    bnb_cost-waste_of (sorted pool) target cost_of_change max_weight max_tries
                        (sorted-IsBounded pool bounded) no_wrap sel inside,
                  );
                },
              )
      ]
