-- ===== src/Staking/Election.antt =====
-- The election of the validators of a round, in pallets/bfc-staking/src/pallet/impls.rs:
-- `get_sorted_candidates`, `compute_top_candidates` and `get_top_n_candidates`.
pub mod Ranking
pub mod Elected
use bifrost_node.Prelude.{
  ℕ, Bool, true, false, ◌&&◌, Option, none, some, List, map, leb, take, retain, sort_by, Dict,
}
use bifrost_node.Staking.Nominations.{Bond}
use bifrost_node.Staking.Types.{CandidateMetadata, TierType, is_full}
use bifrost_node.Staking.Storage.{Config, Storage}

-- `MaxFullSelected`, `MaxBasicSelected` and the minimum stakes of a validator.
pub record Seats : Type 0 where
  pub max_full_selected : ℕ
  pub max_basic_selected : ℕ
  pub min_full_validator_stk : ℕ
  pub min_basic_validator_stk : ℕ

abbrev pub candidates : Dict ℕ → List Bond
candidates pool = map (λ e. record { owner = e.0; amount = e.1 }) pool

abbrev pub by_amount : Bond → Bond → Bool
by_amount x y = leb y.amount x.amount

unfoldable pub get_sorted_candidates : Dict ℕ → List Bond
get_sorted_candidates pool = sort_by by_amount (candidates pool)

unfoldable pub get_top_n_candidates : List Bond → ℕ → ℕ → List ℕ
get_top_n_candidates bonds top_n min_stake =
    sort_by leb (map (λ x. x.owner) (take top_n (retain (λ x. leb min_stake x.amount) bonds)))

module _ {L : Type 0} (c : Config L) (s : Storage L) where
  -- Which of the two lists a candidate is pushed to, if to any.
  abbrev pub is_full_candidate : Bond → Bool
  is_full_candidate x = elim (s.candidate_info x.owner) [
    | none ↦ false
    | some state ↦ elim state.tier [
      | TierType.full ↦ leb c.min_full_candidate_stk state.bond
      | TierType.basic ↦ false
      | TierType.all ↦ false
    ]
  ]

  abbrev pub is_basic_candidate : Bond → Bool
  is_basic_candidate x = elim (s.candidate_info x.owner) [
    | none ↦ false
    | some state ↦ elim state.tier [
      | TierType.full ↦ false
      | TierType.basic ↦ leb c.min_basic_candidate_stk state.bond
      | TierType.all ↦ leb c.min_basic_candidate_stk state.bond
    ]
  ]

  unfoldable pub compute_top_candidates : Seats → List ℕ × List ℕ
  compute_top_candidates seats =
      let sorted = get_sorted_candidates s.candidate_pool in
      (
        get_top_n_candidates (retain is_full_candidate sorted) seats.max_full_selected
            seats.min_full_validator_stk,
        get_top_n_candidates (retain is_basic_candidate sorted) seats.max_basic_selected
            seats.min_basic_validator_stk,
      )
