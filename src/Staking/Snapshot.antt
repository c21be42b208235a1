-- ===== src/Staking/Snapshot.antt =====
-- `TotalSnapshot` of pallets/bfc-staking/src/lib.rs and `refresh_total_snapshot` of
-- pallets/bfc-staking/src/pallet/impls.rs, which sums the stake of all candidates at each block.
pub mod Balance
use bifrost_node.Prelude.{
  ℕ, Bool, true, false, Option, none, some, List, [], ◌∷◌, if◌then◌else◌, any, ◌==◌, get, insert,
  Dict, sat_add, sat_add32, add128, add32,
}
use bifrost_node.Staking.Nominations.{Nominations, count}
use bifrost_node.Staking.Types.{CandidateMetadata}
use bifrost_node.Staking.Storage.{Storage}

pub record TotalSnapshot : Type 0 where
  pub total_self_bond : ℕ
  pub active_self_bond : ℕ
  pub total_nominations : ℕ
  pub total_top_nominations : ℕ
  pub total_bottom_nominations : ℕ
  pub active_nominations : ℕ
  pub active_top_nominations : ℕ
  pub active_bottom_nominations : ℕ
  pub total_nominators : ℕ
  pub total_top_nominators : ℕ
  pub total_bottom_nominators : ℕ
  pub active_nominators : ℕ
  pub active_top_nominators : ℕ
  pub active_bottom_nominators : ℕ
  pub total_stake : ℕ
  pub active_stake : ℕ
  pub total_voting_power : ℕ
  pub active_voting_power : ℕ

abbrev pub empty_snapshot : TotalSnapshot
empty_snapshot = record {
  total_self_bond = 0;
  active_self_bond = 0;
  total_nominations = 0;
  total_top_nominations = 0;
  total_bottom_nominations = 0;
  active_nominations = 0;
  active_top_nominations = 0;
  active_bottom_nominations = 0;
  total_nominators = 0;
  total_top_nominators = 0;
  total_bottom_nominators = 0;
  active_nominators = 0;
  active_top_nominators = 0;
  active_bottom_nominators = 0;
  total_stake = 0;
  active_stake = 0;
  total_voting_power = 0;
  active_voting_power = 0;
}

abbrev pub increment_total_self_bond : ℕ → TotalSnapshot → TotalSnapshot
increment_total_self_bond x t = record t { total_self_bond = sat_add t.total_self_bond x }

abbrev pub increment_active_self_bond : ℕ → TotalSnapshot → TotalSnapshot
increment_active_self_bond x t = record t { active_self_bond = sat_add t.active_self_bond x }

abbrev pub increment_total_nominations : ℕ → TotalSnapshot → TotalSnapshot
increment_total_nominations x t = record t { total_nominations = sat_add t.total_nominations x }

abbrev pub increment_total_top_nominations : ℕ → TotalSnapshot → TotalSnapshot
increment_total_top_nominations x t = record t {
  total_top_nominations = sat_add t.total_top_nominations x;
}

abbrev pub increment_total_bottom_nominations : ℕ → TotalSnapshot → TotalSnapshot
increment_total_bottom_nominations x t = record t {
  total_bottom_nominations = sat_add t.total_bottom_nominations x;
}

abbrev pub increment_active_nominations : ℕ → TotalSnapshot → TotalSnapshot
increment_active_nominations x t = record t { active_nominations = sat_add t.active_nominations x }

abbrev pub increment_active_top_nominations : ℕ → TotalSnapshot → TotalSnapshot
increment_active_top_nominations x t = record t {
  active_top_nominations = sat_add t.active_top_nominations x;
}

abbrev pub increment_active_bottom_nominations : ℕ → TotalSnapshot → TotalSnapshot
increment_active_bottom_nominations x t = record t {
  active_bottom_nominations = sat_add t.active_bottom_nominations x;
}

abbrev pub increment_total_nominators : ℕ → TotalSnapshot → TotalSnapshot
increment_total_nominators x t = record t { total_nominators = sat_add32 t.total_nominators x }

abbrev pub increment_total_top_nominators : ℕ → TotalSnapshot → TotalSnapshot
increment_total_top_nominators x t = record t {
  total_top_nominators = sat_add32 t.total_top_nominators x;
}

abbrev pub increment_total_bottom_nominators : ℕ → TotalSnapshot → TotalSnapshot
increment_total_bottom_nominators x t = record t {
  total_bottom_nominators = sat_add32 t.total_bottom_nominators x;
}

abbrev pub increment_active_nominators : ℕ → TotalSnapshot → TotalSnapshot
increment_active_nominators x t = record t { active_nominators = sat_add32 t.active_nominators x }

abbrev pub increment_active_top_nominators : ℕ → TotalSnapshot → TotalSnapshot
increment_active_top_nominators x t = record t {
  active_top_nominators = sat_add32 t.active_top_nominators x;
}

abbrev pub increment_active_bottom_nominators : ℕ → TotalSnapshot → TotalSnapshot
increment_active_bottom_nominators x t = record t {
  active_bottom_nominators = sat_add32 t.active_bottom_nominators x;
}

abbrev pub increment_total_stake : ℕ → TotalSnapshot → TotalSnapshot
increment_total_stake x t = record t { total_stake = sat_add t.total_stake x }

abbrev pub increment_active_stake : ℕ → TotalSnapshot → TotalSnapshot
increment_active_stake x t = record t { active_stake = sat_add t.active_stake x }

abbrev pub increment_total_voting_power : ℕ → TotalSnapshot → TotalSnapshot
increment_total_voting_power x t = record t { total_voting_power = sat_add t.total_voting_power x }

abbrev pub increment_active_voting_power : ℕ → TotalSnapshot → TotalSnapshot
increment_active_voting_power x t = record t {
  active_voting_power = sat_add t.active_voting_power x;
}

unfoldable pub add_active :
    CandidateMetadata → Nominations → Nominations → TotalSnapshot → TotalSnapshot
add_active state top bottom t =
    let t1 = increment_active_self_bond state.bond t in
    let t2 = increment_active_nominations (add128 top.total bottom.total) t1 in
    let t3 = increment_active_top_nominations top.total t2 in
    let t4 = increment_active_bottom_nominations bottom.total t3 in
    let t5 = increment_active_nominators (add32 (count top) (count bottom)) t4 in
    let t6 = increment_active_top_nominators (count top) t5 in
    let t7 = increment_active_bottom_nominators (count bottom) t6 in
    let t8 = increment_active_stake (add128 (add128 state.bond top.total) bottom.total) t7 in
    let t9 = increment_active_voting_power state.voting_power t8 in t9

unfoldable pub add_total :
    CandidateMetadata → Nominations → Nominations → TotalSnapshot → TotalSnapshot
add_total state top bottom t =
    let t1 = increment_total_self_bond state.bond t in
    let t2 = increment_total_nominations (add128 top.total bottom.total) t1 in
    let t3 = increment_total_top_nominations top.total t2 in
    let t4 = increment_total_bottom_nominations bottom.total t3 in
    let t5 = increment_total_nominators (add32 (count top) (count bottom)) t4 in
    let t6 = increment_total_top_nominators (count top) t5 in
    let t7 = increment_total_bottom_nominators (count bottom) t6 in
    let t8 = increment_total_stake (add128 (add128 state.bond top.total) bottom.total) t7 in
    let t9 = increment_total_voting_power state.voting_power t8 in t9

-- One candidate; the active figures count those that are selected.
abbrev pub add_candidate :
    Bool → CandidateMetadata → Nominations → Nominations → TotalSnapshot → TotalSnapshot
add_candidate selected state top bottom t =
    let counted = if selected then add_active state top bottom t else t in
    add_total state top bottom counted

module _ {L : Type 0} (s : Storage L) (selected : List ℕ) where
  abbrev pub is_selected : ℕ → Bool
  is_selected owner = any (λ v. v == owner) selected

  -- The loop over `CandidateInfo::iter()`; `none` is the panic of an `expect`.
  unfoldable pub sum_candidates :
      List (ℕ × CandidateMetadata) → TotalSnapshot → Option TotalSnapshot
  sum_candidates [] t = some t
  sum_candidates ((owner, state) ∷ rest) t = elim (s.top_nominations owner) [
    | none ↦ none
    | some top ↦ elim (s.bottom_nominations owner) [
      | none ↦ none
      | some bottom ↦ sum_candidates rest (add_candidate (is_selected owner) state top bottom t)
    ]
  ]

  -- The snapshot that is stored for the round.
  unfoldable pub refresh_total_snapshot :
      ℕ → List (ℕ × CandidateMetadata) → Dict TotalSnapshot → Option (Dict TotalSnapshot)
  refresh_total_snapshot now candidate_info snapshots =
      elim (sum_candidates candidate_info empty_snapshot) [
        | none ↦ none
        | some t ↦ some (insert now t snapshots)
      ]
