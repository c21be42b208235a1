-- ===== src/Staking/Snapshot/Balance.antt =====
-- How the figures of a snapshot fit together.
use bifrost_node.Prelude.{
  ℕ, ◌+◌, ◌≤◌, ◌<◌, ◌≡◌, refl, ap, Bool, true, false, Option, none, some, List, [], ◌∷◌, get,
  insert, get-insert_eq, Dict, u128_mod, u32_mod, arith,
}
use bifrost_node.Staking.Nominations.{Nominations, count}
use bifrost_node.Staking.Types.{CandidateMetadata}
use bifrost_node.Staking.Storage.{Storage}
use bifrost_node.Staking.Snapshot.{
  TotalSnapshot, empty_snapshot, add_active, add_total, add_candidate, is_selected, sum_candidates,
  refresh_total_snapshot,
}

-- The stake is the self-bonds with the nominations, these are the top with the bottom ones, and the
-- voting power is the self-bonds with the top nominations, in total and for the active validators,
-- whose figures are at most those in total.
pub record IsBalanced (t : TotalSnapshot) : Type 0 where
  pub stake : t.total_stake ≡ t.total_self_bond + t.total_nominations
  pub nominations : t.total_nominations ≡ t.total_top_nominations + t.total_bottom_nominations
  pub nominators : t.total_nominators ≡ t.total_top_nominators + t.total_bottom_nominators
  pub power : t.total_voting_power ≡ t.total_self_bond + t.total_top_nominations
  pub active_stake : t.active_stake ≡ t.active_self_bond + t.active_nominations
  pub active_nominations :
      t.active_nominations ≡ t.active_top_nominations + t.active_bottom_nominations
  pub active_nominators : t.active_nominators ≡ t.active_top_nominators + t.active_bottom_nominators
  pub active_power : t.active_voting_power ≡ t.active_self_bond + t.active_top_nominations
  pub self_le : t.active_self_bond ≤ t.total_self_bond
  pub top_le : t.active_top_nominations ≤ t.total_top_nominations
  pub bottom_le : t.active_bottom_nominations ≤ t.total_bottom_nominations
  pub nominators_le : t.active_nominators ≤ t.total_nominators

abbrev pub stake_of : CandidateMetadata → Nominations → Nominations → ℕ
stake_of state top bottom = state.bond + top.total + bottom.total

-- What one more candidate does, where the sums do not overflow.
record Adds (t u : TotalSnapshot) (stake nominators : ℕ) : Type 0 where
  balanced : IsBalanced u
  more_stake : u.total_stake ≡ t.total_stake + stake
  more_nominators : u.total_nominators ≡ t.total_nominators + nominators

module _ (state : CandidateMetadata) (top bottom : Nominations) where
  add_total-Adds :
      (t : TotalSnapshot)
      → state.voting_power ≡ state.bond + top.total
      → IsBalanced t
      → t.total_stake + stake_of state top bottom < u128_mod
      → t.total_nominators + (count top + count bottom) < u32_mod
      → Adds t (add_total state top bottom t) (stake_of state top bottom) (count top + count bottom)
  unfolding add_total
  add_total-Adds t power h room words = record {
    balanced = record {
      stake = omega arith;
      nominations = omega arith;
      nominators = omega arith;
      power = omega arith;
      active_stake = omega arith;
      active_nominations = omega arith;
      active_nominators = omega arith;
      active_power = omega arith;
      self_le = omega arith;
      top_le = omega arith;
      bottom_le = omega arith;
      nominators_le = omega arith;
    };
    more_stake = omega arith;
    more_nominators = omega arith;
  }

  -- For a validator that is selected, both figures rise.
  add_both-Adds :
      (t : TotalSnapshot)
      → state.voting_power ≡ state.bond + top.total
      → IsBalanced t
      → t.total_stake + stake_of state top bottom < u128_mod
      → t.total_nominators + (count top + count bottom) < u32_mod
      → Adds t
          (add_total state top bottom (add_active state top bottom t))
          (stake_of state top bottom)
          (count top + count bottom)
  unfolding add_total add_active
  add_both-Adds t power h room words = record {
    balanced = record {
      stake = omega arith;
      nominations = omega arith;
      nominators = omega arith;
      power = omega arith;
      active_stake = omega arith;
      active_nominations = omega arith;
      active_nominators = omega arith;
      active_power = omega arith;
      self_le = omega arith;
      top_le = omega arith;
      bottom_le = omega arith;
      nominators_le = omega arith;
    };
    more_stake = omega arith;
    more_nominators = omega arith;
  }

empty-IsBalanced : IsBalanced empty_snapshot
empty-IsBalanced = record {
  stake = omega arith;
  nominations = omega arith;
  nominators = omega arith;
  power = omega arith;
  active_stake = omega arith;
  active_nominations = omega arith;
  active_nominators = omega arith;
  active_power = omega arith;
  self_le = omega arith;
  top_le = omega arith;
  bottom_le = omega arith;
  nominators_le = omega arith;
}

abbrev total_or_zero : Option Nominations → ℕ
total_or_zero none = 0
total_or_zero (some n) = n.total

abbrev count_or_zero : Option Nominations → ℕ
count_or_zero none = 0
count_or_zero (some n) = count n

module _ {L : Type 0} (s : Storage L) where
  -- Both lists of every candidate are stored, and its voting power is its self-bond with the top.
  abbrev pub AreBacked : List (ℕ × CandidateMetadata) → Type 0
  AreBacked [] = Unit
  AreBacked ((owner, state) ∷ rest) =
      ((top : Nominations) × (bottom : Nominations) × (s.top_nominations owner ≡ some top)
        × (s.bottom_nominations owner ≡ some bottom)
        × (state.voting_power ≡ state.bond + top.total))
      × AreBacked rest

  abbrev pub all_stake : List (ℕ × CandidateMetadata) → ℕ
  all_stake [] = 0
  all_stake ((owner, state) ∷ rest) =
      state.bond
      + total_or_zero (s.top_nominations owner)
      + total_or_zero (s.bottom_nominations owner)
      + all_stake rest

  abbrev pub all_nominators : List (ℕ × CandidateMetadata) → ℕ
  all_nominators [] = 0
  all_nominators ((owner, state) ∷ rest) =
      count_or_zero (s.top_nominations owner)
      + count_or_zero (s.bottom_nominations owner)
      + all_nominators rest

  module _ (selected : List ℕ) where
    add_candidate-Adds :
        (b : Bool) (state : CandidateMetadata) (top bottom : Nominations) (t : TotalSnapshot)
        → state.voting_power ≡ state.bond + top.total
        → IsBalanced t
        → t.total_stake + stake_of state top bottom < u128_mod
        → t.total_nominators + (count top + count bottom) < u32_mod
        → Adds t
            (add_candidate b state top bottom t)
            (stake_of state top bottom)
            (count top + count bottom)
    add_candidate-Adds true state top bottom t = add_both-Adds state top bottom t
    add_candidate-Adds false state top bottom t = add_total-Adds state top bottom t

    sum_candidates-IsBalanced :
        (entries : List (ℕ × CandidateMetadata)) (t : TotalSnapshot)
        → AreBacked entries
        → IsBalanced t
        → t.total_stake + all_stake entries < u128_mod
        → t.total_nominators + all_nominators entries < u32_mod
        → (u : TotalSnapshot) × (sum_candidates s selected entries t ≡ some u)
          × IsBalanced u
          × (u.total_stake ≡ t.total_stake + all_stake entries)
    unfolding sum_candidates
    sum_candidates-IsBalanced [] t backed h room words = (t, refl, h, omega arith)
    sum_candidates-IsBalanced ((owner, state) ∷ rest) t
          ((top, bottom, stored_top, stored_bottom, power), backed) h room words =
        let totals = ap total_or_zero stored_top in
        let bottoms = ap total_or_zero stored_bottom in
        let counts = ap count_or_zero stored_top in
        let bottom_counts = ap count_or_zero stored_bottom in
        let next = add_candidate (is_selected s selected owner) state top bottom t in
        let added =
          add_candidate-Adds (is_selected s selected owner) state top bottom t power h (omega arith)
            (omega arith) in
        let (u, e, balanced, stake) =
          sum_candidates-IsBalanced rest next backed added.balanced
            (omega (arith, added.more_stake)) (omega (arith, added.more_nominators)) in
        (
          u,
          rw (stored_top, stored_bottom, sum_candidates) e,
          balanced,
          omega (arith, added.more_stake, stake),
        )

    -- When the lists of all candidates are stored, their voting powers are right and the sums fit,
    -- `refresh_total_snapshot` does not panic; it stores a snapshot whose figures fit together, and
    -- whose total stake is that of all candidates.
    pub refresh_total_snapshot-IsBalanced :
        (now : ℕ) (entries : List (ℕ × CandidateMetadata)) (snapshots : Dict TotalSnapshot)
        → AreBacked entries
        → all_stake entries < u128_mod
        → all_nominators entries < u32_mod
        → (d : Dict TotalSnapshot) × (u : TotalSnapshot) × (refresh_total_snapshot s selected now
              entries snapshots
            ≡ some d)
          × (get now d ≡ some u)
          × IsBalanced u
          × (u.total_stake ≡ all_stake entries)
    unfolding refresh_total_snapshot
    refresh_total_snapshot-IsBalanced now entries snapshots backed room words =
        let (u, e, balanced, stake) =
          sum_candidates-IsBalanced entries empty_snapshot backed empty-IsBalanced
            (omega (arith, room)) (omega (arith, words)) in
        (
          insert now u snapshots,
          u,
          rw (e, refresh_total_snapshot) refl,
          get-insert_eq now u snapshots,
          balanced,
          omega (arith, stake),
        )
