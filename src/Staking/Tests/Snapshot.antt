-- ===== src/Staking/Tests/Snapshot.antt =====
-- The snapshot of one candidate, which is selected.
use bifrost_node.Prelude.{ℕ, ◌<◌, u32_mod, ◌≡◌, refl, some, List, [], ◌∷◌, Dict, get, arith}
use bifrost_node.Staking.Nominations.{count}
use bifrost_node.Staking.Types.{CandidateMetadata}
use bifrost_node.Staking.Snapshot.{TotalSnapshot, refresh_total_snapshot}
use bifrost_node.Staking.Snapshot.Balance.{
  IsBalanced, all_stake, all_nominators, refresh_total_snapshot-IsBalanced,
}
use bifrost_node.Staking.Tests.Fixtures.{candidate, storage, top, bottom}

abbrev entries : List (ℕ × CandidateMetadata)
entries = (7, candidate) ∷ []

few_nominators : all_nominators storage entries < u32_mod
unfolding count
few_nominators = omega arith

refresh_total_snapshot-IsBalanced_example :
    (d : Dict TotalSnapshot) × (u : TotalSnapshot) × (refresh_total_snapshot storage
        (7 ∷ [])
        5
        entries
        []
      ≡ some d)
    × (get 5 d ≡ some u)
    × IsBalanced u
    × (u.total_stake ≡ all_stake storage entries)
refresh_total_snapshot-IsBalanced_example =
    refresh_total_snapshot-IsBalanced storage (7 ∷ []) 5 entries []
      ((top, bottom, refl, refl, refl), tt) (omega arith) few_nominators
