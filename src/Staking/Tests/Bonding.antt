-- ===== src/Staking/Tests/Bonding.antt =====
-- A decrease of the self-bond at concrete inputs.
use bifrost_node.Prelude.{◌≡◌, refl, some, arith}
use bifrost_node.Staking.Types.{CandidateMetadata}
use bifrost_node.Staking.Storage.{Storage, ok}
use bifrost_node.Staking.Candidate.Bonding.{schedule_bond_less, execute_bond_less, cancel_bond_less}
use bifrost_node.Staking.Candidate.Bonding.Delay.{cancel-schedule, HasLowered, execute-schedule}
use bifrost_node.Staking.Tests.Fixtures.{
  Reserved, config, top, bottom, candidate, round, storage, candidate-IsBacked,
}

-- The candidate with a decrease of its bond by 60, due in round 7.
abbrev requested : CandidateMetadata
requested = record candidate { request = some (record { amount = 60; when_executable = 7 }) }

cancel-schedule_example :
    (t : Storage Reserved) × (cancel_bond_less config 7 requested storage ≡ ok (candidate, t))
unfolding schedule_bond_less
cancel-schedule_example = cancel-schedule config 7 60 7 candidate requested storage storage refl

abbrev later : Storage Reserved
later = record storage { round = record round { current_round_index = 7 } }

execute-schedule_example :
    (m : CandidateMetadata) × (t : Storage Reserved) × (execute_bond_less config 70 7 requested
        later
      ≡ ok (m, t))
    × HasLowered config 70 7 60 candidate m later t top bottom
unfolding schedule_bond_less
execute-schedule_example =
    execute-schedule config 70 7 60 7 candidate requested storage later top bottom
      (record {
        stored_top = candidate-IsBacked.stored_top;
        stored_bottom = candidate-IsBacked.stored_bottom;
        valid = candidate-IsBacked.valid;
      })
      refl (omega arith)
