-- ===== src/Staking/Tests/Candidate.antt =====
-- A candidate's nominations at concrete inputs.
use bifrost_node.Prelude.{ℕ, Option, ◌≡◌, ◌+◌, false, some, refl, inl, inr, arith}
use bifrost_node.Staking.Nominations.{Nominations}
use bifrost_node.Staking.Nominations.Order.{sum}
use bifrost_node.Staking.Types.{CandidateMetadata, NominatorAdded}
use bifrost_node.Staking.Storage.{Storage, ok}
use bifrost_node.Staking.Candidate.Metadata.{last_of}
use bifrost_node.Staking.Candidate.Add.{add_nomination}
use bifrost_node.Staking.Candidate.Add.Success.{IsKickable, add_nomination-Outcome}
use bifrost_node.Staking.Candidate.Remove.{rm_nomination_if_exists}
use bifrost_node.Staking.Candidate.Remove.Cases.{Removes}
use bifrost_node.Staking.Candidate.Remove.Removal.{rm_nomination_if_exists-Removes}
use bifrost_node.Staking.Candidate.Restaked.{Restakes}
use bifrost_node.Staking.Candidate.Increase.{increase_nomination}
use bifrost_node.Staking.Candidate.Increase.Raising.{increase_nomination-Restakes}
use bifrost_node.Staking.Candidate.Decrease.{decrease_nomination, decrease_bottom_nomination}
use bifrost_node.Staking.Candidate.Decrease.Lowering.{decrease_nomination-Restakes}
use bifrost_node.Staking.Candidate.Decrease.Total.{decrease_bottom_nomination-total}
use bifrost_node.Staking.Candidate.Valid.{Outcome}
use bifrost_node.Staking.Tests.Fixtures.{
  Reserved, config, bond, top, bottom, candidate, storage, nominator, config-HasRoom,
  candidate-IsBacked,
}

bottom-IsKickable : IsKickable bottom storage
bottom-IsKickable l e = (nominator 13 10, ground arith)

-- The lowest top nomination goes down for the new one.
add_nomination-Outcome_example :
    (x : NominatorAdded × Option ℕ) × (m' : CandidateMetadata) × (s' : Storage Reserved)
    × (add_nomination config 7 (bond 14 25) candidate storage ≡ ok (x, m', s'))
    × Outcome config 7 m' s'
add_nomination-Outcome_example =
    add_nomination-Outcome config config-HasRoom 7 (bond 14 25) candidate storage top bottom
      candidate-IsBacked (omega arith) (omega arith) bottom-IsKickable (inl (omega arith))

rm_nomination_if_exists-Removes_example :
    Removes config 7 12 20 top bottom (rm_nomination_if_exists config 7 12 20 candidate storage)
unfolding last_of
rm_nomination_if_exists-Removes_example =
    rm_nomination_if_exists-Removes config config-HasRoom 7 12 20 candidate storage top bottom
      candidate-IsBacked (inl (bond 12 20, refl, refl))

-- Nominator 13 goes from the bottom to the top, and 12 takes its place.
increase_nomination-Restakes_example :
    Restakes config 7 13 25 top bottom (increase_nomination config 7 13 10 15 candidate storage)
unfolding last_of
increase_nomination-Restakes_example =
    increase_nomination-Restakes config config-HasRoom 7 13 10 15 candidate storage top bottom
      candidate-IsBacked (inr (bond 13 10, refl, refl)) (omega arith)

-- Nominator 12 goes from the top to the bottom, and 13 takes its place.
decrease_nomination-Restakes_example :
    Restakes config 7 12 6 top bottom (decrease_nomination config 7 12 20 14 candidate storage)
unfolding last_of
decrease_nomination-Restakes_example =
    decrease_nomination-Restakes config config-HasRoom 7 12 20 14 candidate storage top bottom
      candidate-IsBacked (inl (bond 12 20, refl, refl)) (omega arith)

decrease_bottom_nomination-total_example :
    (m' : CandidateMetadata) × (s' : Storage Reserved) × (bottom' : Nominations)
    × (decrease_bottom_nomination config 7 13 4 candidate storage ≡ ok (false, m', s'))
    × (s'.bottom_nominations 7 ≡ some bottom')
    × (sum bottom'.nominations + 4 ≡ sum bottom.nominations)
    × (bottom'.total ≡ bottom.total)
unfolding last_of
decrease_bottom_nomination-total_example =
    decrease_bottom_nomination-total config 7 13 4 (bond 13 10) candidate storage bottom refl
      (omega arith) refl (omega arith)
