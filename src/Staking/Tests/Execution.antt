-- ===== src/Staking/Tests/Execution.antt =====
-- The methods that change a nominator and its candidate at concrete inputs.
use bifrost_node.Prelude.{◌≡◌, refl, inl, inr, [], ◌∷◌, arith, update}
use bifrost_node.Staking.Types.{Nominator, NominationChange, NominationRequest}
use bifrost_node.Staking.Storage.{Storage, ok}
use bifrost_node.Staking.Candidate.Metadata.{last_of}
use bifrost_node.Staking.Execution.{
  increase_nomination, execute_pending_request, nominator_leaves_candidate,
}
use bifrost_node.Staking.Execution.Agreement.{IsServed, IsSettled}
use bifrost_node.Staking.Execution.Raise.{increase_nomination-IsSettled}
use bifrost_node.Staking.Execution.Lower.{execute_pending_request-IsSettled}
use bifrost_node.Staking.Execution.Leave.{HasLeft, nominator_leaves_candidate-HasLeft}
use bifrost_node.Staking.Tests.Fixtures.{
  Reserved, config, bond, top, bottom, candidate, storage, nominator, config-HasRoom,
  candidate-IsBacked,
}

thirteenth-IsServed : IsServed config 7 10 (nominator 13 10) storage
unfolding last_of
thirteenth-IsServed = record {
  m = candidate;
  top = top;
  bottom = bottom;
  info = refl;
  back = candidate-IsBacked;
  noted = refl;
  nominated = inr (bond 13 10, refl, refl);
}

-- Nominator 13 adds 15 to the 10 that it has in the bottom.
increase_nomination-IsSettled_example :
    (n' : Nominator) × (s' : Storage Reserved) × (increase_nomination config 7 15
        (nominator 13 10)
        storage
      ≡ ok (n', s'))
    × IsSettled config 7 25 25 275 (update (λ k. 0) 13 15) n' s'
unfolding thirteenth-IsServed
increase_nomination-IsSettled_example =
    increase_nomination-IsSettled config config-HasRoom 7 10 15 (nominator 13 10)
      (update (λ k. 0) 13 15) storage thirteenth-IsServed refl (omega arith) (omega arith)

abbrev reduction : NominationRequest
reduction = record {
  validator = 7;
  amount = 14;
  when_executable = 5;
  action = NominationChange.decrease;
}

-- Nominator 12 with a decrease by 14 that is due in this round.
abbrev reducing : Nominator
reducing = record (nominator 12 20) {
  requests = record { revocations_count = 0; requests = (7, reduction) ∷ []; less_total = 14 };
}

twelfth-IsServed : IsServed config 7 20 reducing storage
unfolding last_of
twelfth-IsServed = record {
  m = candidate;
  top = top;
  bottom = bottom;
  info = refl;
  back = candidate-IsBacked;
  noted = refl;
  nominated = inl (bond 12 20, refl, refl);
}

execute_pending_request-IsSettled_example :
    (n' : Nominator) × (s' : Storage Reserved) × (execute_pending_request config 7 reducing storage
      ≡ ok (n', s'))
    × IsSettled config 7 6 6 246 (update (λ k. 0) 12 0) n' s'
execute_pending_request-IsSettled_example =
    execute_pending_request-IsSettled config config-HasRoom 7 20 reduction reducing storage
      twelfth-IsServed refl refl (omega arith) (omega arith) (omega arith) (omega arith)

nominator_leaves_candidate-HasLeft_example :
    (s' : Storage Reserved) × (nominator_leaves_candidate config 7 12 20 storage ≡ ok s')
    × HasLeft config 7 12 20 top bottom storage s'
unfolding last_of
nominator_leaves_candidate-HasLeft_example =
    nominator_leaves_candidate-HasLeft config config-HasRoom 7 12 20 candidate storage top bottom
      refl candidate-IsBacked (inl (bond 12 20, refl, refl))
