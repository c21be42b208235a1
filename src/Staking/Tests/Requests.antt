-- ===== src/Staking/Tests/Requests.antt =====
-- Pending requests at concrete inputs.
use bifrost_node.Prelude.{◌≡◌, refl, [], ◌∷◌, arith}
use bifrost_node.Staking.Types.{NominationChange, NominationRequest, PendingNominationRequests}
use bifrost_node.Staking.Storage.{ok}
use bifrost_node.Staking.Requests.{bond_less, revoke, cancel, remove_request}
use bifrost_node.Staking.Requests.Sums.{
  IsConsistent, remove_request-IsConsistent, bond_less-IsConsistent, revoke-IsConsistent,
  cancel-IsConsistent, cancel-revoke,
}

abbrev revocation : NominationRequest
revocation = record {
  validator = 7;
  amount = 30;
  when_executable = 9;
  action = NominationChange.revoke;
}

abbrev reduction : NominationRequest
reduction = record {
  validator = 8;
  amount = 4;
  when_executable = 9;
  action = NominationChange.decrease;
}

abbrev one_pending : PendingNominationRequests
one_pending = record { revocations_count = 0; requests = (8, reduction) ∷ []; less_total = 4 }

abbrev two_pending : PendingNominationRequests
two_pending = record {
  revocations_count = 1;
  requests = (8, reduction) ∷ (7, revocation) ∷ [];
  less_total = 34;
}

abbrev only_revocation : PendingNominationRequests
only_revocation = record { revocations_count = 1; requests = (7, revocation) ∷ []; less_total = 30 }

revoke-IsConsistent_example : IsConsistent two_pending
unfolding revoke
revoke-IsConsistent_example =
    revoke-IsConsistent 7 30 9 one_pending two_pending (omega arith) (omega arith) (omega arith)
      refl

bond_less-IsConsistent_example : IsConsistent one_pending
unfolding bond_less
bond_less-IsConsistent_example =
    bond_less-IsConsistent 8 4 9 (record { revocations_count = 0; requests = []; less_total = 0 })
      one_pending (omega arith) (omega arith) refl

remove_request-IsConsistent_example : IsConsistent (remove_request 8 two_pending)
remove_request-IsConsistent_example = remove_request-IsConsistent 8 two_pending (omega arith)

cancel-IsConsistent_example : IsConsistent only_revocation
unfolding cancel
cancel-IsConsistent_example =
    cancel-IsConsistent 8 two_pending only_revocation reduction (omega arith) refl

cancel-revoke_example : cancel 7 two_pending ≡ ok (revocation, one_pending)
unfolding revoke
cancel-revoke_example =
    cancel-revoke 7 30 9 one_pending two_pending (omega arith) (omega arith) refl
