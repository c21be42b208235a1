-- ===== src/Staking/Requests.antt =====
-- pallets/bfc-staking/src/lib.rs: `PendingNominationRequests`, the scheduled decreases and
-- revocations of a nominator.
pub mod Sums
use bifrost_node.Prelude.{
  ℕ, Bool, true, false, not, Option, none, some, [], Dict, get, insert, remove, contains_key,
  sat_sub, add32, add128, if◌then◌else◌,
}
use bifrost_node.Staking.Types.{NominationChange, NominationRequest, PendingNominationRequests}
use bifrost_node.Staking.Storage.{
  Result, ok, err, ◌>>=◌, ◌>>◌, ensure, pending_nomination_request_already_exists,
  pending_nomination_request_dne, ok_or,
}

abbrev pub no_requests : PendingNominationRequests
no_requests = record { revocations_count = 0; requests = []; less_total = 0 }

abbrev pub less_revocation : NominationChange → ℕ → ℕ
less_revocation NominationChange.revoke n = sat_sub n 1
less_revocation NominationChange.decrease n = n

unfoldable pub remove_request : ℕ → PendingNominationRequests → PendingNominationRequests
remove_request address p = elim (get address p.requests) [
  | none ↦ p
  | some r ↦ record {
    revocations_count = less_revocation r.action p.revocations_count;
    requests = remove address p.requests;
    less_total = sat_sub p.less_total r.amount;
  }
]

unfoldable pub bond_less : ℕ → ℕ → ℕ → PendingNominationRequests → Result PendingNominationRequests
bond_less validator amount when p = do
  ensure (not (contains_key validator p.requests)) pending_nomination_request_already_exists
  ok (record p {
    requests =
        insert validator
          (record {
            validator = validator;
            amount = amount;
            when_executable = when;
            action = NominationChange.decrease;
          })
          p.requests;
    less_total = add128 p.less_total amount;
  })

unfoldable pub revoke : ℕ → ℕ → ℕ → PendingNominationRequests → Result PendingNominationRequests
revoke validator amount when p = do
  ensure (not (contains_key validator p.requests)) pending_nomination_request_already_exists
  ok (record {
    revocations_count = add32 p.revocations_count 1;
    requests =
        insert validator
          (record {
            validator = validator;
            amount = amount;
            when_executable = when;
            action = NominationChange.revoke;
          })
          p.requests;
    less_total = add128 p.less_total amount;
  })

-- `Nominator::cancel_pending_request`, on the requests that it changes.
unfoldable pub cancel :
    ℕ → PendingNominationRequests → Result (NominationRequest × PendingNominationRequests)
cancel candidate p = do
  order ← ok_or (get candidate p.requests) pending_nomination_request_dne
  ok (
    order,
    record {
      revocations_count = less_revocation order.action p.revocations_count;
      requests = remove candidate p.requests;
      less_total = sat_sub p.less_total order.amount;
    },
  )
