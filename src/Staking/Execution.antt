-- ===== src/Staking/Execution.antt =====
-- The methods of `Nominator` that change its candidates too (pallets/bfc-staking/src/lib.rs), and
-- `nominator_leaves_candidate` of the pallet (pallets/bfc-staking/src/pallet/impls.rs).
pub mod Frame
pub mod Agreement
pub mod Raise
pub mod Lower
pub mod Leave
use bifrost_node.Prelude.{
  ℕ, Bool, true, false, none, some, get, insert, remove, update, sat_add, sat_sub, add128, sub128,
  length, ltb, leb, ◌==◌, if◌then◌else◌, not, ◌&&◌, ◌||◌,
}
use bifrost_node.Staking.Types.{
  CandidateMetadata, Nominator, NominationChange, NominationRequest, PendingNominationRequests,
}
use bifrost_node.Staking.Storage.{
  Config, Storage, Result, ok, err, ◌>>=◌, ◌>>◌, ensure, ok_or, now, deposit_event, update_active,
  candidate_dne, nomination_dne, nominator_bond_below_min, nomination_below_min, currency_error,
  pending_nomination_request_dne, pending_nomination_request_not_due_yet, nomination_increased,
  nomination_decreased, nomination_revoked, nominator_left, nominator_left_candidate,
}
use bifrost_node.Staking.Requests.{less_revocation}
use bifrost_node.Staking.Nominator.{rm_nomination}
use bifrost_node.Staking.Candidate.Remove.{rm_nomination_if_exists}
use bifrost_node.Staking.Candidate.Increase
use bifrost_node.Staking.Candidate.Decrease.{decrease_nomination}

-- The nominator with the amount of one nomination set, and a new total.
abbrev pub with_amount : ℕ → ℕ → ℕ → Nominator → Nominator
with_amount candidate amount total n = record n {
  nominations = insert candidate amount n.nominations;
  total = total;
}

-- The nominator without the request that is executed.
abbrev pub without_request : ℕ → NominationRequest → Nominator → Nominator
without_request candidate r n = record n {
  requests = record {
    revocations_count = less_revocation r.action n.requests.revocations_count;
    requests = remove candidate n.requests.requests;
    less_total = sat_sub n.requests.less_total r.amount;
  };
}

-- A changed candidate and nominator go back to the storage, with the total of the pallet.
unfoldable pub put_changed :
    {L : Type 0} → ℕ → CandidateMetadata → Nominator → ℕ → Storage L → Storage L
put_changed candidate state n total s = record s {
  total = total;
  candidate_info = update s.candidate_info candidate (some state);
  nominator_state = update s.nominator_state n.id (some n);
}

module _ {L : Type 0} (c : Config L) where
  unfoldable pub nominator_leaves_candidate : ℕ → ℕ → ℕ → Storage L → Result (Storage L)
  nominator_leaves_candidate candidate nominator amount s = do
    state ← ok_or (s.candidate_info candidate) candidate_dne
    (changed, state', s₁) ← rm_nomination_if_exists c candidate nominator amount state s
    ok (
        deposit_event (nominator_left_candidate nominator candidate amount state'.voting_power)
          (record s₁ {
            ledger = c.unreserve nominator amount s₁.ledger;
            total = sat_sub s₁.total amount;
            candidate_info = update s₁.candidate_info candidate (some state');
          }))

  unfoldable pub increase_nomination :
      ℕ → ℕ → Nominator → Storage L → Result (Nominator × Storage L)
  increase_nomination candidate amount n s = do
    before ← ok_or (get candidate n.nominations) nomination_dne
    let n' = with_amount candidate (add128 before amount) (add128 n.total amount) n
    state ← ok_or (s.candidate_info candidate) candidate_dne
    ledger ← ok_or (c.reserve n.id amount s.ledger) currency_error
    (in_top, state', s₁) ←
        Increase.increase_nomination c candidate n.id before amount state
          (record s { ledger = ledger })
    let s₂ = update_active candidate state'.voting_power s₁
    ok (
      n',
      deposit_event (nomination_increased n.id candidate amount in_top)
          (put_changed candidate state' n' (sat_add s₂.total amount) s₂),
    )

  unfoldable pub execute_revoke :
      ℕ → NominationRequest → Nominator → Storage L → Result (Nominator × Storage L)
  execute_revoke candidate r n s =
      let leaving = length n.nominations == 1 in
      (do
        ensure (leaving || leb r.amount (sub128 n.total c.min_nominator_stk))
            nominator_bond_below_min
        let n' = rm_nomination candidate (without_request candidate r n)
        s₁ ← nominator_leaves_candidate candidate n.id r.amount s
        let s₂ = deposit_event (nomination_revoked n.id candidate r.amount) s₁
        ok (
          n',
          if leaving
              then deposit_event (nominator_left n.id r.amount)
                  (record s₂ { nominator_state = update s₂.nominator_state n.id none })
              else record s₂ { nominator_state = update s₂.nominator_state n.id (some n') },
        ))

  unfoldable pub execute_decrease :
      ℕ → NominationRequest → Nominator → Storage L → Result (Nominator × Storage L)
  execute_decrease candidate r n s = do
    before ← ok_or (get candidate n.nominations) nomination_dne
    ensure (ltb r.amount before) nomination_below_min
    let n' =
        with_amount candidate (sat_sub before r.amount) (sat_sub n.total r.amount)
          (without_request candidate r n)
    ensure (leb c.min_nomination n'.total) nomination_below_min
    ensure (leb c.min_nominator_stk n'.total) nominator_bond_below_min
    state ← ok_or (s.candidate_info candidate) candidate_dne
    (in_top, state', s₁) ←
        decrease_nomination c candidate n.id before r.amount state
          (record s { ledger = c.unreserve n.id r.amount s.ledger })
    ok (
      n',
      deposit_event (nomination_decreased n.id candidate r.amount in_top)
          (put_changed candidate state' n' (sat_sub s₁.total r.amount) s₁),
    )

  unfoldable pub execute_pending_request :
      ℕ → Nominator → Storage L → Result (Nominator × Storage L)
  execute_pending_request candidate n s = do
    r ← ok_or (get candidate n.requests.requests) pending_nomination_request_dne
    ensure (leb r.when_executable (now s)) pending_nomination_request_not_due_yet
    elim r.action [
      | NominationChange.revoke ↦ execute_revoke candidate r n s
      | NominationChange.decrease ↦ execute_decrease candidate r n s
    ]
