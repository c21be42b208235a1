-- ===== src/Staking/Candidate/Bonding.antt =====
-- `CandidateMetadata`: the self-bond and the request to lower it.
pub mod Delay
use bifrost_node.Prelude.{
  ℕ, ◌+◌, ◌%◌, none, some, ltb, leb, if◌then◌else◌, u32_mod, sat_add, sat_sub, sub128,
}
use bifrost_node.Staking.Types.{CandidateMetadata, is_full}
use bifrost_node.Staking.Storage.{
  Config, Storage, Result, ok, ◌>>=◌, ◌>>◌, ensure, ok_or, now, deposit_event, update_active,
  candidate_bonded_more, candidate_bonded_less, cancelled_candidate_bond_less, currency_error,
  candidate_bond_below_min, pending_candidate_request_already_exists,
  pending_candidate_requests_dne, pending_candidate_request_not_due_yet,
}
use bifrost_node.Staking.Candidate.Status.{is_none}

module _ {L : Type 0} (c : Config L) where
  unfoldable pub bond_more :
      ℕ → ℕ → ℕ → CandidateMetadata → Storage L → Result (CandidateMetadata × Storage L)
  bond_more stash controller more m s = do
    ledger ← ok_or (c.reserve stash more s.ledger) currency_error
    let m' = record m { bond = sat_add m.bond more; voting_power = sat_add m.voting_power more }
    ok (
      m',
      deposit_event (candidate_bonded_more controller more m'.bond)
          (record s { ledger = ledger; total = sat_add s.total more }),
    )

  abbrev pub min_stk : CandidateMetadata → ℕ
  min_stk m = if is_full m.tier then c.min_full_candidate_stk else c.min_basic_candidate_stk

  unfoldable pub schedule_bond_less :
      ℕ → CandidateMetadata → Storage L → Result (ℕ × CandidateMetadata)
  schedule_bond_less less m s = do
    ensure (is_none m.request) pending_candidate_request_already_exists
    ensure (ltb less m.bond) candidate_bond_below_min
    ensure (leb (min_stk m) (sub128 m.bond less)) candidate_bond_below_min
    let when_executable = (now s + c.candidate_bond_less_delay) % u32_mod
    ok (
      when_executable,
      record m { request = some (record { amount = less; when_executable = when_executable }) },
    )

  unfoldable pub execute_bond_less :
      ℕ → ℕ → CandidateMetadata → Storage L → Result (CandidateMetadata × Storage L)
  execute_bond_less stash controller m s = do
    request ← ok_or m.request pending_candidate_requests_dne
    ensure (leb request.when_executable (now s)) pending_candidate_request_not_due_yet
    let m' = record m {
      bond = sat_sub m.bond request.amount;
      voting_power = sat_sub m.voting_power request.amount;
      request = none;
    }
    ok (
      m',
      deposit_event (candidate_bonded_less controller request.amount m'.bond) (
          update_active controller m'.voting_power (record s {
            ledger = c.unreserve stash request.amount s.ledger;
            total = sat_sub s.total request.amount;
          })),
    )

  unfoldable pub cancel_bond_less :
      ℕ → CandidateMetadata → Storage L → Result (CandidateMetadata × Storage L)
  cancel_bond_less who m s = do
    request ← ok_or m.request pending_candidate_requests_dne
    ok (
      record m { request = none },
      deposit_event (cancelled_candidate_bond_less who request.amount request.when_executable) s,
    )
