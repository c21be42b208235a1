-- ===== src/Staking/Candidate/Add.antt =====
-- `CandidateMetadata`: `add_nomination` and the two methods that it calls.
pub mod Validity
pub mod Steps
pub mod Backing
pub mod Success
use bifrost_node.Prelude.{
  ℕ, ◌%◌, Bool, true, false, not, Option, none, some, ◌==◌, ltb, if◌then◌else◌, length, update,
  add32, u32_mod,
}
use bifrost_node.Staking.Nominations.{Bond, Nominations, insert_sorted_greatest_to_least}
use bifrost_node.Staking.Types.{CandidateMetadata, NominatorAdded, added_to_top, added_to_bottom}
use bifrost_node.Staking.Storage.{
  Config, Storage, Result, ok, ◌>>=◌, ◌>>◌, ensure, ok_or, deposit_event, nomination_kicked,
  nominator_left, top_nomination_dne, bottom_nomination_dne, nominator_dne,
  cannot_nominate_less_than_lowest_bottom_when_bottom_is_full,
}
use bifrost_node.Staking.Requests.{remove_request}
use bifrost_node.Staking.Nominator.{rm_nomination}
use bifrost_node.Staking.Candidate.Metadata.{
  is_capacity_full, reset_top_data, reset_bottom_data, pop_lowest,
}

module _ {L : Type 0} (c : Config L) where
  -- The part of `add_bottom_nomination` that lets the nominator of the kicked bond go.
  unfoldable pub kick : ℕ → Bond → Storage L → Result (Storage L)
  kick candidate kicked s = do
    nominator_state ← ok_or (s.nominator_state kicked.owner) nominator_dne
    let leaving = length nominator_state.nominations == 1
    let removed = rm_nomination candidate nominator_state
    let state = record removed { requests = remove_request candidate removed.requests }
    let kicked_event = nomination_kicked kicked.owner candidate kicked.amount
    let s' =
        deposit_event kicked_event
          (record s { ledger = c.unreserve kicked.owner kicked.amount s.ledger })
    ok (
        if leaving
        then deposit_event (nominator_left kicked.owner kicked.amount)
            (record s' { nominator_state = update s.nominator_state kicked.owner none })
        else record s' { nominator_state = update s.nominator_state kicked.owner (some state) })

  -- The part behind the kick: count, insert and store.
  unfoldable pub store_bottom :
      Bool → ℕ → Bond → Nominations → CandidateMetadata → Storage L → CandidateMetadata × Storage L
  store_bottom increase_nomination_count candidate nomination bottom m s =
      let counted = record m {
        nomination_count =
            if increase_nomination_count then add32 m.nomination_count 1 else m.nomination_count;
      } in
      let inserted = insert_sorted_greatest_to_least bottom nomination in
      (
        reset_bottom_data c inserted counted,
        record s { bottom_nominations = update s.bottom_nominations candidate (some inserted) },
      )

  unfoldable pub add_bottom_nomination :
      Bool → ℕ → Bond → CandidateMetadata → Storage L → Result (CandidateMetadata × Storage L)
  add_bottom_nomination bumped_from_top candidate nomination m s = do
    bottom ← ok_or (s.bottom_nominations candidate) bottom_nomination_dne
    if length bottom.nominations % u32_mod == c.max_bottom_nominations_per_candidate
        then (do
          (kicked, rest) ← pop_lowest bottom_nomination_dne bottom
          s' ← kick candidate kicked s
          ok (store_bottom false candidate nomination rest m s'))
        else ok (store_bottom (not bumped_from_top) candidate nomination bottom m s)

  -- The part of `add_top_nomination` behind the bump: insert, count and store.
  unfoldable pub store_top :
      Option ℕ
      → ℕ
      → Bond
      → Nominations
      → CandidateMetadata
      → Storage L
      → Option ℕ × CandidateMetadata × Storage L
  store_top less_total_staked candidate nomination top m s =
      let inserted = insert_sorted_greatest_to_least top nomination in
      let (m', s') = reset_top_data c candidate inserted m s in
      (
        less_total_staked,
        record m' {
          nomination_count = elim less_total_staked [
            | none ↦ add32 m.nomination_count 1
            | some less ↦ m.nomination_count
          ];
        },
        record s' { top_nominations = update s'.top_nominations candidate (some inserted) },
      )

  unfoldable pub add_top_nomination :
      ℕ → Bond → CandidateMetadata → Storage L → Result (Option ℕ × CandidateMetadata × Storage L)
  add_top_nomination candidate nomination m s = do
    top ← ok_or (s.top_nominations candidate) top_nomination_dne
    if length top.nominations % u32_mod == c.max_top_nominations_per_candidate
        then (do
          (new_bottom_nomination, rest) ← pop_lowest top_nomination_dne top
          let less_total_staked =
              if is_capacity_full m.bottom_capacity
              then some m.lowest_bottom_nomination_amount
              else none
          (m', s') ← add_bottom_nomination true candidate new_bottom_nomination m s
          ok (store_top less_total_staked candidate nomination rest m' s'))
        else ok (store_top none candidate nomination top m s)

  unfoldable pub add_nomination :
      ℕ
      → Bond
      → CandidateMetadata
      → Storage L
      → Result ((NominatorAdded × Option ℕ) × CandidateMetadata × Storage L)
  add_nomination candidate nomination m s =
      if is_capacity_full m.top_capacity
      then (if ltb m.lowest_top_nomination_amount nomination.amount
          then (do
            (less_total_staked, m', s') ← add_top_nomination candidate nomination m s
            ok ((added_to_top m'.voting_power, less_total_staked), m', s'))
          else (do
            ensure
                (if is_capacity_full m.bottom_capacity
                  then ltb m.lowest_bottom_nomination_amount nomination.amount
                  else true)
                cannot_nominate_less_than_lowest_bottom_when_bottom_is_full
            (m', s') ← add_bottom_nomination false candidate nomination m s
            ok (
              (
                added_to_bottom,
                if is_capacity_full m.bottom_capacity
                    then some m.lowest_bottom_nomination_amount
                    else none,
              ),
              m',
              s',
            )))
      else (do
        (less_total_staked, m', s') ← add_top_nomination candidate nomination m s
        ok ((added_to_top m'.voting_power, none), m', s'))
