-- ===== src/Staking/Candidate/Remove.antt =====
-- `CandidateMetadata`: `rm_nomination_if_exists` and the two methods that it calls. Each returns
-- the flag of the source, the candidate and the storage.
pub mod Validity
pub mod Cases
pub mod Removal
use bifrost_node.Prelude.{
  ℕ, Bool, true, false, not, some, ◌&&◌, ◌||◌, ◌==◌, leb, if◌then◌else◌, update, sat_sub,
}
use bifrost_node.Staking.Nominations.{Nominations, insert_sorted_greatest_to_least}
use bifrost_node.Staking.Types.{CandidateMetadata}
use bifrost_node.Staking.Storage.{
  Config, Storage, Result, ok, err, Error, ◌>>=◌, ok_or, candidate_dne, nomination_dne,
  bottom_nomination_dne,
}
use bifrost_node.Staking.Candidate.Metadata.{
  is_capacity_full, is_capacity_empty, reset_top_data, reset_bottom_data, take_highest, left,
  last_of,
}

abbrev pub is_nomination_dne : Error → Bool
is_nomination_dne Error.nomination_dne = true
is_nomination_dne _ = false

-- A method is tried, and another in its place if the nomination was not in the list. The first
-- has changed nothing where it fails so.
abbrev pub or_if_dne {ℓ} : {A : Type ℓ} → Result A → Result A → Result A
or_if_dne (ok a) other = ok a
or_if_dne (err e) other = if is_nomination_dne e then other else err e

module _ {L : Type 0} (c : Config L) where
  -- The highest bottom nomination goes up to the top, unless the bottom is empty.
  unfoldable pub bump_up :
      ℕ
      → Nominations
      → CandidateMetadata
      → Storage L
      → Result (Nominations × CandidateMetadata × Storage L)
  bump_up candidate top m s = if is_capacity_empty m.bottom_capacity then ok (top, m, s) else (do
    bottom ← ok_or (s.bottom_nominations candidate) bottom_nomination_dne
    (highest, rest) ← take_highest bottom
    ok (
      insert_sorted_greatest_to_least top highest,
      reset_bottom_data c rest m,
      record s { bottom_nominations = update s.bottom_nominations candidate (some rest) },
    ))

  -- The end of `rm_top_nomination`, from the list, the candidate and the storage so far.
  unfoldable pub store_reduced_top :
      ℕ → ℕ → Nominations × CandidateMetadata × Storage L → Bool × CandidateMetadata × Storage L
  store_reduced_top candidate old_voting_power (top, m, s) =
      let (m', s') = reset_top_data c candidate top m s in
      (
        old_voting_power == m'.voting_power,
        record m' { nomination_count = sat_sub m'.nomination_count 1 },
        record s' { top_nominations = update s'.top_nominations candidate (some top) },
      )

  unfoldable pub rm_top_nomination :
      ℕ → ℕ → CandidateMetadata → Storage L → Result (Bool × CandidateMetadata × Storage L)
  rm_top_nomination candidate nominator m s = do
    top ← ok_or (s.top_nominations candidate) candidate_dne
    actual ← ok_or (last_of nominator top.nominations) nomination_dne
    x ← bump_up candidate (left nominator actual.amount top) m s
    ok (store_reduced_top candidate m.voting_power x)

  unfoldable pub store_reduced_bottom :
      ℕ → Nominations → CandidateMetadata → Storage L → Bool × CandidateMetadata × Storage L
  store_reduced_bottom candidate bottom m s =
      let m' = reset_bottom_data c bottom m in
      (
        false,
        record m' { nomination_count = sat_sub m'.nomination_count 1 },
        record s { bottom_nominations = update s.bottom_nominations candidate (some bottom) },
      )

  unfoldable pub rm_bottom_nomination :
      ℕ → ℕ → CandidateMetadata → Storage L → Result (Bool × CandidateMetadata × Storage L)
  rm_bottom_nomination candidate nominator m s = do
    bottom ← ok_or (s.bottom_nominations candidate) bottom_nomination_dne
    actual ← ok_or (last_of nominator bottom.nominations) nomination_dne
    ok (store_reduced_bottom candidate (left nominator actual.amount bottom) m s)

  unfoldable pub rm_nomination_if_exists :
      ℕ → ℕ → ℕ → CandidateMetadata → Storage L → Result (Bool × CandidateMetadata × Storage L)
  rm_nomination_if_exists candidate nominator amount m s =
      let amount_geq_lowest_top = leb m.lowest_top_nomination_amount amount in
      let top_is_not_full = not (is_capacity_full m.top_capacity) in
      let lowest_top_eq_highest_bottom =
        m.lowest_top_nomination_amount == m.highest_bottom_nomination_amount in
      if top_is_not_full || (amount_geq_lowest_top && not lowest_top_eq_highest_bottom)
      then rm_top_nomination candidate nominator m s
      else if amount_geq_lowest_top && lowest_top_eq_highest_bottom
      then or_if_dne (rm_top_nomination candidate nominator m s)
          (rm_bottom_nomination candidate nominator m s)
      else rm_bottom_nomination candidate nominator m s
