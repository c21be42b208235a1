-- ===== src/Staking/Candidate/Remove/Removal.antt =====
-- About `rm_nomination_if_exists` as a whole.
use bifrost_node.Prelude.{ℕ, ◌≤◌, ◌≡◌, refl, ◌⊎◌, inl, inr, Bool, true, none, some, arith}
use bifrost_node.Staking.Nominations.{Nominations}
use bifrost_node.Staking.Types.{CandidateMetadata}
use bifrost_node.Staking.Storage.{Config, Storage, Result, ok, err, Error, ◌>>=◌}
use bifrost_node.Staking.Candidate.Metadata.{is_capacity_full, last_of}
use bifrost_node.Staking.Candidate.Remove.{
  or_if_dne, rm_top_nomination, rm_bottom_nomination, rm_nomination_if_exists,
}
use bifrost_node.Staking.Candidate.Valid.{HasRoom, IsBacked}
use bifrost_node.Staking.Candidate.Place.{IsNominated, in_top_amount, in_bottom_amount, full_status}
use bifrost_node.Staking.Candidate.Remove.Cases.{
  Removes, rm_bottom_nomination-Removes, rm_top_nomination-Removes,
}

module _ {L : Type 0} (c : Config L) (room : HasRoom c) where
  rm_top_nomination-absent :
      (k o : ℕ) (m : CandidateMetadata) (s : Storage L) (top : Nominations)
      → s.top_nominations k ≡ some top
      → last_of o top.nominations ≡ none
      → rm_top_nomination c k o m s ≡ err Error.nomination_dne
  unfolding rm_top_nomination
  rm_top_nomination-absent k o m s top stored e = rw (stored, ◌>>=◌, e) refl

  -- Which list each test of `rm_nomination_if_exists` can lead to.
  try_top :
      (k o amount : ℕ) (m : CandidateMetadata) (s : Storage L)
      → m.lowest_top_nomination_amount ≤ amount
      → (rm_nomination_if_exists c k o amount m s ≡ rm_top_nomination c k o m s)
        ⊎ (rm_nomination_if_exists c k o amount m s
            ≡ or_if_dne (rm_top_nomination c k o m s) (rm_bottom_nomination c k o m s))
  unfolding rm_nomination_if_exists
  try_top k o amount m s h = ground arith

  try_bottom :
      (k o amount : ℕ) (m : CandidateMetadata) (s : Storage L)
      → is_capacity_full m.top_capacity ≡ true
      → amount ≤ m.highest_bottom_nomination_amount
      → m.highest_bottom_nomination_amount ≤ m.lowest_top_nomination_amount
      → (rm_nomination_if_exists c k o amount m s ≡ rm_bottom_nomination c k o m s)
        ⊎ (rm_nomination_if_exists c k o amount m s
            ≡ or_if_dne (rm_top_nomination c k o m s) (rm_bottom_nomination c k o m s))
  unfolding rm_nomination_if_exists
  try_bottom k o amount m s full h g = ground arith

  Removes-or_if_dne :
      (k o amount : ℕ) (top bottom : Nominations)
      (r r' : Result (Bool × CandidateMetadata × Storage L))
      → Removes c k o amount top bottom r
      → Removes c k o amount top bottom (or_if_dne r r')
  Removes-or_if_dne k o amount top bottom (ok x) r' h = h
  Removes-or_if_dne k o amount top bottom (err e) r' h = elim h [ ]

  -- A nomination that is in one of the lists is found by its amount: the removal succeeds, and
  -- leaves a valid candidate that the nominator backs no more. The others' amounts are as before.
  pub rm_nomination_if_exists-Removes :
      (k o amount : ℕ) (m : CandidateMetadata) (s : Storage L) (top bottom : Nominations)
      → IsBacked c k m s top bottom
      → IsNominated o amount top bottom
      → Removes c k o amount top bottom (rm_nomination_if_exists c k o amount m s)
  rm_nomination_if_exists-Removes k o amount m s top bottom back (inl (b, e, q)) =
      let r = rm_top_nomination-Removes c room k o b m s top bottom back e in
      rw (← q) (elim (try_top k o b.amount m s (in_top_amount c o b top bottom m back.valid e)) [
        | inl h ↦ rw h r
        | inr h ↦ rw h (Removes-or_if_dne k o b.amount top bottom _ _ r)
      ])
  rm_nomination_if_exists-Removes k o amount m s top bottom back (inr (b, e, q)) =
      let r = rm_bottom_nomination-Removes c room k o b m s top bottom back e in
      let (full, low, high, absent) = in_bottom_amount c room o b top bottom m back.valid e in
      rw (← q)
        (elim (try_bottom k o b.amount m s (full_status c room top bottom m back.valid full) low
          high) [
            | inl h ↦ rw h r
            | inr h ↦ rw (h, rm_top_nomination-absent k o m s top back.stored_top absent) r
          ])
