-- ===== src/Staking/Candidate/Increase.antt =====
-- `CandidateMetadata`: `increase_nomination` and the two methods that it calls. Each returns
-- whether the nomination is in the top afterwards, the candidate and the storage.
pub mod Validity
pub mod Stakes
pub mod Raising
use bifrost_node.Prelude.{
  ℕ, some, Bool, true, false, not, ◌&&◌, ◌==◌, leb, ltb, if◌then◌else◌, update, sat_add,
}
use bifrost_node.Staking.Nominations.{
  Nominations, insert_sorted_greatest_to_least, sort_greatest_to_least, top_capacity,
}
use bifrost_node.Staking.Types.{CandidateMetadata}
use bifrost_node.Staking.Storage.{
  Config, Storage, Result, ok, ◌>>=◌, ◌>>◌, ensure, ok_or, candidate_dne, nomination_dne,
  top_nomination_dne,
}
use bifrost_node.Staking.Candidate.Metadata.{
  is_capacity_full, put_top, put_bottom, added, pop_lowest, left, last_of, change_amount, occurs,
}
use bifrost_node.Staking.Candidate.Remove.{or_if_dne}

-- The list with the nominator's bond raised, its total too, sorted anew.
abbrev pub increased : ℕ → ℕ → Nominations → Nominations
increased nominator more n = sort_greatest_to_least (record {
  nominations = change_amount nominator (added more) n.nominations;
  total = sat_add n.total more;
})

module _ {L : Type 0} (c : Config L) where
  unfoldable pub increase_top_nomination :
      ℕ → ℕ → ℕ → CandidateMetadata → Storage L → Result (Bool × CandidateMetadata × Storage L)
  increase_top_nomination candidate nominator more m s = do
    top ← ok_or (s.top_nominations candidate) top_nomination_dne
    ensure (occurs nominator top.nominations) nomination_dne
    ok (put_top c true candidate (increased nominator more top) m s)

  -- The lowest top nomination goes down to the bottom, if the top is full.
  unfoldable pub bump_down : Nominations → Nominations → Result (Nominations × Nominations)
  bump_down top bottom =
      if is_capacity_full (top_capacity c.max_top_nominations_per_candidate top)
      then (do
        (new_bottom_nomination, rest) ← pop_lowest top_nomination_dne top
        ok (rest, insert_sorted_greatest_to_least bottom new_bottom_nomination))
      else ok (top, bottom)

  unfoldable pub store_raised :
      ℕ
      → Nominations
      → Nominations
      → CandidateMetadata
      → Storage L
      → Bool × CandidateMetadata × Storage L
  store_raised candidate top bottom m s =
      let (flag, m', s') = put_top c true candidate top m s in
      put_bottom c flag candidate bottom m' s'

  unfoldable pub increase_bottom_nomination :
      ℕ → ℕ → ℕ → ℕ → CandidateMetadata → Storage L → Result (Bool × CandidateMetadata × Storage L)
  increase_bottom_nomination candidate nominator bond more m s = do
    bottom ← ok_or (s.bottom_nominations candidate) candidate_dne
    if ltb m.lowest_top_nomination_amount (sat_add bond more)
        then (do
          actual ← ok_or (last_of nominator bottom.nominations) nomination_dne
          top ← ok_or (s.top_nominations candidate) top_nomination_dne
          (top₁, bottom₁) ← bump_down top (left nominator bond bottom)
          let raised = record actual { amount = sat_add actual.amount more }
          ok (store_raised candidate (insert_sorted_greatest_to_least top₁ raised) bottom₁ m s))
        else (do
          ensure (occurs nominator bottom.nominations) nomination_dne
          ok (put_bottom c false candidate (increased nominator more bottom) m s))

  unfoldable pub increase_nomination :
      ℕ → ℕ → ℕ → ℕ → CandidateMetadata → Storage L → Result (Bool × CandidateMetadata × Storage L)
  increase_nomination candidate nominator bond more m s =
      let lowest_top_eq_highest_bottom =
        m.lowest_top_nomination_amount == m.highest_bottom_nomination_amount in
      let bond_geq_lowest_top = leb m.lowest_top_nomination_amount bond in
      if bond_geq_lowest_top && not lowest_top_eq_highest_bottom
      then increase_top_nomination candidate nominator more m s
      else if bond_geq_lowest_top && lowest_top_eq_highest_bottom
      then or_if_dne (increase_top_nomination candidate nominator more m s)
          (increase_bottom_nomination candidate nominator bond more m s)
      else increase_bottom_nomination candidate nominator bond more m s
