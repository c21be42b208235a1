-- ===== src/Staking/Candidate/Decrease.antt =====
-- `CandidateMetadata`: `decrease_nomination` and the two methods that it calls. Each returns
-- whether the nomination is in the top afterwards, the candidate and the storage.
pub mod Validity
pub mod Stakes
pub mod Lowering
pub mod Total
use bifrost_node.Prelude.{
  ℕ, List, [], ◌∷◌, some, Bool, true, false, not, ◌&&◌, ◌==◌, leb, ltb, if◌then◌else◌, update,
  sat_sub,
}
use bifrost_node.Staking.Nominations.{
  Bond, Nominations, insert_sorted_greatest_to_least, sort_greatest_to_least,
}
use bifrost_node.Staking.Types.{CandidateMetadata}
use bifrost_node.Staking.Storage.{
  Config, Storage, Result, ok, ◌>>=◌, ◌>>◌, ensure, ok_or, candidate_dne, nomination_dne,
  bottom_nomination_dne,
}
use bifrost_node.Staking.Candidate.Metadata.{
  is_capacity_full, is_capacity_empty, put_top, put_bottom, lowered, take_highest, without, last_of,
  change_amount, occurs,
}
use bifrost_node.Staking.Candidate.Remove.{or_if_dne}

-- The closure of the filter lowers the total by each bond that it drops.
unfoldable pub lower_total : ℕ → List Bond → ℕ → ℕ
lower_total nominator [] total = total
lower_total nominator (b ∷ bs) total =
    lower_total nominator bs (if b.owner == nominator then sat_sub total b.amount else total)

-- The list without the nominator, with the total that the filter leaves.
abbrev pub filtered : ℕ → Nominations → Nominations
filtered nominator n = record {
  nominations = without nominator n.nominations;
  total = lower_total nominator n.nominations n.total;
}

abbrev pub decreased : ℕ → ℕ → Nominations → Nominations
decreased nominator less n = sort_greatest_to_least (record {
  nominations = change_amount nominator (lowered less) n.nominations;
  total = sat_sub n.total less;
})

abbrev pub decreased_at_old_total : ℕ → ℕ → Nominations → Nominations
decreased_at_old_total nominator less n =
    sort_greatest_to_least
      (record n { nominations = change_amount nominator (lowered less) n.nominations })

module _ {L : Type 0} (c : Config L) where
  unfoldable pub store_swapped :
      ℕ
      → Nominations
      → Nominations
      → CandidateMetadata
      → Storage L
      → Bool × CandidateMetadata × Storage L
  store_swapped candidate top bottom m s =
      let (flag, m', s') = put_bottom c false candidate bottom m s in
      put_top c flag candidate top m' s'

  -- The nomination changes places with the highest bottom nomination.
  unfoldable pub swap_down :
      ℕ
      → ℕ
      → ℕ
      → Nominations
      → CandidateMetadata
      → Storage L
      → Result (Bool × CandidateMetadata × Storage L)
  swap_down candidate nominator less top m s = do
    actual ← ok_or (last_of nominator top.nominations) nomination_dne
    bottom ← ok_or (s.bottom_nominations candidate) bottom_nomination_dne
    (highest, rest) ← take_highest bottom
    let reduced = record actual { amount = sat_sub actual.amount less }
    let top' = insert_sorted_greatest_to_least (filtered nominator top) highest
    ok (store_swapped candidate top' (insert_sorted_greatest_to_least rest reduced) m s)

  unfoldable pub decrease_top_nomination :
      ℕ → ℕ → ℕ → ℕ → CandidateMetadata → Storage L → Result (Bool × CandidateMetadata × Storage L)
  decrease_top_nomination candidate nominator bond less m s =
      let bond_after_less_than_highest_bottom =
        ltb (sat_sub bond less) m.highest_bottom_nomination_amount in
      let full_top_and_nonempty_bottom =
        is_capacity_full m.top_capacity && not (is_capacity_empty m.bottom_capacity) in
      (do
        top ← ok_or (s.top_nominations candidate) candidate_dne
        if bond_after_less_than_highest_bottom && full_top_and_nonempty_bottom
            then swap_down candidate nominator less top m s
            else (do
              ensure (occurs nominator top.nominations) nomination_dne
              ok (put_top c true candidate (decreased nominator less top) m s)))

  -- The source does not lower the total of the bottom here.
  unfoldable pub decrease_bottom_nomination :
      ℕ → ℕ → ℕ → CandidateMetadata → Storage L → Result (Bool × CandidateMetadata × Storage L)
  decrease_bottom_nomination candidate nominator less m s = do
    bottom ← ok_or (s.bottom_nominations candidate) bottom_nomination_dne
    ensure (occurs nominator bottom.nominations) nomination_dne
    ok (put_bottom c false candidate (decreased_at_old_total nominator less bottom) m s)

  unfoldable pub decrease_nomination :
      ℕ → ℕ → ℕ → ℕ → CandidateMetadata → Storage L → Result (Bool × CandidateMetadata × Storage L)
  decrease_nomination candidate nominator bond less m s =
      let lowest_top_eq_highest_bottom =
        m.lowest_top_nomination_amount == m.highest_bottom_nomination_amount in
      let bond_geq_lowest_top = leb m.lowest_top_nomination_amount bond in
      if bond_geq_lowest_top && not lowest_top_eq_highest_bottom
      then decrease_top_nomination candidate nominator bond less m s
      else if bond_geq_lowest_top && lowest_top_eq_highest_bottom
      then or_if_dne (decrease_top_nomination candidate nominator bond less m s)
          (decrease_bottom_nomination candidate nominator less m s)
      else decrease_bottom_nomination candidate nominator less m s
