-- ===== src/Staking/Candidate/Decrease/Lowering.antt =====
-- About `decrease_nomination` as a whole.
use bifrost_node.Prelude.{
  ℕ, ◌-◌, ◌≤◌, ◌≡◌, refl, ◌⊎◌, inl, inr, Bool, true, false, none, some, ◌&&◌, not, arith, first?,
  ltb, Bool-cases, sat_sub,
}
use bifrost_node.Staking.Nominations.{
  Bond, Nominations, insert_sorted_greatest_to_least, highest_nomination_amount,
}
use bifrost_node.Staking.Nominations.Bounds.{first?-some}
use bifrost_node.Staking.Nominations.Part.{without_first}
use bifrost_node.Staking.Types.{CandidateMetadata}
use bifrost_node.Staking.Storage.{Config, Storage, ok, err, Error, ◌>>=◌}
use bifrost_node.Staking.Candidate.Metadata.{
  is_capacity_full, is_capacity_empty, take_highest, last_of, put_top, put_bottom,
}
use bifrost_node.Staking.Candidate.Selection.{last_of-occurs, occurs_absent}
use bifrost_node.Staking.Candidate.Restaked.{
  Restakes, Restakes-or_if_dne, Restakes-put_top, Restakes-put_bottom, Restakes-store_swapped,
}
use bifrost_node.Staking.Candidate.Remove.{or_if_dne}
use bifrost_node.Staking.Candidate.Decrease.{
  filtered, decreased, decreased_at_old_total, store_swapped, swap_down, decrease_top_nomination,
  decrease_bottom_nomination, decrease_nomination,
}
use bifrost_node.Staking.Candidate.Decrease.Stakes.{
  restake_in_top, restake_in_bottom, restake_to_bottom,
}
use bifrost_node.Staking.Candidate.Decrease.Validity.{
  lower_in_top, lower_in_bottom, lower_to_bottom,
}
use bifrost_node.Staking.Candidate.Place.{IsNominated, in_top_amount, in_bottom_amount}
use bifrost_node.Staking.Candidate.Valid.{
  HasRoom, IsBacked, bottom_capacity-status, top_capacity-status,
}

-- The test of `decrease_top_nomination`.
abbrev falls_behind : ℕ → ℕ → CandidateMetadata → Bool
falls_behind bond less m =
    ltb (sat_sub bond less) m.highest_bottom_nomination_amount
    && (is_capacity_full m.top_capacity && not (is_capacity_empty m.bottom_capacity))

module _ {L : Type 0} (c : Config L) where
  decrease_top_nomination-stays :
      (k o less : ℕ) (b : Bond) (m : CandidateMetadata) (s : Storage L) (top : Nominations)
      → s.top_nominations k ≡ some top
      → last_of o top.nominations ≡ some b
      → falls_behind b.amount less m ≡ false
      → decrease_top_nomination c k o b.amount less m s
        ≡ ok (put_top c true k (decreased o less top) m s)
  unfolding decrease_top_nomination
  decrease_top_nomination-stays k o less b m s top stored e stays =
      rw (stored, ◌>>=◌, stays, last_of-occurs o top.nominations b e) refl

  decrease_top_nomination-goes :
      (k o less : ℕ) (b h : Bond) (m : CandidateMetadata) (s : Storage L) (top bottom : Nominations)
      → s.top_nominations k ≡ some top
      → s.bottom_nominations k ≡ some bottom
      → last_of o top.nominations ≡ some b
      → falls_behind b.amount less m ≡ true
      → first? bottom.nominations ≡ some h
      → decrease_top_nomination c k o b.amount less m s
        ≡ ok (
            store_swapped c k
              (insert_sorted_greatest_to_least (filtered o top) h)
              (insert_sorted_greatest_to_least
                (without_first bottom h)
                (record b { amount = sat_sub b.amount less }))
              m
              s)
  unfolding decrease_top_nomination swap_down take_highest
  decrease_top_nomination-goes k o less b h m s top bottom stored stored_bottom e goes he =
      rw (stored, ◌>>=◌, goes, e, stored_bottom, he) refl

  decrease_top_nomination-absent :
      (k o bond less : ℕ) (m : CandidateMetadata) (s : Storage L) (top : Nominations)
      → s.top_nominations k ≡ some top
      → last_of o top.nominations ≡ none
      → decrease_top_nomination c k o bond less m s ≡ err Error.nomination_dne
  unfolding decrease_top_nomination swap_down
  decrease_top_nomination-absent k o bond less m s top stored e =
      elim (Bool-cases (falls_behind bond less m)) [
        | inl goes ↦ rw (stored, ◌>>=◌, goes, e) refl
        | inr stays ↦ rw (stored, ◌>>=◌, stays, occurs_absent o top.nominations e) refl
      ]

  pub decrease_bottom_nomination-eq :
      (k o less : ℕ) (b : Bond) (m : CandidateMetadata) (s : Storage L) (bottom : Nominations)
      → s.bottom_nominations k ≡ some bottom
      → last_of o bottom.nominations ≡ some b
      → decrease_bottom_nomination c k o less m s
        ≡ ok (put_bottom c false k (decreased_at_old_total o less bottom) m s)
  unfolding decrease_bottom_nomination
  decrease_bottom_nomination-eq k o less b m s bottom stored e =
      rw (stored, ◌>>=◌, last_of-occurs o bottom.nominations b e) refl

  -- Which list each test of `decrease_nomination` can lead to.
  try_top :
      (k o amount less : ℕ) (m : CandidateMetadata) (s : Storage L)
      → m.lowest_top_nomination_amount ≤ amount
      → (decrease_nomination c k o amount less m s ≡ decrease_top_nomination c k o amount less m s)
        ⊎ (decrease_nomination c k o amount less m s
            ≡ or_if_dne
                (decrease_top_nomination c k o amount less m s)
                (decrease_bottom_nomination c k o less m s))
  unfolding decrease_nomination
  try_top k o amount less m s h = ground arith

  try_bottom :
      (k o amount less : ℕ) (m : CandidateMetadata) (s : Storage L)
      → amount ≤ m.highest_bottom_nomination_amount
      → m.highest_bottom_nomination_amount ≤ m.lowest_top_nomination_amount
      → (decrease_nomination c k o amount less m s ≡ decrease_bottom_nomination c k o less m s)
        ⊎ (decrease_nomination c k o amount less m s
            ≡ or_if_dne
                (decrease_top_nomination c k o amount less m s)
                (decrease_bottom_nomination c k o less m s))
  unfolding decrease_nomination
  try_bottom k o amount less m s h g = ground arith

module _ {L : Type 0} (c : Config L) (room : HasRoom c) where
  module _ (k o less : ℕ) (b : Bond) {m : CandidateMetadata} {s : Storage L}
      {top bottom : Nominations} (back : IsBacked c k m s top bottom)
      (enough : less ≤ b.amount) where
    decrease_top_nomination-Restakes :
        last_of o top.nominations ≡ some b
        → Restakes c k o
            (b.amount - less)
            top
            bottom
            (decrease_top_nomination c k o b.amount less m s)
    unfolding highest_nomination_amount
    decrease_top_nomination-Restakes e =
        let v = back.valid in
        let empty_test =
          bottom_capacity-status c.max_bottom_nominations_per_candidate bottom room.bottom_room
            (omega (arith, room.in_u32, v.bottom_length)) in
        let full_test =
          top_capacity-status c.max_top_nominations_per_candidate top room.top_room
            (omega (arith, room.in_u32, v.top_length)) in
        elim (Bool-cases (falls_behind b.amount less m)) [
          | inl goes ↦
              let (h, he) =
                first?-some bottom.nominations
                  (ground (arith, goes, empty_test, v.bottom_status)) in
              rw
                (decrease_top_nomination-goes c k o less b h m s top bottom back.stored_top
                  back.stored_bottom e goes he)
                (Restakes-store_swapped c k o (b.amount - less) back _ _
                  (lower_to_bottom c o less b v enough h e he
                    (ground (arith, goes, he, v.highest_bottom)))
                  (restake_to_bottom c o less b v enough h e he))
          | inr stays ↦
              rw (decrease_top_nomination-stays c k o less b m s top back.stored_top e stays) (
                Restakes-put_top c true k o (b.amount - less) back (decreased o less top)
                  (lower_in_top c o less b v enough e (
                    ground (
                      arith, stays, empty_test, full_test, v.filled, v.top_status, v.bottom_status,
                      v.highest_bottom,
                    )))
                  (restake_in_top c o less b v enough e))
        ]

    decrease_bottom_nomination-Restakes :
        last_of o bottom.nominations ≡ some b
        → Restakes c k o (b.amount - less) top bottom (decrease_bottom_nomination c k o less m s)
    decrease_bottom_nomination-Restakes e =
        rw (decrease_bottom_nomination-eq c k o less b m s bottom back.stored_bottom e) (
          Restakes-put_bottom c false k o (b.amount - less) back
            (decreased_at_old_total o less bottom) (lower_in_bottom c o less b back.valid enough e)
            (restake_in_bottom c o less b back.valid enough e))

  -- A nomination that is in one of the lists is found by its amount: if the decrease is at most
  -- that amount, the call succeeds, the flag says whether the nomination is in the top, its
  -- amount is lowered, the others' are as before and the candidate is valid.
  pub decrease_nomination-Restakes :
      (k o amount less : ℕ) (m : CandidateMetadata) (s : Storage L) (top bottom : Nominations)
      → IsBacked c k m s top bottom
      → IsNominated o amount top bottom
      → less ≤ amount
      → Restakes c k o (amount - less) top bottom (decrease_nomination c k o amount less m s)
  decrease_nomination-Restakes k o amount less m s top bottom back (inl (b, e, q)) enough =
      let r = decrease_top_nomination-Restakes k o less b back (omega (arith, q)) e in
      rw (← q)
        (elim (try_top c k o b.amount less m s (in_top_amount c o b top bottom m back.valid e)) [
          | inl h ↦ rw h r
          | inr h ↦ rw h (Restakes-or_if_dne c k o (b.amount - less) top bottom _ _ r)
        ])
  decrease_nomination-Restakes k o amount less m s top bottom back (inr (b, e, q)) enough =
      let r = decrease_bottom_nomination-Restakes k o less b back (omega (arith, q)) e in
      let (full, low, high, absent) = in_bottom_amount c room o b top bottom m back.valid e in
      rw (← q) (elim (try_bottom c k o b.amount less m s low high) [
        | inl h ↦ rw h r
        | inr h ↦
            rw
              (h, decrease_top_nomination-absent c k o b.amount less m s top back.stored_top absent)
              r
      ])
