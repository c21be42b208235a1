-- ===== src/Staking/Candidate/Increase/Raising.antt =====
-- About `increase_nomination` as a whole.
use bifrost_node.Prelude.{
  ℕ, ◌+◌, ◌≤◌, ◌<◌, ◌≡◌, refl, ap, ◌⊎◌, inl, inr, true, false, none, some, arith, last?, ltb,
  Bool-cases, sat_add, u128_mod,
}
use bifrost_node.Staking.Nominations.{
  Bond, Nominations, top_capacity, insert_sorted_greatest_to_least, lowest_nomination_amount,
  highest_nomination_amount,
}
use bifrost_node.Staking.Nominations.Order.{sum}
use bifrost_node.Staking.Nominations.Bounds.{IsAbove-zero, last?-some}
use bifrost_node.Staking.Nominations.Part.{without_last}
use bifrost_node.Staking.Types.{CandidateMetadata}
use bifrost_node.Staking.Storage.{Config, Storage, ok, err, Error, ◌>>=◌}
use bifrost_node.Staking.Candidate.Metadata.{
  is_capacity_full, pop_lowest, left, last_of, put_top, put_bottom,
}
use bifrost_node.Staking.Candidate.Selection.{without-last_of, last_of-occurs, occurs_absent}
use bifrost_node.Staking.Candidate.Restaked.{
  Restakes, Restakes-or_if_dne, Restakes-put_top, Restakes-put_bottom, Restakes-store_raised,
}
use bifrost_node.Staking.Candidate.Remove.{or_if_dne}
use bifrost_node.Staking.Candidate.Increase.{
  increased, increase_top_nomination, bump_down, store_raised, increase_bottom_nomination,
  increase_nomination,
}
use bifrost_node.Staking.Candidate.Increase.Stakes.{
  restake_in_top, restake_in_bottom, restake_to_top,
}
use bifrost_node.Staking.Candidate.Increase.Validity.{raise_in_top, raise_in_bottom, raise_to_top}
use bifrost_node.Staking.Candidate.Place.{IsNominated, in_top_amount, in_bottom_amount, full_status}
use bifrost_node.Staking.Candidate.Valid.{HasRoom, IsBacked}

module _ {L : Type 0} (c : Config L) where
  increase_top_nomination-eq :
      (k o more : ℕ) (b : Bond) (m : CandidateMetadata) (s : Storage L) (top : Nominations)
      → s.top_nominations k ≡ some top
      → last_of o top.nominations ≡ some b
      → increase_top_nomination c k o more m s ≡ ok (put_top c true k (increased o more top) m s)
  unfolding increase_top_nomination
  increase_top_nomination-eq k o more b m s top stored e =
      rw (stored, ◌>>=◌, last_of-occurs o top.nominations b e) refl

  increase_top_nomination-absent :
      (k o more : ℕ) (m : CandidateMetadata) (s : Storage L) (top : Nominations)
      → s.top_nominations k ≡ some top
      → last_of o top.nominations ≡ none
      → increase_top_nomination c k o more m s ≡ err Error.nomination_dne
  unfolding increase_top_nomination
  increase_top_nomination-absent k o more m s top stored e =
      rw (stored, ◌>>=◌, occurs_absent o top.nominations e) refl

  bump_down-full :
      (l : Bond) (top bottom : Nominations)
      → is_capacity_full (top_capacity c.max_top_nominations_per_candidate top) ≡ true
      → last? top.nominations ≡ some l
      → bump_down c top bottom ≡ ok (without_last top l, insert_sorted_greatest_to_least bottom l)
  unfolding bump_down pop_lowest
  bump_down-full l top bottom full e = rw (full, e) refl

  increase_bottom_nomination-stays :
      (k o more : ℕ) (b : Bond) (m : CandidateMetadata) (s : Storage L) (bottom : Nominations)
      → s.bottom_nominations k ≡ some bottom
      → last_of o bottom.nominations ≡ some b
      → ltb m.lowest_top_nomination_amount (sat_add b.amount more) ≡ false
      → increase_bottom_nomination c k o b.amount more m s
        ≡ ok (put_bottom c false k (increased o more bottom) m s)
  unfolding increase_bottom_nomination
  increase_bottom_nomination-stays k o more b m s bottom stored e stays =
      rw (stored, ◌>>=◌, stays, last_of-occurs o bottom.nominations b e) refl

  increase_bottom_nomination-goes :
      (k o more : ℕ) (b l : Bond) (m : CandidateMetadata) (s : Storage L) (top bottom : Nominations)
      → s.top_nominations k ≡ some top
      → s.bottom_nominations k ≡ some bottom
      → last_of o bottom.nominations ≡ some b
      → ltb m.lowest_top_nomination_amount (sat_add b.amount more) ≡ true
      → is_capacity_full (top_capacity c.max_top_nominations_per_candidate top) ≡ true
      → last? top.nominations ≡ some l
      → increase_bottom_nomination c k o b.amount more m s
        ≡ ok (
            store_raised c k
              (insert_sorted_greatest_to_least
                (without_last top l)
                (record b { amount = sat_add b.amount more }))
              (insert_sorted_greatest_to_least (left o b.amount bottom) l)
              m
              s)
  unfolding increase_bottom_nomination
  increase_bottom_nomination-goes k o more b l m s top bottom stored_top stored e goes full le =
      rw (stored, ◌>>=◌, goes, e, stored_top, bump_down-full l top (left o b.amount bottom) full le)
        refl

  -- Which list each test of `increase_nomination` can lead to.
  try_top :
      (k o amount more : ℕ) (m : CandidateMetadata) (s : Storage L)
      → m.lowest_top_nomination_amount ≤ amount
      → (increase_nomination c k o amount more m s ≡ increase_top_nomination c k o more m s)
        ⊎ (increase_nomination c k o amount more m s
            ≡ or_if_dne
                (increase_top_nomination c k o more m s)
                (increase_bottom_nomination c k o amount more m s))
  unfolding increase_nomination
  try_top k o amount more m s h = ground arith

  try_bottom :
      (k o amount more : ℕ) (m : CandidateMetadata) (s : Storage L)
      → amount ≤ m.highest_bottom_nomination_amount
      → m.highest_bottom_nomination_amount ≤ m.lowest_top_nomination_amount
      → (increase_nomination c k o amount more m s
          ≡ increase_bottom_nomination c k o amount more m s)
        ⊎ (increase_nomination c k o amount more m s
            ≡ or_if_dne
                (increase_top_nomination c k o more m s)
                (increase_bottom_nomination c k o amount more m s))
  unfolding increase_nomination
  try_bottom k o amount more m s h g = ground arith

module _ {L : Type 0} (c : Config L) (room : HasRoom c) where
  module _ (k o more : ℕ) (b : Bond) {m : CandidateMetadata} {s : Storage L}
      {top bottom : Nominations} (back : IsBacked c k m s top bottom)
      (fits : m.bond + sum top.nominations + sum bottom.nominations + more < u128_mod) where
    increase_top_nomination-Restakes :
        last_of o top.nominations ≡ some b
        → Restakes c k o (b.amount + more) top bottom (increase_top_nomination c k o more m s)
    increase_top_nomination-Restakes e =
        rw (increase_top_nomination-eq c k o more b m s top back.stored_top e) (
          Restakes-put_top c true k o (b.amount + more) back (increased o more top)
            (raise_in_top c o more b back.valid fits e)
            (restake_in_top c o more b back.valid fits e))

    increase_bottom_nomination-Restakes :
        last_of o bottom.nominations ≡ some b
        → Restakes c k o
            (b.amount + more)
            top
            bottom
            (increase_bottom_nomination c k o b.amount more m s)
    unfolding lowest_nomination_amount highest_nomination_amount
    increase_bottom_nomination-Restakes e =
        let v = back.valid in
        let (full, low, high, absent) = in_bottom_amount c room o b top bottom m v e in
        let parts =
          without-last_of o 0 bottom.nominations b (omega (arith, v.unique o))
            (IsAbove-zero bottom.nominations) e in
        elim (Bool-cases (ltb m.lowest_top_nomination_amount (sat_add b.amount more))) [
          | inl goes ↦
              let (l, le) = last?-some top.nominations (omega (arith, full, room.top_room)) in
              rw
                (increase_bottom_nomination-goes c k o more b l m s top bottom back.stored_top
                  back.stored_bottom e goes
                  (cc (ap is_capacity_full v.top_status, full_status c room top bottom m v full))
                  le)
                (Restakes-store_raised c k o (b.amount + more) back _ _
                  (raise_to_top c o more b v fits l e le
                    (omega (arith, high, v.highest_bottom, v.lowest_top))
                    (ground (arith, goes, v.lowest_top, parts.0)))
                  (restake_to_top c o more b v fits l e le))
          | inr stays ↦
              rw
                (increase_bottom_nomination-stays c k o more b m s bottom back.stored_bottom e
                  stays)
                (Restakes-put_bottom c false k o (b.amount + more) back (increased o more bottom)
                  (raise_in_bottom c o more b v fits e
                    (omega (arith, high, v.highest_bottom, v.lowest_top))
                    (ground (arith, stays, v.lowest_top, parts.0)))
                  (restake_in_bottom c o more b v fits e))
        ]

  -- A nomination that is in one of the lists is found by its amount: if 128 bits hold what the
  -- candidate has with the increase, the call succeeds, the flag says whether the nomination is
  -- in the top, its amount is raised, the others' are as before and the candidate is valid.
  pub increase_nomination-Restakes :
      (k o amount more : ℕ) (m : CandidateMetadata) (s : Storage L) (top bottom : Nominations)
      → IsBacked c k m s top bottom
      → IsNominated o amount top bottom
      → m.bond + sum top.nominations + sum bottom.nominations + more < u128_mod
      → Restakes c k o (amount + more) top bottom (increase_nomination c k o amount more m s)
  increase_nomination-Restakes k o amount more m s top bottom back (inl (b, e, q)) fits =
      let r = increase_top_nomination-Restakes k o more b back fits e in
      rw (← q)
        (elim (try_top c k o b.amount more m s (in_top_amount c o b top bottom m back.valid e)) [
          | inl h ↦ rw h r
          | inr h ↦ rw h (Restakes-or_if_dne c k o (b.amount + more) top bottom _ _ r)
        ])
  increase_nomination-Restakes k o amount more m s top bottom back (inr (b, e, q)) fits =
      let r = increase_bottom_nomination-Restakes k o more b back fits e in
      let (full, low, high, absent) = in_bottom_amount c room o b top bottom m back.valid e in
      rw (← q) (elim (try_bottom c k o b.amount more m s low high) [
        | inl h ↦ rw h r
        | inr h ↦ rw (h, increase_top_nomination-absent c k o more m s top back.stored_top absent) r
      ])
