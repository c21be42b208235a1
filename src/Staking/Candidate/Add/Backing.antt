-- ===== src/Staking/Candidate/Add/Backing.antt =====
-- About what `add_nomination` stores, branch by branch.
use bifrost_node.Prelude.{
  ℕ, ◌+◌, ◌≤◌, ◌<◌, ◌%◌, ◌≡◌, ap, ◌∙◌, ◌⊎◌, inl, inr, true, false, none, some, Bool-cases, arith,
  ◌==◌, ltb, length, last?, u128_mod, u32_mod,
}
use bifrost_node.Staking.Nominations.{
  Bond, Nominations, insert_sorted_greatest_to_least, lowest_nomination_amount,
}
use bifrost_node.Staking.Nominations.Order.{sum}
use bifrost_node.Staking.Nominations.Bounds.{last?-some}
use bifrost_node.Staking.Nominations.Owners.{holds}
use bifrost_node.Staking.Types.{CandidateMetadata, added_to_top}
use bifrost_node.Staking.Storage.{Config, Storage, ok, ◌>>=◌, Result-cases}
use bifrost_node.Staking.Candidate.Metadata.{is_capacity_full}
use bifrost_node.Staking.Candidate.Add.{
  store_bottom, add_bottom_nomination, store_top, add_top_nomination, add_nomination,
}
use bifrost_node.Staking.Candidate.Valid.{
  HasRoom, IsBacked, Leaves, Leaves->>=, Leaves-ensure, top_capacity-status,
}
use bifrost_node.Staking.Nominations.Part.{without_last}
use bifrost_node.Staking.Candidate.Add.Validity.{grow_top, swap_top, grow_bottom, Counts}
use bifrost_node.Staking.Candidate.Add.Steps.{
  BottomStep, add_bottom_nomination-BottomStep, store_top-IsBacked, add_top_nomination-partial,
  add_top_nomination-full, store_bottom-stored, BottomStep-stored, bumped_out-Counts, bumped_out,
}

module _ {L : Type 0} (c : Config L) (room : HasRoom c) where
  -- The branch of the full top, for whatever the bottom does with the bumped bond.
  bumped-Leaves :
      (k : ℕ) (b l : Bond) (m : CandidateMetadata) (s : Storage L) (top bottom : Nominations)
      → IsBacked c k m s top bottom
      → length top.nominations ≡ c.max_top_nominations_per_candidate
      → last? top.nominations ≡ some l
      → l.amount < b.amount
      → m.bond + sum top.nominations + sum bottom.nominations + b.amount < u128_mod
      → holds b.owner top.nominations + holds b.owner bottom.nominations ≡ 0
      → Leaves c k (
          add_bottom_nomination c true k l m s >>= λ x.
          ok (store_top c (bumped_out c room m) k b (without_last top l) x.0 x.1))
  bumped-Leaves k b l m s top bottom back full e higher fits free =
      let v = back.valid in
      elim (Result-cases (add_bottom_nomination c true k l m s)) [
        | inl (e', failed) ↦ rw failed tt
        | inr ((m₁, s₁), done) ↦
            let st : BottomStep c room true k l m s bottom m₁ s₁ =
              add_bottom_nomination-BottomStep c room true k l m m₁ s s₁ bottom v.bottom_sorted
                v.bottom_total v.bottom_length back.stored_bottom done in
            let still : st.grows ≡ false = ground (arith, st.branch) in
            let same : m₁ ≡ (store_bottom c false k l st.part m st.t).0 =
              ap (λ x. x.0) st.stored ∙ ap (λ g. (store_bottom c g k l st.part m st.t).0) still in
            let counts : Counts c room (bumped_out c room m) (length st.part.nominations)
                (length bottom.nominations) =
              bumped_out-Counts c room m top bottom v st.branch in
            rw done (
              store_top-IsBacked c room (bumped_out c room m) k b (without_last top l)
                (insert_sorted_greatest_to_least st.part l) m₁ s₁ (BottomStep-stored c room st)
                (rw same (
                  swap_top c room k b l (bumped_out c room m) m st.t s₁ top bottom st.part v
                    st.is_part st.space full counts e higher fits free)))
      ]

  -- A new top nomination: the top had room, or its lowest bond is below the new one.
  add_top_nomination-Leaves :
      (k : ℕ) (b : Bond) (m : CandidateMetadata) (s : Storage L) (top bottom : Nominations)
      → IsBacked c k m s top bottom
      → (length top.nominations < c.max_top_nominations_per_candidate)
        ⊎ (lowest_nomination_amount top < b.amount)
      → m.bond + sum top.nominations + sum bottom.nominations + b.amount < u128_mod
      → holds b.owner top.nominations + holds b.owner bottom.nominations ≡ 0
      → Leaves c k (add_top_nomination c k b m s)
  unfolding lowest_nomination_amount
  add_top_nomination-Leaves k b m s top bottom back higher fits free =
      elim (Bool-cases (length top.nominations % u32_mod == c.max_top_nominations_per_candidate)) [
        | inr partial ↦ rw (add_top_nomination-partial c room k b m s top back.stored_top partial) (
            store_top-IsBacked c room none k b top bottom m s back.stored_bottom (
              grow_top c room k b m s top bottom back.valid (ground (arith, room.in_u32)) fits
                free))
        | inl full ↦
            let (l, e) = last?-some top.nominations (ground (arith, room.top_room)) in
            rw (add_top_nomination-full c room k b l m s top back.stored_top full e) (
              bumped-Leaves k b l m s top bottom back (ground (arith, room.in_u32)) e
                (ground (arith, room.in_u32)) fits free)
      ]

  -- A new bottom nomination under a full top.
  add_bottom_nomination-Leaves :
      {X : Type 0} (x : X) (k : ℕ) (b : Bond) (m : CandidateMetadata) (s : Storage L)
      (top bottom : Nominations)
      → IsBacked c k m s top bottom
      → length top.nominations ≡ c.max_top_nominations_per_candidate
      → b.amount ≤ lowest_nomination_amount top
      → m.bond + sum top.nominations + sum bottom.nominations + b.amount < u128_mod
      → holds b.owner top.nominations + holds b.owner bottom.nominations ≡ 0
      → Leaves c k (add_bottom_nomination c false k b m s >>= λ y. ok (x, y.0, y.1))
  add_bottom_nomination-Leaves x k b m s top bottom back full low fits free =
      let v = back.valid in
      elim (Result-cases (add_bottom_nomination c false k b m s)) [
        | inl (e', failed) ↦ rw failed tt
        | inr ((m₁, s₁), done) ↦
            let st : BottomStep c room false k b m s bottom m₁ s₁ =
              add_bottom_nomination-BottomStep c room false k b m m₁ s s₁ bottom v.bottom_sorted
                v.bottom_total v.bottom_length back.stored_bottom done in
            rw done (
              top,
              insert_sorted_greatest_to_least st.part b,
              record {
                stored_top =
                    ap (λ y. y.1.top_nominations k) st.stored
                    ∙ ap (λ f. f k) (store_bottom-stored c room st.grows k b st.part m st.t).1
                    ∙ ap (λ f. f k) st.same_top
                    ∙ back.stored_top;
                stored_bottom = BottomStep-stored c room st;
                valid = rw (ap (λ y. y.0) st.stored) (
                    grow_bottom c room st.grows k b m st.t top bottom st.part v st.is_part st.space
                      full (ground (arith, st.branch)) low fits free);
              },
            )
      ]

  -- Whatever branch `add_nomination` takes for an account that does not back the candidate yet, a
  -- call that succeeds leaves a candidate that is valid with the lists that are stored then.
  pub add_nomination-Leaves :
      (k : ℕ) (b : Bond) (m : CandidateMetadata) (s : Storage L) (top bottom : Nominations)
      → IsBacked c k m s top bottom
      → m.bond + sum top.nominations + sum bottom.nominations + b.amount < u128_mod
      → holds b.owner top.nominations + holds b.owner bottom.nominations ≡ 0
      → Leaves c k (add_nomination c k b m s)
  unfolding add_nomination
  add_nomination-Leaves k b m s top bottom back fits free =
      let v = back.valid in
      let status =
        top_capacity-status c.max_top_nominations_per_candidate top room.top_room
          (omega (arith, room.in_u32)) in
      elim (Bool-cases (is_capacity_full m.top_capacity)) [
        | inr room_left ↦ rw room_left (
            Leaves->>= c k (add_top_nomination c k b m s)
              (λ less m'. (added_to_top m'.voting_power, none))
              (add_top_nomination-Leaves k b m s top bottom back (inl (ground (arith, status))) fits
                free))
        | inl full ↦ elim (Bool-cases (ltb m.lowest_top_nomination_amount b.amount)) [
          | inl higher ↦
              rw (full, higher)
                (Leaves->>= c k (add_top_nomination c k b m s)
                  (λ less m'. (added_to_top m'.voting_power, less))
                  (add_top_nomination-Leaves k b m s top bottom back (inr (ground arith)) fits
                    free))
          | inr lower ↦
              rw (full, lower)
                (Leaves-ensure c k _ _ _ (
                  add_bottom_nomination-Leaves _ k b m s top bottom back
                    (ground (arith, status, v.top_length)) (ground arith) fits free))
        ]
      ]
