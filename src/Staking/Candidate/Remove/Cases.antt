-- ===== src/Staking/Candidate/Remove/Cases.antt =====
-- What a removal from the top and one from the bottom do to a valid candidate.
use bifrost_node.Prelude.{
  ℕ, ◌==◌, ◌+◌, ◌≡◌, refl, ap, ◌∙◌, inl, inr, Bool, true, false, some, Bool-cases, arith, first?,
  update,
}
use bifrost_node.Staking.Nominations.{Bond, Nominations, insert_sorted_greatest_to_least}
use bifrost_node.Staking.Nominations.Order.{sum, insort, sum-insort}
use bifrost_node.Staking.Nominations.Bounds.{IsAbove-zero, first?-some}
use bifrost_node.Staking.Nominations.Owners.{holds, holds-insort, holds-tail}
use bifrost_node.Staking.Nominations.Stakes.{stake, stake-insort, stake-tail}
use bifrost_node.Staking.Candidate.Restake.{stake-without}
use bifrost_node.Staking.Nominations.Part.{without_first, first?-parts}
use bifrost_node.Staking.Nominations.Search.{insert_sorted_greatest_to_least-eq-insort}
use bifrost_node.Staking.Types.{CandidateMetadata}
use bifrost_node.Staking.Storage.{Config, Storage, Result, ok, err, ◌>>=◌, update_active}
use bifrost_node.Staking.Candidate.Metadata.{
  is_capacity_empty, reset_top_data, reset_bottom_data, take_highest, left, last_of,
}
use bifrost_node.Staking.Candidate.Selection.{
  without-last_of, without-IsAbove, without-IsPart, holds-without_self,
}
use bifrost_node.Staking.Candidate.Remove.{
  bump_up, store_reduced_top, rm_top_nomination, store_reduced_bottom, rm_bottom_nomination,
}
use bifrost_node.Staking.Candidate.Valid.{HasRoom, no_bonds, IsBacked, bottom_capacity-status}
use bifrost_node.Staking.Candidate.Remove.Validity.{shrink_bottom, shrink_top, refill_top}

module _ {L : Type 0} (c : Config L) where
  -- The removal succeeds; the nominator backs the candidate no more, the amount is gone from the
  -- sum, the others' stakes are as before and the candidate is valid.
  abbrev pub Removes :
      ℕ → ℕ → ℕ → Nominations → Nominations → Result (Bool × CandidateMetadata × Storage L) → Type 0
  Removes k o amount top bottom (err e) = ⊥
  Removes k o amount top bottom (ok (changed, m, s)) =
      (top' : Nominations) × (bottom' : Nominations) × IsBacked c k m s top' bottom'
      × (holds o top'.nominations + holds o bottom'.nominations ≡ 0)
      × (sum top'.nominations + sum bottom'.nominations + amount
          ≡ sum top.nominations + sum bottom.nominations)
      × ((p : ℕ)
          → (p == o) ≡ false
          → stake p top'.nominations + stake p bottom'.nominations
            ≡ stake p top.nominations + stake p bottom.nominations)

  store_reduced_top-stored :
      (k old : ℕ) (top : Nominations) (m : CandidateMetadata) (s : Storage L)
      → let s' = (store_reduced_top c k old (top, m, s)).2 in
        (s'.top_nominations k ≡ some top) × (s'.bottom_nominations k ≡ s.bottom_nominations k)
  unfolding store_reduced_top reset_top_data update_active
  store_reduced_top-stored k old top m s = (ground arith, ground arith)

  rm_bottom_nomination-eq :
      (k o : ℕ) (b : Bond) (m : CandidateMetadata) (s : Storage L) (bottom : Nominations)
      → s.bottom_nominations k ≡ some bottom
      → last_of o bottom.nominations ≡ some b
      → rm_bottom_nomination c k o m s ≡ ok (store_reduced_bottom c k (left o b.amount bottom) m s)
  unfolding rm_bottom_nomination
  rm_bottom_nomination-eq k o b m s bottom stored e = rw (stored, ◌>>=◌, e) refl

  rm_top_nomination-eq :
      (k o : ℕ) (b : Bond) (m : CandidateMetadata) (s : Storage L) (top : Nominations)
      → s.top_nominations k ≡ some top
      → last_of o top.nominations ≡ some b
      → rm_top_nomination c k o m s ≡ (
          bump_up c k (left o b.amount top) m s >>= λ x.
          ok (store_reduced_top c k m.voting_power x))
  unfolding rm_top_nomination
  rm_top_nomination-eq k o b m s top stored e = rw (stored, ◌>>=◌, e) refl

  bump_up-filled :
      (k : ℕ) (h : Bond) (m : CandidateMetadata) (s : Storage L) (top bottom : Nominations)
      → is_capacity_empty m.bottom_capacity ≡ false
      → s.bottom_nominations k ≡ some bottom
      → first? bottom.nominations ≡ some h
      → bump_up c k top m s
        ≡ ok (
          insert_sorted_greatest_to_least top h,
          reset_bottom_data c (without_first bottom h) m,
          record s {
            bottom_nominations = update s.bottom_nominations k (some (without_first bottom h));
          },
        )
  unfolding bump_up take_highest
  bump_up-filled k h m s top bottom filled stored e = rw (filled, stored, ◌>>=◌, e) refl

  bump_up-empty :
      (k : ℕ) (m : CandidateMetadata) (s : Storage L) (top : Nominations)
      → is_capacity_empty m.bottom_capacity ≡ true
      → bump_up c k top m s ≡ ok (top, m, s)
  unfolding bump_up
  bump_up-empty k m s top e = rw e refl

module _ {L : Type 0} (c : Config L) (room : HasRoom c) where
  pub rm_bottom_nomination-Removes :
      (k o : ℕ) (b : Bond) (m : CandidateMetadata) (s : Storage L) (top bottom : Nominations)
      → IsBacked c k m s top bottom
      → last_of o bottom.nominations ≡ some b
      → Removes c k o b.amount top bottom (rm_bottom_nomination c k o m s)
  unfolding store_reduced_bottom
  rm_bottom_nomination-Removes k o b m s top bottom back e =
      let v = back.valid in
      let parts =
        without-last_of o 0 bottom.nominations b (omega (arith, v.unique o))
          (IsAbove-zero bottom.nominations) e in
      rw (rm_bottom_nomination-eq c k o b m s bottom back.stored_bottom e) (
        top,
        left o b.amount bottom,
        record {
          stored_top = back.stored_top;
          stored_bottom = ground arith;
          valid =
              shrink_bottom c room k m s top bottom (left o b.amount bottom) v
                (without-IsPart o bottom b v.bottom_sorted v.bottom_total
                  (omega (arith, v.unique o)) e)
                parts.1;
        },
        omega (arith, parts.4, v.unique o, holds-without_self o bottom.nominations),
        omega (arith, parts.0),
        λ p ne.
            ground (
              arith,
              stake-without p o bottom.nominations b (omega (arith, v.unique o)) e,
              parts.2,
            ),
      )

  pub rm_top_nomination-Removes :
      (k o : ℕ) (b : Bond) (m : CandidateMetadata) (s : Storage L) (top bottom : Nominations)
      → IsBacked c k m s top bottom
      → last_of o top.nominations ≡ some b
      → Removes c k o b.amount top bottom (rm_top_nomination c k o m s)
  rm_top_nomination-Removes k o b m s top bottom back e =
      let v = back.valid in
      let parts = without-last_of o _ top.nominations b (omega (arith, v.unique o)) v.above e in
      let part = left o b.amount top in
      let p =
        without-IsPart o top b v.top_sorted (omega (arith, v.top_total)) (omega (arith, v.unique o))
          e in
      let empty_test =
        bottom_capacity-status c.max_bottom_nominations_per_candidate bottom room.bottom_room
          (omega (arith, room.in_u32, v.bottom_length)) in
      elim (Bool-cases (is_capacity_empty m.bottom_capacity)) [
        | inl empty ↦
            rw
              (
                rm_top_nomination-eq c k o b m s top back.stored_top e,
                bump_up-empty c k m s part empty,
              )
              (
                part,
                bottom,
                record {
                  stored_top = (store_reduced_top-stored c k m.voting_power part m s).0;
                  stored_bottom =
                      (store_reduced_top-stored c k m.voting_power part m s).1 ∙ back.stored_bottom;
                  valid =
                      shrink_top c room k m.voting_power m s top bottom part v p
                        (omega (arith, parts.0, v.top_total)) parts.1
                        (no_bonds bottom.nominations (ground (arith, empty_test, v.bottom_status)));
                },
                omega (arith, parts.4, v.unique o, holds-without_self o top.nominations),
                omega (arith, parts.0),
                λ p ne. ground (
                  arith,
                  stake-without p o top.nominations b (omega (arith, v.unique o)) e,
                  parts.2,
                ),
              )
        | inr filled ↦
            let (h, he) =
              first?-some bottom.nominations (ground (arith, empty_test, v.bottom_status)) in
            let rest = without_first bottom h in
            let s₁ : Storage L = record s {
              bottom_nominations = update s.bottom_nominations k (some rest);
            } in
            let m₁ = reset_bottom_data c rest m in
            let top' = insert_sorted_greatest_to_least part h in
            let inserted : top'.nominations ≡ insort h part.nominations =
              ap (λ n. n.nominations) (insert_sorted_greatest_to_least-eq-insort part h p.sorted) in
            rw
              (
                rm_top_nomination-eq c k o b m s top back.stored_top e,
                bump_up-filled c k h m s part bottom filled back.stored_bottom he,
              )
              (
                top',
                rest,
                record {
                  stored_top = (store_reduced_top-stored c k m.voting_power top' m₁ s₁).0;
                  stored_bottom =
                      (store_reduced_top-stored c k m.voting_power top' m₁ s₁).1 ∙ (ground arith);
                  valid =
                      refill_top c room k m.voting_power h m s₁ top bottom part v p
                        (omega (arith, parts.0, v.top_total)) parts.1
                        (without-IsAbove o _ top.nominations v.above) he;
                },
                rw inserted (
                    omega (
                      arith,
                      parts.4,
                      v.unique o,
                      holds-without_self o top.nominations,
                      holds-insort o h part.nominations,
                      holds-tail o bottom.nominations h he,
                    )),
                rw inserted (
                    omega (
                      arith,
                      parts.0,
                      sum-insort h part.nominations,
                      first?-parts bottom.nominations h he,
                    )),
                rw inserted (λ p ne. ground (
                  arith,
                  stake-insort p h part.nominations,
                  stake-tail p bottom.nominations h he,
                  stake-without p o top.nominations b (omega (arith, v.unique o)) e,
                  parts.2,
                )),
              )
      ]
