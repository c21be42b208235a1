-- ===== src/Staking/Candidate/Decrease/Validity.antt =====
-- About the lists that `decrease_nomination` stores.
use bifrost_node.Prelude.{ℕ, ◌-◌, ◌≤◌, ◌<◌, ◌≡◌, refl, some, arith, first?, sat_sub, List, [], ◌∷◌}
use bifrost_node.Staking.Nominations.{
  Bond, Nominations, insert_sorted_greatest_to_least, sort_greatest_to_least, sort_by_amount,
  highest_nomination_amount,
}
use bifrost_node.Staking.Nominations.Order.{
  insort, sum-insort, length-insort, insort-IsSorted, sort_by_amount-IsSorted, sum-sort_by_amount,
  length-sort_by_amount,
}
use bifrost_node.Staking.Nominations.Bounds.{
  IsAbove-mono, IsAbove-zero, insort-IsAbove, sort_by_amount-IsAbove, highest-insort,
  IsSorted-highest,
}
use bifrost_node.Staking.Nominations.Ceiling.{
  IsBelow-IsUnder, sort_by_amount-IsUnder, highest_under,
}
use bifrost_node.Staking.Nominations.Owners.{holds, holds-insort, holds-sort_by_amount, holds-tail}
use bifrost_node.Staking.Nominations.Part.{without_first, tail-IsPart, first?-parts}
use bifrost_node.Staking.Nominations.Search.{insert_sorted_greatest_to_least-eq-insort}
use bifrost_node.Staking.Types.{CandidateMetadata}
use bifrost_node.Staking.Storage.{Config}
use bifrost_node.Staking.Candidate.Metadata.{last_of, change_amount, lowered}
use bifrost_node.Staking.Candidate.Selection.{
  without-last_of, without-IsSorted, without-IsAbove, holds-without-last_of, sum-change_amount,
  length-change_amount, holds-change_amount, change_amount-IsAbove, change_amount-IsUnder,
  last_of-le, without_absent,
}
use bifrost_node.Staking.Candidate.Decrease.{
  lower_total, filtered, decreased, decreased_at_old_total,
}
use bifrost_node.Staking.Candidate.Valid.{IsValid}
use bifrost_node.Staking.Candidate.Relist.{AreRelisted}

lower_total_absent : (o t : ℕ) (xs : List Bond) → holds o xs ≡ 0 → lower_total o xs t ≡ t
unfolding lower_total
lower_total_absent o t [] h = refl
lower_total_absent o t (x ∷ xs) h = ground (arith, lower_total_absent o t xs)

-- The filter's closure lowers the total by the one bond that it drops.
pub lower_total-last_of :
    (o t : ℕ) (xs : List Bond) (b : Bond)
    → holds o xs ≤ 1
    → last_of o xs ≡ some b
    → lower_total o xs t ≡ sat_sub t b.amount
unfolding lower_total last_of
lower_total-last_of o t [] b u e = cc
lower_total-last_of o t (x ∷ xs) b u e = ground (
  arith,
  without_absent o xs,
  lower_total_absent o (sat_sub t x.amount) xs,
  lower_total-last_of o t xs b (omega arith),
)

module _ {L : Type 0} (c : Config L) where
  module _ (o less : ℕ) (b : Bond) {m : CandidateMetadata} {top bottom : Nominations}
      (v : IsValid c m top bottom) (enough : less ≤ b.amount) where
    pub lower_in_top :
        last_of o top.nominations ≡ some b
        → highest_nomination_amount bottom ≤ b.amount - less
        → AreRelisted m.bond top bottom (decreased o less top) bottom
    unfolding sort_greatest_to_least lowered
    lower_in_top e stays =
        let changed = change_amount o (lowered less) top.nominations in
        let single : holds o top.nominations ≤ 1 = omega (arith, v.unique o) in
        let parts = without-last_of o 0 top.nominations b single (IsAbove-zero _) e in
        let moved = sum-change_amount o (lowered less) top.nominations b single e in
        record {
          top_sorted = sort_by_amount-IsSorted changed;
          bottom_sorted = v.bottom_sorted;
          above = sort_by_amount-IsAbove _ changed (
              change_amount-IsAbove o _ (lowered less) top.nominations b single e v.above
                (ground arith));
          top_total = ground (arith, sum-sort_by_amount changed, moved, parts.0, v.top_total);
          bottom_total = v.bottom_total;
          top_length = omega (
            arith,
            length-sort_by_amount changed,
            length-change_amount o (lowered less) top.nominations,
          );
          bottom_length = refl;
          fits = ground (arith, sum-sort_by_amount changed, moved, parts.0, v.fits);
          owned = λ p. omega (
            arith,
            holds-sort_by_amount p changed,
            holds-change_amount p o (lowered less) top.nominations,
          );
        }

    pub lower_in_bottom :
        last_of o bottom.nominations ≡ some b
        → AreRelisted m.bond top bottom top (decreased_at_old_total o less bottom)
    unfolding sort_greatest_to_least lowered highest_nomination_amount
    lower_in_bottom e =
        let changed = change_amount o (lowered less) bottom.nominations in
        let single : holds o bottom.nominations ≤ 1 = omega (arith, v.unique o) in
        let falls = IsSorted-highest bottom.nominations v.bottom_sorted in
        let parts = without-last_of o 0 bottom.nominations b single (IsAbove-zero _) e in
        let moved = sum-change_amount o (lowered less) bottom.nominations b single e in
        record {
          top_sorted = v.top_sorted;
          bottom_sorted = sort_by_amount-IsSorted changed;
          above =
              IsAbove-mono _ _ top.nominations
                (highest_under _ (sort_by_amount changed) (
                  sort_by_amount-IsUnder _ changed (
                    change_amount-IsUnder o _ (lowered less) bottom.nominations b single e
                      (IsBelow-IsUnder _ bottom.nominations falls)
                      (ground (arith, last_of-le o _ bottom.nominations b falls e)))))
                v.above;
          top_total = v.top_total;
          bottom_total = ground (arith, sum-sort_by_amount changed, moved, parts.0, v.bottom_total);
          top_length = refl;
          bottom_length = omega (
            arith,
            length-sort_by_amount changed,
            length-change_amount o (lowered less) bottom.nominations,
          );
          fits = ground (arith, sum-sort_by_amount changed, moved, parts.0, v.fits);
          owned = λ p. omega (
            arith,
            holds-sort_by_amount p changed,
            holds-change_amount p o (lowered less) bottom.nominations,
          );
        }

    -- The lists when a top nomination goes down and the highest bottom nomination `h` goes up.
    pub lower_to_bottom :
        (h : Bond)
        → last_of o top.nominations ≡ some b
        → first? bottom.nominations ≡ some h
        → b.amount - less < h.amount
        → AreRelisted m.bond top bottom (insert_sorted_greatest_to_least (filtered o top) h) (
            insert_sorted_greatest_to_least
              (without_first bottom h)
              (record b { amount = sat_sub b.amount less }))
    unfolding highest_nomination_amount
    lower_to_bottom h e he goes =
        let reduced : Bond = record b { amount = sat_sub b.amount less } in
        let part = filtered o top in
        let rest = without_first bottom h in
        let single : holds o top.nominations ≤ 1 = omega (arith, v.unique o) in
        let parts = without-last_of o 0 top.nominations b single (IsAbove-zero _) e in
        let q = tail-IsPart bottom h v.bottom_sorted v.bottom_total he in
        let cut = first?-parts bottom.nominations h he in
        let falls = without-IsSorted o top.nominations v.top_sorted in
        rw
          (
            insert_sorted_greatest_to_least-eq-insort part h falls,
            insert_sorted_greatest_to_least-eq-insort rest reduced q.sorted,
          )
          (record {
            top_sorted = insort-IsSorted h part.nominations falls;
            bottom_sorted = insort-IsSorted reduced rest.nominations q.sorted;
            above =
                IsAbove-mono _ h.amount (insort h part.nominations)
                  (ground (arith, highest-insort reduced rest.nominations, q.lower, he))
                  (insort-IsAbove h.amount h part.nominations (omega arith) (
                    without-IsAbove o h.amount top.nominations
                      (IsAbove-mono h.amount _ top.nominations (ground (arith, he)) v.above)));
            top_total = ground (
              arith,
              sum-insort h part.nominations,
              lower_total-last_of o top.total top.nominations b single e,
              parts.0,
              cut.0,
              v.top_total,
              v.fits,
            );
            bottom_total =
                ground
                  (arith, sum-insort reduced rest.nominations, q.covered, parts.0, cut.0, v.fits);
            top_length = omega (arith, length-insort h part.nominations, parts.1);
            bottom_length = omega (arith, length-insort reduced rest.nominations, cut.1);
            fits = ground (
              arith,
              sum-insort h part.nominations,
              sum-insort reduced rest.nominations,
              parts.0,
              cut.0,
              v.fits,
            );
            owned = λ p. omega (
              arith,
              holds-insort p h part.nominations,
              holds-insort p reduced rest.nominations,
              holds-tail p bottom.nominations h he,
              holds-without-last_of p o top.nominations b single e,
            );
          })
