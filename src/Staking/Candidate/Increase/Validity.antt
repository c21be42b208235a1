-- ===== src/Staking/Candidate/Increase/Validity.antt =====
-- About the lists that `increase_nomination` stores.
use bifrost_node.Prelude.{ℕ, ◌+◌, ◌≤◌, ◌<◌, ◌≡◌, refl, some, arith, last?, u128_mod, sat_add}
use bifrost_node.Staking.Nominations.{
  Bond, Nominations, insert_sorted_greatest_to_least, sort_greatest_to_least, sort_by_amount,
  lowest_nomination_amount, highest_nomination_amount,
}
use bifrost_node.Staking.Nominations.Order.{
  sum, insort, sum-insort, length-insort, insort-IsSorted, sort_by_amount-IsSorted,
  sum-sort_by_amount, length-sort_by_amount, but_last-IsSorted,
}
use bifrost_node.Staking.Nominations.Bounds.{
  IsAbove, IsAbove-mono, IsAbove-zero, insort-IsAbove, sort_by_amount-IsAbove, but_last-IsAbove,
  last?-parts, last?-IsAbove, highest-insort, lowest-IsAbove, IsSorted-highest,
}
use bifrost_node.Staking.Nominations.Ceiling.{
  IsUnder-mono, IsBelow-IsUnder, sort_by_amount-IsUnder, highest_under,
}
use bifrost_node.Staking.Nominations.Owners.{
  holds, holds-insort, holds-sort_by_amount, holds-but_last,
}
use bifrost_node.Staking.Nominations.Part.{without_last}
use bifrost_node.Staking.Nominations.Search.{insert_sorted_greatest_to_least-eq-insort}
use bifrost_node.Staking.Types.{CandidateMetadata}
use bifrost_node.Staking.Storage.{Config}
use bifrost_node.Staking.Candidate.Metadata.{left, last_of, change_amount, added}
use bifrost_node.Staking.Candidate.Selection.{
  without-last_of, without-IsPart, holds-without-last_of, sum-change_amount, length-change_amount,
  holds-change_amount, change_amount-IsAbove, change_amount-IsUnder,
}
use bifrost_node.Staking.Candidate.Increase.{increased}
use bifrost_node.Staking.Candidate.Valid.{IsValid}
use bifrost_node.Staking.Candidate.Relist.{AreRelisted}

module _ {L : Type 0} (c : Config L) where
  module _ (o more : ℕ) (b : Bond) {m : CandidateMetadata} {top bottom : Nominations}
      (v : IsValid c m top bottom)
      (room : m.bond + sum top.nominations + sum bottom.nominations + more < u128_mod) where
    pub raise_in_top :
        last_of o top.nominations ≡ some b
        → AreRelisted m.bond top bottom (increased o more top) bottom
    unfolding sort_greatest_to_least added
    raise_in_top e =
        let changed = change_amount o (added more) top.nominations in
        let single : holds o top.nominations ≤ 1 = omega (arith, v.unique o) in
        let parts = without-last_of o _ top.nominations b single v.above e in
        let moved = sum-change_amount o (added more) top.nominations b single e in
        record {
          top_sorted = sort_by_amount-IsSorted changed;
          bottom_sorted = v.bottom_sorted;
          above = sort_by_amount-IsAbove _ changed (
              change_amount-IsAbove o _ (added more) top.nominations b single e v.above
                (ground (arith, parts.3, parts.0)));
          top_total = ground (arith, sum-sort_by_amount changed, moved, parts.0, v.top_total);
          bottom_total = v.bottom_total;
          top_length = omega (
            arith,
            length-sort_by_amount changed,
            length-change_amount o (added more) top.nominations,
          );
          bottom_length = refl;
          fits = ground (arith, sum-sort_by_amount changed, moved, parts.0);
          owned = λ p. omega (
            arith,
            holds-sort_by_amount p changed,
            holds-change_amount p o (added more) top.nominations,
          );
        }

    pub raise_in_bottom :
        last_of o bottom.nominations ≡ some b
        → highest_nomination_amount bottom ≤ lowest_nomination_amount top
        → b.amount + more ≤ lowest_nomination_amount top
        → AreRelisted m.bond top bottom top (increased o more bottom)
    unfolding sort_greatest_to_least added highest_nomination_amount lowest_nomination_amount
    raise_in_bottom e low stays =
        let changed = change_amount o (added more) bottom.nominations in
        let single : holds o bottom.nominations ≤ 1 = omega (arith, v.unique o) in
        let parts =
          without-last_of o 0 bottom.nominations b single (IsAbove-zero bottom.nominations) e in
        let moved = sum-change_amount o (added more) bottom.nominations b single e in
        record {
          top_sorted = v.top_sorted;
          bottom_sorted = sort_by_amount-IsSorted changed;
          above =
              IsAbove-mono _ _ top.nominations
                (highest_under _ (sort_by_amount changed) (
                  sort_by_amount-IsUnder _ changed (
                    change_amount-IsUnder o _ (added more) bottom.nominations b single e
                      (IsUnder-mono _ _ bottom.nominations low (
                        IsBelow-IsUnder _ bottom.nominations
                          (IsSorted-highest bottom.nominations v.bottom_sorted)))
                      (ground arith))))
                (lowest-IsAbove top.nominations v.top_sorted);
          top_total = v.top_total;
          bottom_total = ground (arith, sum-sort_by_amount changed, moved, parts.0, v.bottom_total);
          top_length = refl;
          bottom_length = omega (
            arith,
            length-sort_by_amount changed,
            length-change_amount o (added more) bottom.nominations,
          );
          fits = ground (arith, sum-sort_by_amount changed, moved, parts.0);
          owned = λ p. omega (
            arith,
            holds-sort_by_amount p changed,
            holds-change_amount p o (added more) bottom.nominations,
          );
        }

    -- The lists when a bottom nomination goes up and the lowest top nomination `l` goes down.
    pub raise_to_top :
        (l : Bond)
        → last_of o bottom.nominations ≡ some b
        → last? top.nominations ≡ some l
        → highest_nomination_amount bottom ≤ lowest_nomination_amount top
        → lowest_nomination_amount top < b.amount + more
        → AreRelisted m.bond top bottom
            (insert_sorted_greatest_to_least
              (without_last top l)
              (record b { amount = sat_add b.amount more }))
            (insert_sorted_greatest_to_least (left o b.amount bottom) l)
    unfolding highest_nomination_amount lowest_nomination_amount
    raise_to_top l e le low goes =
        let raised : Bond = record b { amount = sat_add b.amount more } in
        let part = left o b.amount bottom in
        let rest = without_last top l in
        let single : holds o bottom.nominations ≤ 1 = omega (arith, v.unique o) in
        let p = without-IsPart o bottom b v.bottom_sorted v.bottom_total single e in
        let parts =
          without-last_of o 0 bottom.nominations b single (IsAbove-zero bottom.nominations) e in
        let cut = last?-parts top.nominations l le in
        let at_least : IsAbove l.amount top.nominations =
          last?-IsAbove top.nominations l v.top_sorted le in
        rw
          (
            insert_sorted_greatest_to_least-eq-insort rest raised
                (but_last-IsSorted top.nominations v.top_sorted),
            insert_sorted_greatest_to_least-eq-insort part l p.sorted,
          )
          (record {
            top_sorted =
                insort-IsSorted raised rest.nominations
                  (but_last-IsSorted top.nominations v.top_sorted);
            bottom_sorted = insort-IsSorted l part.nominations p.sorted;
            above =
                IsAbove-mono _ l.amount (insort raised rest.nominations)
                  (ground (arith, highest-insort l part.nominations, p.lower, le))
                  (insort-IsAbove l.amount raised rest.nominations (ground (arith, le, parts.0))
                    (but_last-IsAbove l.amount top.nominations at_least));
            top_total =
                ground (arith, sum-insort raised rest.nominations, cut.0, parts.0, v.top_total);
            bottom_total = ground (arith, sum-insort l part.nominations, cut.0, parts.0, p.covered);
            top_length = omega (arith, length-insort raised rest.nominations, cut.1);
            bottom_length = omega (arith, length-insort l part.nominations, parts.1);
            fits = ground (
              arith,
              sum-insort raised rest.nominations,
              sum-insort l part.nominations,
              cut.0,
              parts.0,
            );
            owned = λ q. omega (
              arith,
              holds-insort q raised rest.nominations,
              holds-insort q l part.nominations,
              holds-but_last q top.nominations l le,
              holds-without-last_of q o bottom.nominations b single e,
            );
          })
