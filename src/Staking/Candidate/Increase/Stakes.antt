-- ===== src/Staking/Candidate/Increase/Stakes.antt =====
-- What `increase_nomination` does to each nominator's stake, in the three cases that it has.
use bifrost_node.Prelude.{
  ℕ, ◌+◌, ◌≤◌, ◌<◌, ◌≡◌, true, false, some, List, arith, last?, sat_add, u128_mod,
}
use bifrost_node.Staking.Nominations.{
  Bond, Nominations, insert_sorted_greatest_to_least, sort_greatest_to_least,
}
use bifrost_node.Staking.Nominations.Order.{sum, but_last-IsSorted}
use bifrost_node.Staking.Nominations.Bounds.{IsAbove-zero}
use bifrost_node.Staking.Nominations.Owners.{
  holds, holds-insort, holds-sort_by_amount, holds-but_last,
}
use bifrost_node.Staking.Nominations.Stakes.{stake-insort, stake-sort_by_amount, stake-but_last}
use bifrost_node.Staking.Nominations.Part.{without_last}
use bifrost_node.Staking.Nominations.Search.{insert_sorted_greatest_to_least-eq-insort}
use bifrost_node.Staking.Types.{CandidateMetadata}
use bifrost_node.Staking.Storage.{Config}
use bifrost_node.Staking.Candidate.Metadata.{left, last_of, change_amount, added}
use bifrost_node.Staking.Candidate.Selection.{
  without-last_of, without-IsSorted, holds-change_amount,
}
use bifrost_node.Staking.Candidate.Restake.{
  stake_absent, stake-last_of, stake-without, stake-change_amount,
}
use bifrost_node.Staking.Candidate.Restaked.{AreRestaked}
use bifrost_node.Staking.Candidate.Increase.{increased}
use bifrost_node.Staking.Candidate.Valid.{IsValid}

module _ {L : Type 0} (c : Config L) where
  module _ (o more : ℕ) (b : Bond) {m : CandidateMetadata} {top bottom : Nominations}
      (v : IsValid c m top bottom)
      (fits : m.bond + sum top.nominations + sum bottom.nominations + more < u128_mod) where
    pub restake_in_top :
        last_of o top.nominations ≡ some b
        → AreRestaked true o (b.amount + more) top bottom (increased o more top) bottom
    unfolding sort_greatest_to_least added
    restake_in_top e =
        let xs : List Bond = top.nominations in
        let changed = change_amount o (added more) xs in
        let single : holds o xs ≤ 1 = omega (arith, v.unique o) in
        let parts = without-last_of o 0 xs b single (IsAbove-zero xs) e in
        record {
          place = omega (
            arith,
            holds-sort_by_amount o changed,
            holds-change_amount o o (added more) xs,
            parts.4,
          );
          own = ground (
            arith,
            stake-sort_by_amount o changed,
            stake-change_amount o o (added more) xs b single e,
            stake-last_of o xs b single e,
            stake_absent o bottom.nominations (omega (arith, parts.4, v.unique o)),
            parts.0,
            parts.2,
          );
          others = λ p ne. ground (
            arith,
            stake-sort_by_amount p changed,
            stake-change_amount p o (added more) xs b single e,
            parts.2,
          );
        }

    pub restake_in_bottom :
        last_of o bottom.nominations ≡ some b
        → AreRestaked false o (b.amount + more) top bottom top (increased o more bottom)
    unfolding sort_greatest_to_least added
    restake_in_bottom e =
        let xs : List Bond = bottom.nominations in
        let changed = change_amount o (added more) xs in
        let single : holds o xs ≤ 1 = omega (arith, v.unique o) in
        let parts = without-last_of o 0 xs b single (IsAbove-zero xs) e in
        record {
          place = omega (arith, parts.4, v.unique o);
          own = ground (
            arith,
            stake-sort_by_amount o changed,
            stake-change_amount o o (added more) xs b single e,
            stake-last_of o xs b single e,
            stake_absent o top.nominations (omega (arith, parts.4, v.unique o)),
            parts.0,
            parts.2,
          );
          others = λ p ne. ground (
            arith,
            stake-sort_by_amount p changed,
            stake-change_amount p o (added more) xs b single e,
            parts.2,
          );
        }

    pub restake_to_top :
        (l : Bond)
        → last_of o bottom.nominations ≡ some b
        → last? top.nominations ≡ some l
        → AreRestaked true o
            (b.amount + more)
            top
            bottom
            (insert_sorted_greatest_to_least
              (without_last top l)
              (record b { amount = sat_add b.amount more }))
            (insert_sorted_greatest_to_least (left o b.amount bottom) l)
    restake_to_top l e le =
        let raised : Bond = record b { amount = sat_add b.amount more } in
        let rest = without_last top l in
        let part = left o b.amount bottom in
        let xs : List Bond = bottom.nominations in
        let single : holds o xs ≤ 1 = omega (arith, v.unique o) in
        let parts = without-last_of o 0 xs b single (IsAbove-zero xs) e in
        rw
          (
            insert_sorted_greatest_to_least-eq-insort rest raised
                (but_last-IsSorted top.nominations v.top_sorted),
            insert_sorted_greatest_to_least-eq-insort part l
                (without-IsSorted o xs v.bottom_sorted),
          )
          (record {
            place = ground (
              arith,
              holds-insort o raised rest.nominations,
              holds-but_last o top.nominations l le,
              parts.4,
              parts.2,
              v.unique o,
            );
            own = ground (
              arith,
              stake-insort o raised rest.nominations,
              stake-insort o l part.nominations,
              stake-but_last o top.nominations l le,
              stake-without o o xs b single e,
              stake-last_of o xs b single e,
              stake_absent o top.nominations (omega (arith, parts.4, v.unique o)),
              parts.0,
              parts.2,
            );
            others = λ p ne. ground (
              arith,
              stake-insort p raised rest.nominations,
              stake-insort p l part.nominations,
              stake-but_last p top.nominations l le,
              stake-without p o xs b single e,
              parts.2,
            );
          })
