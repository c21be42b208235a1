-- ===== src/Staking/Candidate/Decrease/Stakes.antt =====
-- What `decrease_nomination` does to each nominator's stake, in the three cases that it has.
use bifrost_node.Prelude.{ℕ, ◌-◌, ◌≤◌, ◌≡◌, true, false, some, List, arith, first?, sat_sub}
use bifrost_node.Staking.Nominations.{
  Bond, Nominations, insert_sorted_greatest_to_least, sort_greatest_to_least,
}
use bifrost_node.Staking.Nominations.Bounds.{IsAbove-zero}
use bifrost_node.Staking.Nominations.Owners.{holds, holds-insort, holds-sort_by_amount, holds-tail}
use bifrost_node.Staking.Nominations.Stakes.{stake-insort, stake-sort_by_amount, stake-tail}
use bifrost_node.Staking.Nominations.Part.{without_first, tail-IsPart}
use bifrost_node.Staking.Nominations.Search.{insert_sorted_greatest_to_least-eq-insort}
use bifrost_node.Staking.Types.{CandidateMetadata}
use bifrost_node.Staking.Storage.{Config}
use bifrost_node.Staking.Candidate.Metadata.{last_of, change_amount, lowered}
use bifrost_node.Staking.Candidate.Selection.{
  without-last_of, without-IsSorted, holds-change_amount, holds-without-last_of,
}
use bifrost_node.Staking.Candidate.Restake.{
  stake_absent, stake-last_of, stake-without, stake-change_amount,
}
use bifrost_node.Staking.Candidate.Restaked.{AreRestaked}
use bifrost_node.Staking.Candidate.Decrease.{filtered, decreased, decreased_at_old_total}
use bifrost_node.Staking.Candidate.Valid.{IsValid}

module _ {L : Type 0} (c : Config L) where
  module _ (o less : ℕ) (b : Bond) {m : CandidateMetadata} {top bottom : Nominations}
      (v : IsValid c m top bottom) (enough : less ≤ b.amount) where
    pub restake_in_top :
        last_of o top.nominations ≡ some b
        → AreRestaked true o (b.amount - less) top bottom (decreased o less top) bottom
    unfolding sort_greatest_to_least lowered
    restake_in_top e =
        let xs : List Bond = top.nominations in
        let changed = change_amount o (lowered less) xs in
        let single : holds o xs ≤ 1 = omega (arith, v.unique o) in
        let parts = without-last_of o 0 xs b single (IsAbove-zero xs) e in
        record {
          place = omega (
            arith,
            holds-sort_by_amount o changed,
            holds-change_amount o o (lowered less) xs,
            parts.4,
          );
          own = ground (
            arith,
            stake-sort_by_amount o changed,
            stake-change_amount o o (lowered less) xs b single e,
            stake-last_of o xs b single e,
            stake_absent o bottom.nominations (omega (arith, parts.4, v.unique o)),
            parts.2,
          );
          others = λ p ne. ground (
            arith,
            stake-sort_by_amount p changed,
            stake-change_amount p o (lowered less) xs b single e,
            parts.2,
          );
        }

    pub restake_in_bottom :
        last_of o bottom.nominations ≡ some b
        → AreRestaked false o
            (b.amount - less)
            top
            bottom
            top
            (decreased_at_old_total o less bottom)
    unfolding sort_greatest_to_least lowered
    restake_in_bottom e =
        let xs : List Bond = bottom.nominations in
        let changed = change_amount o (lowered less) xs in
        let single : holds o xs ≤ 1 = omega (arith, v.unique o) in
        let parts = without-last_of o 0 xs b single (IsAbove-zero xs) e in
        record {
          place = omega (arith, parts.4, v.unique o);
          own = ground (
            arith,
            stake-sort_by_amount o changed,
            stake-change_amount o o (lowered less) xs b single e,
            stake-last_of o xs b single e,
            stake_absent o top.nominations (omega (arith, parts.4, v.unique o)),
            parts.2,
          );
          others = λ p ne. ground (
            arith,
            stake-sort_by_amount p changed,
            stake-change_amount p o (lowered less) xs b single e,
            parts.2,
          );
        }

    pub restake_to_bottom :
        (h : Bond)
        → last_of o top.nominations ≡ some b
        → first? bottom.nominations ≡ some h
        → AreRestaked false o
            (b.amount - less)
            top
            bottom
            (insert_sorted_greatest_to_least (filtered o top) h)
            (insert_sorted_greatest_to_least
              (without_first bottom h)
              (record b { amount = sat_sub b.amount less }))
    restake_to_bottom h e he =
        let reduced : Bond = record b { amount = sat_sub b.amount less } in
        let part = filtered o top in
        let rest = without_first bottom h in
        let xs : List Bond = top.nominations in
        let single : holds o xs ≤ 1 = omega (arith, v.unique o) in
        let parts = without-last_of o 0 xs b single (IsAbove-zero xs) e in
        rw
          (
            insert_sorted_greatest_to_least-eq-insort part h (without-IsSorted o xs v.top_sorted),
            insert_sorted_greatest_to_least-eq-insort rest reduced
                (tail-IsPart bottom h v.bottom_sorted v.bottom_total he).sorted,
          )
          (record {
            place = ground (
              arith,
              holds-insort o h part.nominations,
              holds-without-last_of o o xs b single e,
              holds-tail o bottom.nominations h he,
              parts.4,
              parts.2,
              v.unique o,
            );
            own = ground (
              arith,
              stake-insort o h part.nominations,
              stake-insort o reduced rest.nominations,
              stake-tail o bottom.nominations h he,
              stake-without o o xs b single e,
              stake-last_of o xs b single e,
              stake_absent o bottom.nominations (omega (arith, parts.4, v.unique o)),
              parts.2,
            );
            others = λ p ne. ground (
              arith,
              stake-insort p h part.nominations,
              stake-insort p reduced rest.nominations,
              stake-tail p bottom.nominations h he,
              stake-without p o xs b single e,
              parts.2,
            );
          })
