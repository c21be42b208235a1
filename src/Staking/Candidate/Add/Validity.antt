-- ===== src/Staking/Candidate/Add/Validity.antt =====
-- About the validity of a candidate after `add_nomination`.
use bifrost_node.Prelude.{
  ℕ, ◌+◌, ◌≤◌, ◌<◌, ◌≡◌, refl, inr, Bool, false, Option, none, some, List, arith, if◌then◌else◌,
  length, last?, but_last, u128_mod,
}
use bifrost_node.Staking.Nominations.{
  Bond, Nominations, insert_sorted_greatest_to_least, lowest_nomination_amount,
  highest_nomination_amount, amount_or_zero,
}
use bifrost_node.Staking.Nominations.Order.{
  sum, insort, insort-IsSorted, sum-insort, length-insort, but_last-IsSorted,
}
use bifrost_node.Staking.Nominations.Bounds.{
  IsAbove-mono, insort-IsAbove, but_last-IsAbove, lowest-IsAbove, le-lowest, highest-insort,
  last?-parts, le-last?, last?-IsAbove,
}
use bifrost_node.Staking.Nominations.Owners.{holds, holds-insort, holds-but_last}
use bifrost_node.Staking.Nominations.Search.{insert_sorted_greatest_to_least-eq-insort}
use bifrost_node.Staking.Types.{CandidateMetadata}
use bifrost_node.Staking.Storage.{Config, Storage}
use bifrost_node.Staking.Candidate.Metadata.{top_data, reset_top_data, reset_bottom_data}
use bifrost_node.Staking.Candidate.Add.{store_bottom, store_top}
use bifrost_node.Staking.Nominations.Part.{IsPart, without_last}
use bifrost_node.Staking.Candidate.Valid.{HasRoom, IsValid}

module _ {L : Type 0} (c : Config L) (room : HasRoom c) where
  -- A top that is not full takes one bond more; the bottom is empty then.
  pub grow_top :
      (k : ℕ) (b : Bond) (m : CandidateMetadata) (s : Storage L) (top bottom : Nominations)
      → IsValid c m top bottom
      → length top.nominations < c.max_top_nominations_per_candidate
      → m.bond + sum top.nominations + sum bottom.nominations + b.amount < u128_mod
      → holds b.owner top.nominations + holds b.owner bottom.nominations ≡ 0
      → IsValid c (store_top c none k b top m s).1 (insert_sorted_greatest_to_least top b) bottom
  unfolding store_top reset_top_data top_data highest_nomination_amount lowest_nomination_amount
  grow_top k b m s top bottom v space fits free =
      rw (insert_sorted_greatest_to_least-eq-insort top b v.top_sorted) (record {
        top_sorted = insort-IsSorted b top.nominations v.top_sorted;
        bottom_sorted = v.bottom_sorted;
        above = insort-IsAbove _ b top.nominations (ground arith) v.above;
        top_total = ground (arith, sum-insort b top.nominations);
        bottom_total = v.bottom_total;
        top_length = omega (arith, length-insort b top.nominations);
        bottom_length = v.bottom_length;
        filled = ground arith;
        lowest_top = refl;
        highest_bottom = v.highest_bottom;
        lowest_bottom = v.lowest_bottom;
        top_status = refl;
        bottom_status = v.bottom_status;
        power = ground (arith, sum-insort b top.nominations);
        counted = omega (arith, room.in_u32, length-insort b top.nominations);
        fits = omega (arith, sum-insort b top.nominations);
        unique = λ o. ground (arith, holds-insort o b top.nominations, v.unique o);
      })

  -- A full top lets its last bond go to the bottom and takes the higher one.
  abbrev pub Counts : Option ℕ → ℕ → ℕ → Type 0
  Counts none part whole = part ≡ whole
  Counts (some less) part whole = part + 1 ≡ whole

  pub swap_top :
      (k : ℕ) (b l : Bond) (less : Option ℕ) (m : CandidateMetadata) (s t : Storage L)
      (top bottom part : Nominations)
      → IsValid c m top bottom
      → IsPart part bottom
      → length part.nominations < c.max_bottom_nominations_per_candidate
      → length top.nominations ≡ c.max_top_nominations_per_candidate
      → Counts less (length part.nominations) (length bottom.nominations)
      → last? top.nominations ≡ some l
      → l.amount < b.amount
      → m.bond + sum top.nominations + sum bottom.nominations + b.amount < u128_mod
      → holds b.owner top.nominations + holds b.owner bottom.nominations ≡ 0
      → IsValid c
          (store_top c less k b (without_last top l) (store_bottom c false k l part m s).0 t).1
          (insert_sorted_greatest_to_least (without_last top l) b)
          (insert_sorted_greatest_to_least part l)
  unfolding store_top store_bottom reset_top_data top_data reset_bottom_data
      highest_nomination_amount lowest_nomination_amount
  swap_top k b l less m s t top bottom part v p space full count e high fits free =
      let xs : List Bond = top.nominations in
      let ys : List Bond = part.nominations in
      rw
        (
          insert_sorted_greatest_to_least-eq-insort (without_last top l) b
              (but_last-IsSorted xs v.top_sorted),
          insert_sorted_greatest_to_least-eq-insort part l p.sorted,
        )
        (record {
          top_sorted = insort-IsSorted b (but_last xs) (but_last-IsSorted xs v.top_sorted);
          bottom_sorted = insort-IsSorted l ys p.sorted;
          above =
              IsAbove-mono _ l.amount (insort b (but_last xs))
                (omega (arith, highest-insort l ys, p.lower, le-last? _ xs l v.above e))
                (insort-IsAbove l.amount b (but_last xs) (omega arith)
                  (but_last-IsAbove l.amount xs (last?-IsAbove xs l v.top_sorted e)));
          top_total = ground (arith, sum-insort b (but_last xs), last?-parts xs l e);
          bottom_total = ground (arith, sum-insort l ys, last?-parts xs l e);
          top_length = omega (arith, length-insort b (but_last xs), last?-parts xs l e);
          bottom_length = omega (arith, length-insort l ys);
          filled = inr (omega (arith, length-insort b (but_last xs), last?-parts xs l e));
          lowest_top = refl;
          highest_bottom = refl;
          lowest_bottom = refl;
          top_status = refl;
          bottom_status = refl;
          power = ground (arith, sum-insort b (but_last xs), last?-parts xs l e);
          counted = ground (
            arith,
            room.in_u32,
            length-insort b (but_last xs),
            length-insort l ys,
            last?-parts xs l e,
          );
          fits = omega (arith, sum-insort b (but_last xs), sum-insort l ys, last?-parts xs l e);
          unique = λ o. ground (
            arith,
            holds-insort o b (but_last xs),
            holds-insort o l ys,
            holds-but_last o xs l e,
            v.unique o,
            p.owned o,
          );
        })

  -- The bottom takes a bond that is not above the lowest top one.
  pub grow_bottom :
      (grows : Bool) (k : ℕ) (b : Bond) (m : CandidateMetadata) (s : Storage L)
      (top bottom part : Nominations)
      → IsValid c m top bottom
      → IsPart part bottom
      → length part.nominations < c.max_bottom_nominations_per_candidate
      → length top.nominations ≡ c.max_top_nominations_per_candidate
      → length part.nominations + 1 ≡ length bottom.nominations + (if grows then 1 else 0)
      → b.amount ≤ lowest_nomination_amount top
      → m.bond + sum top.nominations + sum bottom.nominations + b.amount < u128_mod
      → holds b.owner top.nominations + holds b.owner bottom.nominations ≡ 0
      → IsValid c (store_bottom c grows k b part m s).0 top (insert_sorted_greatest_to_least part b)
  unfolding store_bottom reset_bottom_data highest_nomination_amount lowest_nomination_amount
  grow_bottom grows k b m s top bottom part v p space full count low fits free =
      let xs : List Bond = top.nominations in
      let ys : List Bond = part.nominations in
      rw (insert_sorted_greatest_to_least-eq-insort part b p.sorted) (record {
        top_sorted = v.top_sorted;
        bottom_sorted = insort-IsSorted b ys p.sorted;
        above =
            IsAbove-mono _ (amount_or_zero (last? xs)) xs
              (ground (arith, room.top_room, highest-insort b ys, p.lower, le-lowest _ xs v.above))
              (lowest-IsAbove xs v.top_sorted);
        top_total = v.top_total;
        bottom_total = ground (arith, sum-insort b ys);
        top_length = v.top_length;
        bottom_length = omega (arith, length-insort b ys);
        filled = inr full;
        lowest_top = v.lowest_top;
        highest_bottom = refl;
        lowest_bottom = refl;
        top_status = v.top_status;
        bottom_status = refl;
        power = v.power;
        counted = ground (arith, room.in_u32, length-insort b ys);
        fits = omega (arith, sum-insort b ys);
        unique = λ o. ground (arith, holds-insort o b ys, v.unique o, p.owned o);
      })
