-- ===== src/Staking/Candidate/Remove/Validity.antt =====
-- About the validity of a candidate after `rm_nomination_if_exists`.
use bifrost_node.Prelude.{ℕ, ◌+◌, ◌≤◌, ◌≡◌, refl, inl, some, List, [], ◌∷◌, arith, length, first?}
use bifrost_node.Staking.Nominations.{
  Bond, Nominations, insert_sorted_greatest_to_least, highest_nomination_amount,
}
use bifrost_node.Staking.Nominations.Order.{sum, insort, insort-IsSorted, sum-insort, length-insort}
use bifrost_node.Staking.Nominations.Bounds.{IsAbove, IsAbove-mono, IsAbove-zero, insort-IsAbove}
use bifrost_node.Staking.Nominations.Owners.{holds-insort, holds-tail}
use bifrost_node.Staking.Nominations.Part.{IsPart, without_first, tail-IsPart, first?-parts}
use bifrost_node.Staking.Nominations.Search.{insert_sorted_greatest_to_least-eq-insort}
use bifrost_node.Staking.Types.{CandidateMetadata}
use bifrost_node.Staking.Storage.{Config, Storage}
use bifrost_node.Staking.Candidate.Metadata.{top_data, reset_top_data, reset_bottom_data}
use bifrost_node.Staking.Candidate.Remove.{store_reduced_top, store_reduced_bottom}
use bifrost_node.Staking.Candidate.Valid.{HasRoom, IsValid}

no_part : (xs ys : List Bond) → length xs ≤ length ys → ys ≡ [] → xs ≡ []
no_part [] ys h e = refl
no_part (x ∷ xs) [] h e = elim h [ ]
no_part (x ∷ xs) (y ∷ ys) h e = cc

module _ {L : Type 0} (c : Config L) (room : HasRoom c) where
  -- A bond leaves the bottom.
  pub shrink_bottom :
      (k : ℕ) (m : CandidateMetadata) (s : Storage L) (top bottom part : Nominations)
      → IsValid c m top bottom
      → IsPart part bottom
      → length part.nominations + 1 ≡ length bottom.nominations
      → IsValid c (store_reduced_bottom c k part m s).1 top part
  unfolding store_reduced_bottom reset_bottom_data highest_nomination_amount
  shrink_bottom k m s top bottom part v p count = record {
    top_sorted = v.top_sorted;
    bottom_sorted = p.sorted;
    above = IsAbove-mono _ _ top.nominations p.lower v.above;
    top_total = v.top_total;
    bottom_total = p.covered;
    top_length = v.top_length;
    bottom_length = omega arith;
    filled = ground (arith, v.filled, no_part part.nominations bottom.nominations p.shorter);
    lowest_top = v.lowest_top;
    highest_bottom = refl;
    lowest_bottom = refl;
    top_status = v.top_status;
    bottom_status = refl;
    power = v.power;
    counted = omega arith;
    fits = omega (arith, p.less);
    unique = λ o. omega (arith, v.unique o, p.owned o);
  }

  -- A bond leaves the top while the bottom is empty.
  pub shrink_top :
      (k old : ℕ) (m : CandidateMetadata) (s : Storage L) (top bottom part : Nominations)
      → IsValid c m top bottom
      → IsPart part top
      → part.total ≡ sum part.nominations
      → length part.nominations + 1 ≡ length top.nominations
      → bottom.nominations ≡ []
      → IsValid c (store_reduced_top c k old (part, m, s)).1 part bottom
  unfolding store_reduced_top reset_top_data top_data highest_nomination_amount
  shrink_top k old m s top bottom part v p total count none_below = record {
    top_sorted = p.sorted;
    bottom_sorted = v.bottom_sorted;
    above = rw none_below (IsAbove-zero part.nominations);
    top_total = total;
    bottom_total = v.bottom_total;
    top_length = omega arith;
    bottom_length = v.bottom_length;
    filled = inl none_below;
    lowest_top = refl;
    highest_bottom = v.highest_bottom;
    lowest_bottom = v.lowest_bottom;
    top_status = refl;
    bottom_status = v.bottom_status;
    power = ground (arith, p.less);
    counted = omega arith;
    fits = omega (arith, p.less);
    unique = λ o. omega (arith, v.unique o, p.owned o);
  }

  -- A bond leaves the top and the highest one of the bottom takes its place.
  pub refill_top :
      (k old : ℕ) (h : Bond) (m : CandidateMetadata) (s : Storage L) (top bottom part : Nominations)
      → IsValid c m top bottom
      → IsPart part top
      → part.total ≡ sum part.nominations
      → length part.nominations + 1 ≡ length top.nominations
      → IsAbove (highest_nomination_amount bottom) part.nominations
      → first? bottom.nominations ≡ some h
      → IsValid c
          (store_reduced_top c k old (
            insert_sorted_greatest_to_least part h,
            reset_bottom_data c (without_first bottom h) m,
            s,
          )).1
          (insert_sorted_greatest_to_least part h)
          (without_first bottom h)
  unfolding store_reduced_top reset_top_data top_data reset_bottom_data highest_nomination_amount
  refill_top k old h m s top bottom part v p total count above e =
      let xs : List Bond = part.nominations in
      let q = tail-IsPart bottom h v.bottom_sorted v.bottom_total e in
      let parts = first?-parts bottom.nominations h e in
      rw (insert_sorted_greatest_to_least-eq-insort part h p.sorted) (record {
        top_sorted = insort-IsSorted h xs p.sorted;
        bottom_sorted = q.sorted;
        above = IsAbove-mono _ _ (insort h xs) q.lower (insort-IsAbove _ h xs (ground arith) above);
        top_total = ground (arith, sum-insort h xs, p.less);
        bottom_total = q.covered;
        top_length = omega (arith, length-insort h xs);
        bottom_length = omega arith;
        filled = ground (arith, v.filled, length-insort h xs);
        lowest_top = refl;
        highest_bottom = refl;
        lowest_bottom = refl;
        top_status = refl;
        bottom_status = refl;
        power = ground (arith, sum-insort h xs, p.less);
        counted = omega (arith, length-insort h xs);
        fits = omega (arith, sum-insort h xs, p.less);
        unique = λ o. omega (
          arith,
          v.unique o,
          p.owned o,
          holds-insort o h xs,
          holds-tail o bottom.nominations h e,
        );
      })
