-- ===== src/Staking/Candidate/Relist.antt =====
-- New lists of the same lengths in a candidate, and the storage that takes them.
use bifrost_node.Prelude.{ℕ, ◌+◌, ◌≤◌, ◌<◌, ◌≡◌, refl, Bool, some, arith, length, u128_mod}
use bifrost_node.Staking.Nominations.{Nominations, highest_nomination_amount}
use bifrost_node.Staking.Nominations.Order.{IsSorted, sum}
use bifrost_node.Staking.Nominations.Bounds.{IsAbove}
use bifrost_node.Staking.Nominations.Owners.{holds}
use bifrost_node.Staking.Types.{CandidateMetadata}
use bifrost_node.Staking.Storage.{Config, Storage, update_active}
use bifrost_node.Staking.Candidate.Metadata.{
  top_data, reset_top_data, reset_bottom_data, put_top, put_bottom,
}
use bifrost_node.Staking.Candidate.Valid.{IsValid, no_bonds}

-- Lists that can take the places of others.
pub record AreRelisted (bond : ℕ) (top bottom top' bottom' : Nominations) : Type 0 where
  pub top_sorted : IsSorted top'.nominations
  pub bottom_sorted : IsSorted bottom'.nominations
  pub above : IsAbove (highest_nomination_amount bottom') top'.nominations
  pub top_total : top'.total ≡ sum top'.nominations
  pub bottom_total : sum bottom'.nominations ≤ bottom'.total
  pub top_length : length top'.nominations ≡ length top.nominations
  pub bottom_length : length bottom'.nominations ≡ length bottom.nominations
  pub fits : bond + sum top'.nominations + sum bottom'.nominations < u128_mod
  pub owned :
      (o : ℕ)
      → holds o top'.nominations + holds o bottom'.nominations
        ≡ holds o top.nominations + holds o bottom.nominations

module _ {L : Type 0} (c : Config L) where
  module _ {m : CandidateMetadata} {top bottom top' bottom' : Nominations}
      (v : IsValid c m top bottom) (r : AreRelisted m.bond top bottom top' bottom') where
    pub relist_both : IsValid c (reset_bottom_data c bottom' (top_data c top' m)) top' bottom'
    unfolding reset_bottom_data top_data
    relist_both = record {
      top_sorted = r.top_sorted;
      bottom_sorted = r.bottom_sorted;
      above = r.above;
      top_total = r.top_total;
      bottom_total = r.bottom_total;
      top_length = omega (arith, r.top_length, v.top_length);
      bottom_length = omega (arith, r.bottom_length, v.bottom_length);
      filled =
          ground (arith, v.filled, r.top_length, r.bottom_length, no_bonds bottom'.nominations);
      lowest_top = refl;
      highest_bottom = refl;
      lowest_bottom = refl;
      top_status = refl;
      bottom_status = refl;
      power = ground (arith, r.fits, r.top_total);
      counted = omega (arith, v.counted, r.top_length, r.bottom_length);
      fits = r.fits;
      unique = λ o. omega (arith, r.owned o, v.unique o);
    }

  module _ {m : CandidateMetadata} {top bottom top' : Nominations} (v : IsValid c m top bottom)
      (r : AreRelisted m.bond top bottom top' bottom) where
    pub relist_top : IsValid c (top_data c top' m) top' bottom
    unfolding top_data
    relist_top = record {
      top_sorted = r.top_sorted;
      bottom_sorted = r.bottom_sorted;
      above = r.above;
      top_total = r.top_total;
      bottom_total = r.bottom_total;
      top_length = omega (arith, r.top_length, v.top_length);
      bottom_length = v.bottom_length;
      filled = ground (arith, v.filled, r.top_length);
      lowest_top = refl;
      highest_bottom = v.highest_bottom;
      lowest_bottom = v.lowest_bottom;
      top_status = refl;
      bottom_status = v.bottom_status;
      power = ground (arith, r.fits, r.top_total);
      counted = omega (arith, v.counted, r.top_length);
      fits = r.fits;
      unique = λ o. omega (arith, r.owned o, v.unique o);
    }

  module _ {m : CandidateMetadata} {top bottom bottom' : Nominations} (v : IsValid c m top bottom)
      (r : AreRelisted m.bond top bottom top bottom') where
    pub relist_bottom : IsValid c (reset_bottom_data c bottom' m) top bottom'
    unfolding reset_bottom_data
    relist_bottom = record {
      top_sorted = v.top_sorted;
      bottom_sorted = r.bottom_sorted;
      above = r.above;
      top_total = v.top_total;
      bottom_total = r.bottom_total;
      top_length = v.top_length;
      bottom_length = omega (arith, r.bottom_length, v.bottom_length);
      filled = ground (arith, v.filled, r.bottom_length, no_bonds bottom'.nominations);
      lowest_top = v.lowest_top;
      highest_bottom = refl;
      lowest_bottom = refl;
      top_status = v.top_status;
      bottom_status = refl;
      power = v.power;
      counted = omega (arith, v.counted, r.bottom_length);
      fits = r.fits;
      unique = λ o. omega (arith, r.owned o, v.unique o);
    }

  -- What the two writes store, and what they leave alone.
  pub put_top-stored :
      (flag : Bool) (k : ℕ) (top : Nominations) (m : CandidateMetadata) (s : Storage L)
      → let (flag', m', s') = put_top c flag k top m s in
        (s'.top_nominations k ≡ some top)
        × (s'.bottom_nominations ≡ s.bottom_nominations)
        × (m' ≡ top_data c top m)
        × (flag' ≡ flag)
  unfolding put_top reset_top_data update_active
  put_top-stored flag k top m s = (ground arith, ground arith, refl, refl)

  pub put_bottom-stored :
      (flag : Bool) (k : ℕ) (bottom : Nominations) (m : CandidateMetadata) (s : Storage L)
      → let (flag', m', s') = put_bottom c flag k bottom m s in
        (s'.bottom_nominations k ≡ some bottom)
        × (s'.top_nominations ≡ s.top_nominations)
        × (m' ≡ reset_bottom_data c bottom m)
        × (flag' ≡ flag)
  unfolding put_bottom
  put_bottom-stored flag k bottom m s = (ground arith, refl, refl, refl)
