-- ===== src/Staking/Candidate/Decrease/Total.antt =====
-- The stored total of the bottom after a decrease there.
use bifrost_node.Prelude.{ℕ, ◌+◌, ◌≤◌, ◌≡◌, refl, false, some, arith}
use bifrost_node.Staking.Nominations.{Bond, Nominations, sort_greatest_to_least}
use bifrost_node.Staking.Nominations.Order.{sum, sum-sort_by_amount}
use bifrost_node.Staking.Nominations.Bounds.{IsAbove-zero}
use bifrost_node.Staking.Nominations.Owners.{holds}
use bifrost_node.Staking.Types.{CandidateMetadata}
use bifrost_node.Staking.Storage.{Config, Storage, ok}
use bifrost_node.Staking.Candidate.Metadata.{last_of, change_amount, lowered, put_bottom}
use bifrost_node.Staking.Candidate.Selection.{without-last_of, sum-change_amount}
use bifrost_node.Staking.Candidate.Relist.{put_bottom-stored}
use bifrost_node.Staking.Candidate.Decrease.{decreased_at_old_total, decrease_bottom_nomination}
use bifrost_node.Staking.Candidate.Decrease.Lowering.{decrease_bottom_nomination-eq}

module _ {L : Type 0} (c : Config L) where
  -- A decrease of a bottom nomination succeeds and lowers the sum of the bottom by what it takes,
  -- but the total that it stores with the list is the one from before.
  pub decrease_bottom_nomination-total :
      (k o less : ℕ) (b : Bond) (m : CandidateMetadata) (s : Storage L) (bottom : Nominations)
      → s.bottom_nominations k ≡ some bottom
      → holds o bottom.nominations ≤ 1
      → last_of o bottom.nominations ≡ some b
      → less ≤ b.amount
      → (m' : CandidateMetadata) × (s' : Storage L) × (bottom' : Nominations)
        × (decrease_bottom_nomination c k o less m s ≡ ok (false, m', s'))
        × (s'.bottom_nominations k ≡ some bottom')
        × (sum bottom'.nominations + less ≡ sum bottom.nominations)
        × (bottom'.total ≡ bottom.total)
  unfolding sort_greatest_to_least lowered put_bottom
  decrease_bottom_nomination-total k o less b m s bottom stored single e enough =
      let bottom' = decreased_at_old_total o less bottom in
      let xs = change_amount o (lowered less) bottom.nominations in
      let parts = without-last_of o 0 bottom.nominations b single (IsAbove-zero _) e in
      (
        _,
        _,
        bottom',
        decrease_bottom_nomination-eq c k o less b m s bottom stored e,
        (put_bottom-stored c false k bottom' m s).0,
        ground (
          arith,
          sum-sort_by_amount xs,
          sum-change_amount o (lowered less) bottom.nominations b single e,
          parts.0,
        ),
        refl,
      )
