-- ===== src/Staking/Execution/Frame.antt =====
-- What the calls on a candidate's nominations leave alone in the storage.
use bifrost_node.Prelude.{ℕ, ◌≡◌, arith, Bool}
use bifrost_node.Staking.Types.{CandidateMetadata}
use bifrost_node.Staking.Storage.{Config, Storage, ok, update_active}
use bifrost_node.Staking.Candidate.Metadata.{reset_top_data, put_top, put_bottom}
use bifrost_node.Staking.Candidate.Remove.{
  rm_nomination_if_exists, rm_top_nomination, rm_bottom_nomination, bump_up, store_reduced_top,
  store_reduced_bottom,
}
use bifrost_node.Staking.Candidate.Increase.{
  increase_nomination, increase_top_nomination, increase_bottom_nomination, store_raised,
}
use bifrost_node.Staking.Candidate.Decrease.{
  decrease_nomination, decrease_top_nomination, decrease_bottom_nomination, store_swapped,
  swap_down,
}

module _ {L : Type 0} (c : Config L) where
  -- The ledger, the total and the records of the candidates and the nominators.
  abbrev pub IsFramed : Storage L → Storage L → Type 0
  IsFramed s s' =
      (s'.ledger ≡ s.ledger)
      × (s'.total ≡ s.total)
      × (s'.candidate_info ≡ s.candidate_info)
      × (s'.nominator_state ≡ s.nominator_state)

  pub increase_nomination-IsFramed :
      (k o amount more : ℕ) (m m' : CandidateMetadata) (s s' : Storage L) (flag : Bool)
      → increase_nomination c k o amount more m s ≡ ok (flag, m', s')
      → IsFramed s s'
  unfolding increase_nomination increase_top_nomination increase_bottom_nomination store_raised
      put_top put_bottom reset_top_data update_active
  increase_nomination-IsFramed k o amount more m m' s s' flag h = ground arith

  pub decrease_nomination-IsFramed :
      (k o amount less : ℕ) (m m' : CandidateMetadata) (s s' : Storage L) (flag : Bool)
      → decrease_nomination c k o amount less m s ≡ ok (flag, m', s')
      → IsFramed s s'
  unfolding decrease_nomination decrease_top_nomination decrease_bottom_nomination swap_down
      store_swapped put_top put_bottom reset_top_data update_active
  decrease_nomination-IsFramed k o amount less m m' s s' flag h = ground arith

  pub rm_nomination_if_exists-IsFramed :
      (k o amount : ℕ) (m m' : CandidateMetadata) (s s' : Storage L) (flag : Bool)
      → rm_nomination_if_exists c k o amount m s ≡ ok (flag, m', s')
      → IsFramed s s'
  unfolding rm_nomination_if_exists rm_top_nomination rm_bottom_nomination bump_up store_reduced_top
      store_reduced_bottom reset_top_data update_active
  rm_nomination_if_exists-IsFramed k o amount m m' s s' flag h = ground arith
