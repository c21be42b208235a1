-- ===== src/Staking/Tests/Election.antt =====
-- An election with three candidates for two full seats.
use bifrost_node.Prelude.{◌≡◌, refl, some, none, [], ◌∷◌, ltb, ◌==◌, if◌then◌else◌, sort_by}
use bifrost_node.Staking.Types.{TierType}
use bifrost_node.Staking.Storage.{Storage}
use bifrost_node.Staking.Election.{
  Seats, candidates, get_sorted_candidates, get_top_n_candidates, is_full_candidate,
  is_basic_candidate, compute_top_candidates,
}
use bifrost_node.Staking.Election.Elected.{IsElected, eligible, compute_top_candidates-IsElected}
use bifrost_node.Staking.Tests.Fixtures.{Reserved, config, candidate, storage}

abbrev seats : Seats
seats = record {
  max_full_selected = 2;
  max_basic_selected = 2;
  min_full_validator_stk = 100;
  min_basic_validator_stk = 60;
}

-- 7 to 10 are full candidates, 11 is a basic one, and nobody knows 20.
abbrev crowd : Storage Reserved
crowd = record storage {
  candidate_info = λ k.
      if ltb k 11
      then some candidate
      else if k == 11
      then some (record candidate { tier = TierType.basic })
      else none;
  candidate_pool = (7, 250) ∷ (8, 90) ∷ (9, 300) ∷ (10, 120) ∷ (11, 70) ∷ (20, 999) ∷ [];
}

elected_run : compute_top_candidates config crowd seats ≡ (7 ∷ 9 ∷ [], 11 ∷ [])
unfolding compute_top_candidates get_sorted_candidates get_top_n_candidates sort_by
elected_run = refl

compute_top_candidates-IsElected_example :
    IsElected
      (eligible (is_full_candidate config crowd) 100 (candidates crowd.candidate_pool))
      2
      (compute_top_candidates config crowd seats).0
    × IsElected
        (eligible (is_basic_candidate config crowd) 60 (candidates crowd.candidate_pool))
        2
        (compute_top_candidates config crowd seats).1
compute_top_candidates-IsElected_example = compute_top_candidates-IsElected config crowd seats
