-- ===== src/Staking/Tests/Fixtures.antt =====
-- A small configuration, a candidate with its lists, and the storage that holds them.
use bifrost_node.Prelude.{
  ℕ, ◌+◌, ◌-◌, ◌==◌, none, some, [], ◌∷◌, update, if◌then◌else◌, false, arith, refl, inr,
}
use bifrost_node.Staking.Nominations.{
  Bond, Nominations, CapacityStatus, top_capacity, bottom_capacity, lowest_nomination_amount,
  highest_nomination_amount,
}
use bifrost_node.Staking.Types.{
  CandidateMetadata, Nominator, NominatorStatus, RewardDestination, RoundInfo, TierType,
  ValidatorStatus, ProductivityStatus,
}
use bifrost_node.Staking.Storage.{Config, Storage}
use bifrost_node.Staking.Requests.{no_requests}
use bifrost_node.Staking.Candidate.Valid.{HasRoom, IsBacked}

-- The reserved balance of each account; every reserve succeeds.
abbrev pub Reserved : Type 0
Reserved = ℕ → ℕ

abbrev pub config : Config Reserved
config = record {
  max_top_nominations_per_candidate = 2;
  max_bottom_nominations_per_candidate = 2;
  min_full_candidate_stk = 100;
  min_basic_candidate_stk = 50;
  min_nomination = 5;
  min_nominator_stk = 5;
  leave_candidates_delay = 2;
  candidate_bond_less_delay = 2;
  leave_nominators_delay = 2;
  revoke_nomination_delay = 2;
  nomination_bond_less_delay = 2;
  default_full_validator_commission = 500_000_000;
  default_basic_validator_commission = 100_000_000;
  reserve = λ who amount l. some (update l who (l who + amount));
  unreserve = λ who amount l. update l who (l who - amount);
}

abbrev pub bond : ℕ → ℕ → Bond
bond owner amount = record { owner = owner; amount = amount }

abbrev pub top : Nominations
top = record { nominations = bond 11 30 ∷ bond 12 20 ∷ []; total = 50 }

abbrev pub bottom : Nominations
bottom = record { nominations = bond 13 10 ∷ []; total = 10 }

abbrev pub nominator : ℕ → ℕ → Nominator
nominator id amount = record {
  id = id;
  nominations = (7, amount) ∷ [];
  initial_nominations = (7, amount) ∷ [];
  total = amount;
  requests = no_requests;
  status = NominatorStatus.active;
  reward_dst = RewardDestination.staked;
  awarded_tokens = 0;
  awarded_tokens_per_candidate = (7, 0) ∷ [];
}

abbrev pub candidate : CandidateMetadata
candidate = record {
  stash = 70;
  bond = 200;
  initial_bond = 200;
  nomination_count = 3;
  voting_power = 250;
  lowest_top_nomination_amount = 20;
  highest_bottom_nomination_amount = 10;
  lowest_bottom_nomination_amount = 10;
  top_capacity = CapacityStatus.full;
  bottom_capacity = CapacityStatus.partial;
  request = none;
  status = ValidatorStatus.active;
  is_selected = false;
  commission = 500_000_000;
  last_block = 0;
  blocks_produced = 0;
  productivity = 1_000_000_000;
  productivity_status = ProductivityStatus.idle;
  reward_dst = RewardDestination.staked;
  awarded_tokens = 0;
  tier = TierType.full;
}

abbrev pub round : RoundInfo
round = record {
  current_round_index = 5;
  first_session_index = 1;
  current_session_index = 1;
  first_round_block = 100;
  first_session_block = 100;
  current_block = 110;
  round_length = 20;
  session_length = 200;
}

abbrev pub storage : Storage Reserved
storage = record {
  candidate_info = λ k. if k == 7 then some candidate else none;
  top_nominations = λ k. if k == 7 then some top else none;
  bottom_nominations = λ k. if k == 7 then some bottom else none;
  nominator_state = λ k.
      if k == 11
      then some (nominator 11 30)
      else if k == 12
      then some (nominator 12 20)
      else if k == 13
      then some (nominator 13 10)
      else none;
  candidate_pool = (7, 250) ∷ [];
  total = 260;
  round = round;
  session = 1;
  productivity_per_block = 10_000_000;
  delayed_commission_sets = λ k. [];
  ledger = λ k. 0;
  events = [];
}

pub config-HasRoom : HasRoom config
config-HasRoom = record { top_room = omega arith; bottom_room = omega arith; in_u32 = omega arith }

pub candidate-IsBacked : IsBacked config 7 candidate storage top bottom
unfolding top_capacity bottom_capacity lowest_nomination_amount highest_nomination_amount
candidate-IsBacked = record {
  stored_top = refl;
  stored_bottom = refl;
  valid = record {
    top_sorted = omega arith;
    bottom_sorted = tt;
    above = omega arith;
    top_total = refl;
    bottom_total = omega arith;
    top_length = omega arith;
    bottom_length = omega arith;
    filled = inr refl;
    lowest_top = refl;
    highest_bottom = refl;
    lowest_bottom = refl;
    top_status = refl;
    bottom_status = refl;
    power = refl;
    counted = refl;
    fits = omega arith;
    unique = λ o. ground arith;
  };
}
