-- ===== src/Staking/Types.antt =====
-- pallets/bfc-staking/src/lib.rs: the records and enums of the pallet's storage.
use bifrost_node.Prelude.{ℕ, Bool, Option, Dict}
use bifrost_node.Staking.Nominations.{CapacityStatus}

pub data ValidatorStatus : Type 0 where
  active idle kicked_out : ValidatorStatus
  leaving : ℕ → ValidatorStatus

pub data ProductivityStatus : Type 0 where
  active idle ready : ProductivityStatus

pub data RewardDestination : Type 0 where
  staked account : RewardDestination

-- primitives/bfc-staking/src/lib.rs
pub data TierType : Type 0 where
  full basic all : TierType

abbrev pub is_full : TierType → Bool
is_full TierType.full = Bool.true
is_full TierType.basic = Bool.false
is_full TierType.all = Bool.false

pub record CandidateBondLessRequest : Type 0 where
  pub amount : ℕ
  pub when_executable : ℕ

-- A `Perbill` is its number of parts in 1,000,000,000.
pub record CandidateMetadata : Type 0 where
  pub stash : ℕ
  pub bond : ℕ
  pub initial_bond : ℕ
  pub nomination_count : ℕ
  pub voting_power : ℕ
  pub lowest_top_nomination_amount : ℕ
  pub highest_bottom_nomination_amount : ℕ
  pub lowest_bottom_nomination_amount : ℕ
  pub top_capacity : CapacityStatus
  pub bottom_capacity : CapacityStatus
  pub request : Option CandidateBondLessRequest
  pub status : ValidatorStatus
  pub is_selected : Bool
  pub commission : ℕ
  pub last_block : ℕ
  pub blocks_produced : ℕ
  pub productivity : ℕ
  pub productivity_status : ProductivityStatus
  pub reward_dst : RewardDestination
  pub awarded_tokens : ℕ
  pub tier : TierType

pub data NominatorAdded : Type 0 where
  added_to_top : ℕ → NominatorAdded
  added_to_bottom : NominatorAdded

pub data NominatorStatus : Type 0 where
  active : NominatorStatus
  leaving : ℕ → NominatorStatus

pub data NominationChange : Type 0 where
  revoke decrease : NominationChange

pub record NominationRequest : Type 0 where
  pub validator : ℕ
  pub amount : ℕ
  pub when_executable : ℕ
  pub action : NominationChange

pub record PendingNominationRequests : Type 0 where
  pub revocations_count : ℕ
  pub requests : Dict NominationRequest
  pub less_total : ℕ

pub record Nominator : Type 0 where
  pub id : ℕ
  pub nominations : Dict ℕ
  pub initial_nominations : Dict ℕ
  pub total : ℕ
  pub requests : PendingNominationRequests
  pub status : NominatorStatus
  pub reward_dst : RewardDestination
  pub awarded_tokens : ℕ
  pub awarded_tokens_per_candidate : Dict ℕ

pub record RoundInfo : Type 0 where
  pub current_round_index : ℕ
  pub first_session_index : ℕ
  pub current_session_index : ℕ
  pub first_round_block : ℕ
  pub first_session_block : ℕ
  pub current_block : ℕ
  pub round_length : ℕ
  pub session_length : ℕ

pub record DelayedCommissionSet : Type 0 where
  pub who : ℕ
  pub old : ℕ
  pub new : ℕ
