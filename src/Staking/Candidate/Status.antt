-- ===== src/Staking/Candidate/Status.antt =====
-- `CandidateMetadata`: creation, status, commission, productivity and rewards.
use bifrost_node.Prelude.{
  ℕ, ◌+◌, ◌-◌, ◌%◌, Bool, true, false, not, Option, none, some, retain, leb, ◌==◌, if◌then◌else◌,
  update, u32_mod, add32, add128, sat_sub,
}
use bifrost_node.Staking.Nominations.{CapacityStatus}
use bifrost_node.Staking.Types.{
  CandidateMetadata, ValidatorStatus, ProductivityStatus, RewardDestination, TierType, is_full,
}
use bifrost_node.Staking.Storage.{
  Config, Storage, Result, ok, err, ◌>>◌, ensure, now, default_commission,
  candidate_already_leaving, pending_candidate_request_already_exists, candidate_cannot_leave_yet,
  candidate_not_leaving,
}

-- `Perbill::from_percent(100)`
abbrev pub one_perbill : ℕ
one_perbill = 1_000_000_000

abbrev pub is_none {ℓ} : {A : Type ℓ} → Option A → Bool
is_none none = true
is_none (some a) = false

pub is_active : CandidateMetadata → Bool
is_active m = elim m.status [
  | ValidatorStatus.active ↦ true
  | ValidatorStatus.idle ↦ false
  | ValidatorStatus.kicked_out ↦ false
  | ValidatorStatus.leaving when ↦ false
]

pub is_kicked_out : CandidateMetadata → Bool
is_kicked_out m = elim m.status [
  | ValidatorStatus.active ↦ false
  | ValidatorStatus.idle ↦ false
  | ValidatorStatus.kicked_out ↦ true
  | ValidatorStatus.leaving when ↦ false
]

pub is_leaving : CandidateMetadata → Bool
is_leaving m = elim m.status [
  | ValidatorStatus.active ↦ false
  | ValidatorStatus.idle ↦ false
  | ValidatorStatus.kicked_out ↦ false
  | ValidatorStatus.leaving when ↦ true
]

pub go_offline : CandidateMetadata → CandidateMetadata
go_offline m = record m { status = ValidatorStatus.idle; is_selected = false }

pub go_online : CandidateMetadata → CandidateMetadata
go_online m = record m { status = ValidatorStatus.active }

pub kick_out : CandidateMetadata → CandidateMetadata
kick_out m = record m { status = ValidatorStatus.kicked_out; is_selected = false }

pub slash_bond : ℕ → CandidateMetadata → CandidateMetadata
slash_bond bond m = record m { bond = sat_sub m.bond bond }

pub slash_voting_power : ℕ → CandidateMetadata → CandidateMetadata
slash_voting_power voting_power m = record m { voting_power = sat_sub m.voting_power voting_power }

pub set_commission : ℕ → CandidateMetadata → CandidateMetadata
set_commission commission m = record m { commission = commission }

pub set_reward_dst : RewardDestination → CandidateMetadata → CandidateMetadata
set_reward_dst dst m = record m { reward_dst = dst }

pub set_is_selected : Bool → CandidateMetadata → CandidateMetadata
set_is_selected is_selected m = record m { is_selected = is_selected }

pub set_last_block : ℕ → CandidateMetadata → CandidateMetadata
set_last_block block m = record m { last_block = block }

pub increment_blocks_produced : CandidateMetadata → CandidateMetadata
increment_blocks_produced m = record m { blocks_produced = add32 m.blocks_produced 1 }

pub increment_awarded_tokens : ℕ → CandidateMetadata → CandidateMetadata
increment_awarded_tokens tokens m = record m { awarded_tokens = add128 m.awarded_tokens tokens }

pub reset_blocks_produced : CandidateMetadata → CandidateMetadata
reset_blocks_produced m = record m { blocks_produced = 0 }

pub reset_productivity : CandidateMetadata → CandidateMetadata
reset_productivity m = record m {
  productivity = one_perbill;
  productivity_status = ProductivityStatus.idle;
}

module _ {L : Type 0} (c : Config L) where
  pub new : ℕ → ℕ → TierType → CandidateMetadata
  new stash bond tier = record {
    stash = stash;
    bond = bond;
    initial_bond = bond;
    nomination_count = 0;
    voting_power = bond;
    lowest_top_nomination_amount = 0;
    highest_bottom_nomination_amount = 0;
    lowest_bottom_nomination_amount = 0;
    top_capacity = CapacityStatus.empty;
    bottom_capacity = CapacityStatus.empty;
    request = none;
    status = ValidatorStatus.active;
    is_selected = false;
    commission = default_commission c tier;
    last_block = 0;
    blocks_produced = 0;
    productivity = one_perbill;
    productivity_status = ProductivityStatus.idle;
    reward_dst = RewardDestination.staked;
    awarded_tokens = 0;
    tier = tier;
  }

  pub schedule_leave : CandidateMetadata → Storage L → Result ((ℕ × ℕ) × CandidateMetadata)
  unfolding is_leaving
  schedule_leave m s = do
    ensure (not (is_leaving m)) candidate_already_leaving
    ensure (is_none m.request) pending_candidate_request_already_exists
    let when = (now s + c.leave_candidates_delay) % u32_mod
    ok ((now s, when), record m { status = ValidatorStatus.leaving when })

  pub can_leave : CandidateMetadata → Storage L → Result (Unit {0})
  can_leave m s = elim m.status [
    | ValidatorStatus.active ↦ err candidate_not_leaving
    | ValidatorStatus.idle ↦ err candidate_not_leaving
    | ValidatorStatus.kicked_out ↦ err candidate_not_leaving
    | ValidatorStatus.leaving when ↦ ensure (leb when (now s)) candidate_cannot_leave_yet
  ]

  pub reset_commission : ℕ → CandidateMetadata → Storage L → CandidateMetadata × Storage L
  reset_commission who m s = (
    record m {
      commission =
          if is_full m.tier
          then c.default_full_validator_commission
          else c.default_basic_validator_commission;
    },
    record s {
      delayed_commission_sets =
          update s.delayed_commission_sets (now s)
            (retain (λ d. not (d.who == who)) (s.delayed_commission_sets (now s)));
    },
  )

pub decrement_productivity : {L : Type 0} → Storage L → CandidateMetadata → CandidateMetadata
decrement_productivity s m = record m {
  productivity =
      if leb m.productivity s.productivity_per_block
      then 0
      else m.productivity - s.productivity_per_block;
}
