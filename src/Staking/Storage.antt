-- ===== src/Staking/Storage.antt =====
-- The storage of pallets/bfc-staking that the nomination code reads and writes, the pallet's
-- configuration, its errors and its events.
-- The balances pallet is not part of the repository: its ledger is a type `L`, and `reserve` and
-- `unreserve` are fields of the configuration.
use bifrost_node.Prelude.{
  ◌⊎◌, inl, inr, ◌≡◌, refl, ℕ, Bool, true, false, Option, none, some, List, ◌∷◌, Dict, put_existing,
}
use bifrost_node.Staking.Nominations.{Nominations}
use bifrost_node.Staking.Types.{
  CandidateMetadata, Nominator, RoundInfo, DelayedCommissionSet, TierType, RewardDestination,
  NominationRequest, NominatorAdded,
}

pub data Error : Type 0 where
  nominator_dne candidate_dne stash_dne nomination_dne top_nomination_dne : Error
  bottom_nomination_dne commission_set_dne controller_set_dne nominator_exists : Error
  candidate_exists candidate_bond_below_min insufficient_balance : Error
  nominator_bond_below_min nomination_below_min already_offline already_active : Error
  already_bonded already_paired nominator_already_leaving nominator_not_leaving : Error
  nominator_cannot_leave_yet cannot_nominate_if_leaving candidate_already_leaving : Error
  candidate_not_leaving candidate_cannot_leave_yet cannot_go_online_if_leaving : Error
  cannot_leave_if_offline cannot_leave_if_controller_set_requested : Error
  cannot_leave_if_commission_set_requested exceed_max_nominations_per_nominator : Error
  already_nominated_candidate already_controller_set_requested : Error
  already_commission_set_requested invalid_schedule invalid_tier_type : Error
  cannot_set_below_min cannot_set_below_one cannot_set_above_max : Error
  round_length_must_be_at_least_total_selected_validators : Error
  round_length_must_be_longer_than_created_blocks no_writing_same_value : Error
  too_many_candidates too_many_delayed_controllers too_many_delayed_commissions : Error
  too_low_candidate_count_weight_hint_join_candidates : Error
  too_low_candidate_count_weight_hint_cancel_leave_candidates : Error
  too_low_candidate_count_to_leave_candidates too_low_nomination_count_to_nominate : Error
  too_low_candidate_nomination_count_to_nominate : Error
  too_low_candidate_nomination_count_to_leave_candidates : Error
  too_low_nomination_count_to_leave_nominators pending_candidate_requests_dne : Error
  pending_candidate_request_already_exists pending_candidate_request_not_due_yet : Error
  pending_nomination_request_dne pending_nomination_request_already_exists : Error
  pending_nomination_request_not_due_yet : Error
  cannot_nominate_less_than_lowest_bottom_when_bottom_is_full : Error
  -- What `Currency::reserve` returns.
  currency_error : Error
  -- `Vec::remove(0)` on an empty vector panics.
  panic : Error

-- `DispatchResult` and its kin.
pub data Result {ℓ} (X : Type ℓ) : Type ℓ where
  err : Error → Result X
  ok : X → Result X

-- `?` on a result.
infixl 5 ◌>>=◌ ◌>>◌
abbrev pub ◌>>=◌ {ℓ κ} : {X : Type ℓ} {Y : Type κ} → Result X → (X → Result Y) → Result Y
err failure >>= next = err failure
ok x >>= next = next x

abbrev pub ◌>>◌ {κ} : {Y : Type κ} → Result (Unit {0}) → Result Y → Result Y
first >> next = first >>= λ done. next

-- `ensure!`
abbrev pub ensure : Bool → Error → Result (Unit {0})
ensure true e = ok tt
ensure false e = err e

-- `Option::ok_or`
abbrev pub ok_or {ℓ} : {A : Type ℓ} → Option A → Error → Result A
ok_or none e = err e
ok_or (some a) e = ok a

pub data Event : Type 0 where
  new_round : ℕ → ℕ → ℕ → ℕ → Event
  joined_validator_candidates : ℕ → ℕ → ℕ → Event
  validator_chosen : ℕ → ℕ → ℕ → Event
  candidate_bond_less_requested : ℕ → ℕ → ℕ → Event
  candidate_bonded_more : ℕ → ℕ → ℕ → Event
  candidate_bonded_less : ℕ → ℕ → ℕ → Event
  candidate_went_offline : ℕ → Event
  candidate_back_online : ℕ → Event
  candidate_scheduled_exit : ℕ → ℕ → ℕ → Event
  cancelled_candidate_exit : ℕ → Event
  cancelled_candidate_bond_less : ℕ → ℕ → ℕ → Event
  candidate_left : ℕ → ℕ → ℕ → Event
  nomination_decrease_scheduled : ℕ → ℕ → ℕ → ℕ → Event
  nomination_increased : ℕ → ℕ → ℕ → Bool → Event
  nomination_decreased : ℕ → ℕ → ℕ → Bool → Event
  nominator_exit_scheduled : ℕ → ℕ → ℕ → Event
  nomination_revocation_scheduled : ℕ → ℕ → ℕ → ℕ → Event
  nominator_left : ℕ → ℕ → Event
  nomination_revoked : ℕ → ℕ → ℕ → Event
  nomination_kicked : ℕ → ℕ → ℕ → Event
  nominator_exit_cancelled : ℕ → Event
  cancelled_nomination_request : ℕ → NominationRequest → Event
  nomination : ℕ → ℕ → ℕ → NominatorAdded → Event
  nominator_left_candidate : ℕ → ℕ → ℕ → ℕ → Event
  rewarded : ℕ → ℕ → Event
  inflation_set : ℕ → ℕ → ℕ → ℕ → ℕ → ℕ → Event
  stake_expectations_set : ℕ → ℕ → ℕ → Event
  max_full_selected_set : ℕ → ℕ → Event
  max_basic_selected_set : ℕ → ℕ → Event
  default_validator_commission_set : ℕ → ℕ → TierType → Event
  max_validator_commission_set : ℕ → ℕ → TierType → Event
  validator_commission_set : ℕ → ℕ → ℕ → Event
  validator_commission_set_cancelled : ℕ → Event
  blocks_per_round_set : ℕ → ℕ → ℕ → ℕ → ℕ → ℕ → ℕ → Event
  storage_cache_lifetime_set : ℕ → ℕ → Event
  controller_set : ℕ → ℕ → Event
  controller_set_cancelled : ℕ → Event
  validator_reward_dst_set : ℕ → RewardDestination → RewardDestination → Event
  nominator_reward_dst_set : ℕ → RewardDestination → RewardDestination → Event
  kicked_out : ℕ → Event

-- `trait Config` and the storage values that only governance sets.
pub record Config (L : Type 0) : Type 0 where
  pub max_top_nominations_per_candidate : ℕ
  pub max_bottom_nominations_per_candidate : ℕ
  pub min_full_candidate_stk : ℕ
  pub min_basic_candidate_stk : ℕ
  pub min_nomination : ℕ
  pub min_nominator_stk : ℕ
  pub leave_candidates_delay : ℕ
  pub candidate_bond_less_delay : ℕ
  pub leave_nominators_delay : ℕ
  pub revoke_nomination_delay : ℕ
  pub nomination_bond_less_delay : ℕ
  pub default_full_validator_commission : ℕ
  pub default_basic_validator_commission : ℕ
  -- `Currency::reserve(who, amount)` and `Currency::unreserve(who, amount)`, whose remainder no
  -- call here reads.
  pub reserve : ℕ → ℕ → L → Option L
  pub unreserve : ℕ → ℕ → L → L

pub record Storage (L : Type 0) : Type 0 where
  pub candidate_info : ℕ → Option CandidateMetadata
  pub top_nominations : ℕ → Option Nominations
  pub bottom_nominations : ℕ → Option Nominations
  pub nominator_state : ℕ → Option Nominator
  pub candidate_pool : Dict ℕ
  pub total : ℕ
  pub round : RoundInfo
  pub session : ℕ
  pub productivity_per_block : ℕ
  pub delayed_commission_sets : ℕ → List DelayedCommissionSet
  pub ledger : L
  -- The events, the latest first.
  pub events : List Event

module _ {L : Type 0} where
  abbrev pub deposit_event : Event → Storage L → Storage L
  deposit_event e s = record s { events = e ∷ s.events }

  abbrev pub now : Storage L → ℕ
  now s = s.round.current_round_index

  -- `update_active`: the candidate's voting power in the `CandidatePool`, if it is there. It
  -- always succeeds.
  unfoldable pub update_active : ℕ → ℕ → Storage L → Storage L
  update_active candidate total s = record s {
    candidate_pool = put_existing candidate total s.candidate_pool;
  }

  abbrev pub default_commission : Config L → TierType → ℕ
  default_commission c TierType.full = c.default_full_validator_commission
  default_commission c TierType.basic = c.default_basic_validator_commission
  default_commission c TierType.all = c.default_basic_validator_commission

pub ok-injective {ℓ} : {A : Type ℓ} {a b : A} → ok a ≡ ok b → a ≡ b
ok-injective h = cc

pub Result-cases {ℓ} :
    {A : Type ℓ} (r : Result A) → ((e : Error) × (r ≡ err e)) ⊎ ((a : A) × (r ≡ ok a))
Result-cases (ok a) = inr (a, refl)
Result-cases (err e) = inl (e, refl)

-- The first of two steps that both succeed did.
pub first_ok {ℓ κ} :
    {X : Type ℓ} {Y : Type κ} (first : Result X) (next : X → Result Y) {y : Y}
    → (first >>= next) ≡ ok y
    → (x : X) × (first ≡ ok x) × (next x ≡ ok y)
first_ok (err failure) next h = cc
first_ok (ok x) next h = (x, refl, h)
