-- ===== src/Staking/Nominator.antt =====
-- pallets/bfc-staking/src/lib.rs: the methods of `Nominator` that change the nominator alone.
use bifrost_node.Prelude.{
  ℕ, ◌+◌, Bool, true, false, none, some, [], ◌∷◌, get, insert, remove, contains_key, sat_sub,
  add128, sub128, u32_mod, ◌%◌, length, ltb, leb, if◌then◌else◌,
}
use bifrost_node.Staking.Types.{
  Nominator, NominatorStatus, NominationChange, NominationRequest, RewardDestination,
}
use bifrost_node.Staking.Storage.{
  Config, Storage, Result, ok, err, ◌>>=◌, ◌>>◌, ensure, ok_or, now,
  too_low_nomination_count_to_leave_nominators, nominator_cannot_leave_yet, nominator_not_leaving,
  already_nominated_candidate, nomination_dne, nominator_bond_below_min, nomination_below_min,
}
use bifrost_node.Staking.Requests.{no_requests, bond_less, revoke, cancel}

-- `Nominator::new`
pub new : ℕ → ℕ → ℕ → Nominator
new id validator amount = record {
  id = id;
  nominations = (validator, amount) ∷ [];
  initial_nominations = (validator, amount) ∷ [];
  total = amount;
  requests = no_requests;
  status = NominatorStatus.active;
  reward_dst = RewardDestination.staked;
  awarded_tokens = 0;
  awarded_tokens_per_candidate = (validator, 0) ∷ [];
}

pub is_active : Nominator → Bool
is_active n = elim n.status [ NominatorStatus.active ↦ true | NominatorStatus.leaving when ↦ false ]

abbrev is_revoke : NominationChange → Bool
is_revoke NominationChange.revoke = true
is_revoke NominationChange.decrease = false

abbrev is_decrease : NominationChange → Bool
is_decrease NominationChange.revoke = false
is_decrease NominationChange.decrease = true

pub is_revoking : ℕ → Nominator → Bool
is_revoking candidate n = elim (get candidate n.requests.requests) [
  | none ↦ false
  | some r ↦ is_revoke r.action
]

pub is_decreasing : ℕ → Nominator → Bool
is_decreasing candidate n = elim (get candidate n.requests.requests) [
  | none ↦ false
  | some r ↦ is_decrease r.action
]

pub is_leaving : Nominator → Bool
is_leaving n = elim n.status [
  | NominatorStatus.active ↦ false
  | NominatorStatus.leaving when ↦ true
]

pub replace_nominations : ℕ → ℕ → Nominator → Nominator
replace_nominations old new n = record n {
  nominations = elim (get old n.nominations) [
    | none ↦ n.nominations
    | some amount ↦ insert new amount (remove old n.nominations)
  ];
  initial_nominations = elim (get old n.initial_nominations) [
    | none ↦ n.initial_nominations
    | some amount ↦ insert new amount (remove old n.initial_nominations)
  ];
}

pub replace_requests : ℕ → ℕ → Nominator → Nominator
replace_requests old new n = elim (get old n.requests.requests) [
  | none ↦ n
  | some r ↦ record n {
    requests = record (n.requests) {
      requests = insert new (record r { validator = new }) (remove old n.requests.requests);
    };
  }
]

pub increment_awarded_tokens : ℕ → ℕ → Nominator → Nominator
increment_awarded_tokens validator tokens n = record n {
  awarded_tokens_per_candidate = elim (get validator n.awarded_tokens_per_candidate) [
    | none ↦ n.awarded_tokens_per_candidate
    | some x ↦ insert validator (add128 x tokens) n.awarded_tokens_per_candidate
  ];
  awarded_tokens = add128 n.awarded_tokens tokens;
}

pub set_leaving : ℕ → Nominator → Nominator
set_leaving when n = record n { status = NominatorStatus.leaving when }

pub set_reward_dst : RewardDestination → Nominator → Nominator
set_reward_dst dst n = record n { reward_dst = dst }

pub cancel_leave : Nominator → Nominator
cancel_leave n = record n { status = NominatorStatus.active }

unfoldable pub add_nomination : ℕ → ℕ → Nominator → Result Nominator
add_nomination candidate amount n =
    if contains_key candidate n.nominations
    then err already_nominated_candidate
    else ok (record n {
      nominations = insert candidate amount n.nominations;
      total = add128 n.total amount;
      initial_nominations = insert candidate amount n.initial_nominations;
      awarded_tokens_per_candidate = insert candidate 0 n.awarded_tokens_per_candidate;
    })

-- The nominator after `rm_nomination`. What that returns is the new total, if there was a
-- nomination to remove.
unfoldable pub rm_nomination : ℕ → Nominator → Nominator
rm_nomination validator n = elim (get validator n.nominations) [
  | none ↦ n
  | some amount ↦ record n {
    nominations = remove validator n.nominations;
    initial_nominations = remove validator n.initial_nominations;
    awarded_tokens_per_candidate = remove validator n.awarded_tokens_per_candidate;
    total = sat_sub n.total amount;
  }
]

-- The index of a round is a `u32`.
abbrev round_after : ℕ → ℕ → ℕ
round_after a b = (a + b) % u32_mod

module _ {L : Type 0} (c : Config L) (s : Storage L) where
  pub can_execute_leave : ℕ → Nominator → Result (Unit {0})
  can_execute_leave nomination_weight_hint n = do
    ensure (leb (length n.nominations % u32_mod) nomination_weight_hint)
        too_low_nomination_count_to_leave_nominators
    elim n.status [
      | NominatorStatus.active ↦ err nominator_not_leaving
      | NominatorStatus.leaving when ↦ ensure (leb when (now s)) nominator_cannot_leave_yet
    ]

  pub schedule_leave : Nominator → (ℕ × ℕ) × Nominator
  schedule_leave n =
      let when = round_after (now s) c.leave_nominators_delay in ((now s, when), set_leaving when n)

  -- The minima are subtracted with wrap-around, as the build does it.
  pub schedule_decrease_nomination : ℕ → ℕ → Nominator → Result (ℕ × Nominator)
  schedule_decrease_nomination validator less n = do
    amount ← ok_or (get validator n.nominations) nomination_dne
    ensure (ltb less amount) nominator_bond_below_min
    ensure (leb c.min_nomination (sub128 amount less)) nomination_below_min
    let net_total = sub128 n.total n.requests.less_total
    let max_subtracted_amount = sub128 net_total c.min_nominator_stk
    ensure (leb less max_subtracted_amount) nominator_bond_below_min
    let when = round_after (now s) c.nomination_bond_less_delay
    requests ← bond_less validator less when n.requests
    ok (when, record n { requests = requests })

  pub schedule_revoke : ℕ → Nominator → Result ((ℕ × ℕ) × Nominator)
  schedule_revoke validator n = do
    amount ← ok_or (get validator n.nominations) nomination_dne
    let when = round_after (now s) c.revoke_nomination_delay
    requests ← revoke validator amount when n.requests
    ok ((now s, when), record n { requests = requests })

pub cancel_pending_request : ℕ → Nominator → Result (NominationRequest × Nominator)
cancel_pending_request candidate n = do
  (order, requests) ← cancel candidate n.requests
  ok (order, record n { requests = requests })
