-- ===== src/Offences.antt =====
-- pallets/bfc-offences: the offences of validators and the slash that too many of them bring.
-- The balances pallet is not part of the repository: its ledger is a type, and `slash_reserved`,
-- with what becomes of the slashed amount, and the product of a `Perbill` with a balance are fields
-- of the configuration. A `Perbill` is its number of parts in 1,000,000,000.
pub mod Counting
pub mod Expiry
mod Tests
use bifrost_node.Prelude.{
  ℕ, ◌+◌, Bool, true, false, not, Option, none, some, List, [], ◌∷◌, ◌++◌, ltb, ◌==◌, if◌then◌else◌,
  min, retain, Dict, get, insert, remove, add32, sub32, Fallible, done, failed, require, ◌|>◌,
}
use bifrost_node.Staking.Types.{TierType}

-- primitives/bfc-staking/src/lib.rs
pub record Offence : Type 0 where
  pub round_index : ℕ
  pub session_index : ℕ
  pub self_bond : ℕ
  pub total_slash : ℕ
  pub offender_slash : ℕ
  pub nominators_slash : ℕ
  pub slash_fraction : ℕ

pub record ValidatorOffenceInfo : Type 0 where
  pub latest_offence_round_index : ℕ
  pub latest_offence_session_index : ℕ
  pub offence_count : ℕ
  pub aggregated_slash_fraction : ℕ
  pub offences : List Offence

pub data Error : Type 0 where
  cannot_set_below_min no_writing_same_value : Error

pub data Event : Type 0 where
  offence_expiration_set : ℕ → ℕ → Event
  maximum_offence_count_set : ℕ → ℕ → TierType → Event
  offence_activation_set slash_activation_set : Bool → Event
  slashed : ℕ → ℕ → Event

pub record Config (L : Type 0) : Type 0 where
  pub slash_reserved : ℕ → ℕ → L → L
  pub part_of : ℕ → ℕ → ℕ

pub record Storage (L : Type 0) : Type 0 where
  pub validator_offences : Dict ValidatorOffenceInfo
  pub offence_expiration_in_sessions : ℕ
  pub full_maximum_offence_count : ℕ
  pub basic_maximum_offence_count : ℕ
  pub is_offence_active : Bool
  pub is_slash_active : Bool
  pub ledger : L
  -- The events, the latest first.
  pub events : List Event

abbrev pub one_perbill : ℕ
one_perbill = 1_000_000_000

-- `Perbill::from_parts`, which saturates.
abbrev pub from_parts : ℕ → ℕ
from_parts parts = min parts one_perbill

abbrev pub new_info : Offence → ValidatorOffenceInfo
new_info o = record {
  latest_offence_round_index = o.round_index;
  latest_offence_session_index = o.session_index;
  offence_count = 1;
  aggregated_slash_fraction = o.slash_fraction;
  offences = o ∷ [];
}

abbrev pub set_latest_offence : ℕ → ℕ → ValidatorOffenceInfo → ValidatorOffenceInfo
set_latest_offence round_index session_index v = record v {
  latest_offence_round_index = round_index;
  latest_offence_session_index = session_index;
}

abbrev pub increase_offence_count : ValidatorOffenceInfo → ValidatorOffenceInfo
increase_offence_count v = record v { offence_count = add32 v.offence_count 1 }

abbrev pub increase_slash_fraction : ℕ → ValidatorOffenceInfo → ValidatorOffenceInfo
increase_slash_fraction slash_fraction v = record v {
  aggregated_slash_fraction = from_parts (add32 v.aggregated_slash_fraction slash_fraction);
}

abbrev pub add_offence : Offence → ValidatorOffenceInfo → ValidatorOffenceInfo
add_offence o v =
    let w =
      increase_slash_fraction o.slash_fraction
        (increase_offence_count (set_latest_offence o.round_index o.session_index v)) in
    record w { offences = w.offences ++ o ∷ [] }

abbrev pub differs : Bool → Bool → Bool
differs true b = not b
differs false b = b

module _ {L : Type 0} where
  abbrev pub deposit_event : Event → Storage L → Storage L
  deposit_event e s = record s { events = e ∷ s.events }

  abbrev pub maximum_offence_count : TierType → Storage L → ℕ
  maximum_offence_count TierType.full s = s.full_maximum_offence_count
  maximum_offence_count TierType.basic s = s.basic_maximum_offence_count
  maximum_offence_count TierType.all s = s.basic_maximum_offence_count

  abbrev pub is_offence_count_exceeds : ℕ → TierType → Storage L → Bool
  is_offence_count_exceeds count tier s = ltb (maximum_offence_count tier s) count

  -- The amount slashed and the storage after it.
  unfoldable pub try_slash : Config L → ℕ → ℕ → ℕ → ℕ → Storage L → ℕ × Storage L
  try_slash c who stash slash_fraction bond s =
      if s.is_slash_active
      then (
        c.part_of slash_fraction bond,
        deposit_event (Event.slashed who (c.part_of slash_fraction bond))
            (record s { ledger = c.slash_reserved stash (c.part_of slash_fraction bond) s.ledger }),
      )
      else (0, s)

  -- Whether the validator has offended too often, the amount slashed, and the storage.
  unfoldable pub handle_offence :
      Config L → ℕ → ℕ → TierType → Offence → Storage L → Bool × ℕ × Storage L
  handle_offence c who stash tier o s = elim (get who s.validator_offences) [
    | none ↦
        (false, 0, record s { validator_offences = insert who (new_info o) s.validator_offences })
    | some v ↦
        if is_offence_count_exceeds (add32 v.offence_count 1) tier s
        then (let (slash_amount, t) =
              try_slash c who stash v.aggregated_slash_fraction o.self_bond s in
            (true, slash_amount, record t { validator_offences = remove who t.validator_offences }))
        else (
          false,
          0,
          record s { validator_offences = insert who (add_offence o v) s.validator_offences },
        )
  ]

  unfoldable pub try_handle_offence :
      Config L → ℕ → ℕ → TierType → Offence → Storage L → Bool × ℕ × Storage L
  try_handle_offence c who stash tier o s =
      if s.is_offence_active then handle_offence c who stash tier o s else (false, 0, s)

  unfoldable pub refresh_offences : ℕ → Storage L → Storage L
  refresh_offences session_index s = record s {
    validator_offences =
        retain
          (λ e. not (
            ltb s.offence_expiration_in_sessions
              (sub32 session_index (e.1).latest_offence_session_index)))
          s.validator_offences;
  }

  -- The calls of the root.
  unfoldable pub set_offence_expiration : ℕ → Storage L → Fallible Error (Storage L)
  set_offence_expiration new s = require (ltb 0 new) Error.cannot_set_below_min (
      let old = s.offence_expiration_in_sessions in
      require (not (old == new)) Error.no_writing_same_value (
        done (
          deposit_event (Event.offence_expiration_set old new)
            (record s { offence_expiration_in_sessions = new }))))

  unfoldable pub set_max_offence_count : ℕ → TierType → Storage L → Fallible Error (Storage L)
  set_max_offence_count new TierType.full s = require (ltb 0 new) Error.cannot_set_below_min (
      let old = s.full_maximum_offence_count in
      require (not (old == new)) Error.no_writing_same_value (
        done (
          deposit_event (Event.maximum_offence_count_set old new TierType.full)
            (record s { full_maximum_offence_count = new }))))
  set_max_offence_count new TierType.basic s = require (ltb 0 new) Error.cannot_set_below_min (
      let old = s.basic_maximum_offence_count in
      require (not (old == new)) Error.no_writing_same_value (
        done (
          deposit_event (Event.maximum_offence_count_set old new TierType.basic)
            (record s { basic_maximum_offence_count = new }))))
  set_max_offence_count new TierType.all s = require (ltb 0 new) Error.cannot_set_below_min (
      let old_full = s.full_maximum_offence_count in
      require (not (old_full == new)) Error.no_writing_same_value (
        let old_basic = s.basic_maximum_offence_count in
        require (not (old_basic == new)) Error.no_writing_same_value (
          done (
            deposit_event (Event.maximum_offence_count_set old_basic new TierType.basic) (
              deposit_event (Event.maximum_offence_count_set old_full new TierType.full) (record s {
                full_maximum_offence_count = new;
                basic_maximum_offence_count = new;
              }))))))

  unfoldable pub set_offence_activation : Bool → Storage L → Fallible Error (Storage L)
  set_offence_activation is_active s =
      require (differs is_active s.is_offence_active) Error.no_writing_same_value (
        done (
          deposit_event (Event.offence_activation_set is_active)
            (record s { is_offence_active = is_active })))

  unfoldable pub set_slash_activation : Bool → Storage L → Fallible Error (Storage L)
  set_slash_activation is_active s =
      require (differs is_active s.is_slash_active) Error.no_writing_same_value (
        done (
          deposit_event (Event.slash_activation_set is_active)
            (record s { is_slash_active = is_active })))
