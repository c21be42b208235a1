-- ===== src/Blaze/Activation.antt =====
-- pallets/blaze: activation, and the counter that switches it off.
pub mod Tolerance
use bifrost_node.Prelude.{
  ℕ, ◌-◌, Bool, true, false, not, ◌&&◌, ◌||◌, [], ◌==◌, ltb, if◌then◌else◌, sat_add32, sat_sub,
  Fallible, done, failed, require,
}
use bifrost_node.Blaze.Types.{Config, Storage, Error, Event, Dispatch, deposit_event}

abbrev pub same : Bool → Bool → Bool
same true b = b
same false b = not b

unfoldable pub ensure_activation : Bool → Storage → Dispatch → Dispatch
ensure_activation is_activated s next =
    require (same s.is_activated is_activated) Error.invalid_activation_state next

-- called by the root
unfoldable pub set_activation : Bool → Storage → Dispatch
set_activation is_activated s =
    require (not (same s.is_activated is_activated)) Error.no_writing_same_value (
      done (
        deposit_event (Event.activation_set is_activated) (record s {
          is_activated = is_activated;
          pending_txs = if is_activated then [] else s.pending_txs;
        })))

unfoldable pub handle_tolerance_counter : Config → Bool → Storage → Storage
handle_tolerance_counter c is_increase s =
    let current = s.tolerance_counter in
    let next = if is_increase then sat_add32 current 1 else sat_sub current 1 in
    if ltb c.tolerance_threshold next
    then deposit_event (Event.activation_set false)
        (record s { is_activated = false; tolerance_counter = 0 })
    else if current == next
    then s
    else deposit_event (Event.tolerance_counter_updated next)
        (record s { tolerance_counter = next })
