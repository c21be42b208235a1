-- ===== src/Blaze/Steps.antt =====
-- pallets/blaze as a state machine: a step is a call that goes through, from an extrinsic, from
-- another pallet or from a hook, in any order.
pub mod Frame
pub mod Others
pub mod Safety
use bifrost_node.Prelude.{ℕ, ◌≤◌, ◌≡◌, Bool, Option, some, List, done}
use bifrost_node.Blaze.Coins.{UtxoInfoWithSize}
use bifrost_node.Blaze.Types.{Config, Storage, UtxoInfo, at}
use bifrost_node.Blaze.Activation.{set_activation, handle_tolerance_counter}
use bifrost_node.Blaze.Fees.{submit_fee_rate, clear_fee_rates, try_fee_rate_finalization}
use bifrost_node.Blaze.Outbound.{
  submit_outbound_requests, clear_outbound_pool, remove_outbound_messages,
}
use bifrost_node.Blaze.Utxos.{
  submit_utxos, broadcast_poll, force_push_utxos, lock_utxos, unlock_utxos, clear_utxos,
  replace_authority,
}

-- One call, by the configuration as it is then.
pub data Step (c : Config) (s s' : Storage) : Type 0 where
  activation : (is_activated : Bool) → set_activation is_activated s ≡ done s' → Step c s s'
  submission :
      (who : ℕ) (utxos : List UtxoInfo) → submit_utxos c who utxos s ≡ done s' → Step c s s'
  poll : (who txid : ℕ) → broadcast_poll c who txid s ≡ done s' → Step c s s'
  rate :
      (who lt_fee_rate fee_rate : ℕ)
      → submit_fee_rate c who lt_fee_rate fee_rate s ≡ done s'
      → Step c s s'
  requests :
      (who : ℕ) (messages : List ℕ)
      → submit_outbound_requests c who messages s ≡ done s'
      → Step c s s'
  push : (utxos : List UtxoInfo) → force_push_utxos c utxos s ≡ done s' → Step c s s'
  removal : (messages : List ℕ) → remove_outbound_messages messages s ≡ done s' → Step c s s'
  lock :
      (txid : ℕ) (inputs : List UtxoInfoWithSize) → lock_utxos txid inputs s ≡ done s' → Step c s s'
  unlock : (txid : ℕ) → unlock_utxos txid s ≡ done s' → Step c s s'
  clearance : s' ≡ clear_utxos s → Step c s s'
  sent : (targets : List ℕ) → s' ≡ clear_outbound_pool targets s → Step c s s'
  tolerance : (is_increase : Bool) → s' ≡ handle_tolerance_counter c is_increase s → Step c s s'
  finalization :
      (n : ℕ) (rates : Option (ℕ × ℕ))
      → try_fee_rate_finalization c n s ≡ some (s', rates)
      → Step c s s'
  fee_rates_clearance : s' ≡ clear_fee_rates s → Step c s s'
  replacement : (old new : ℕ) → s' ≡ replace_authority old new s → Step c s s'
  -- A block is built.
  block : (n : ℕ) → s' ≡ record s { block_number = n } → Step c s s'

-- Between the calls relay-manager may set another majority, and btc-socket-queue another maximum:
-- those of `c` are the lowest majority and the highest maximum of the run.
pub data Reachable (c : Config) (s : Storage) : Storage → Type 0 where
  here : Reachable c s s
  next :
      {t u : Storage} (majority max_fee_rate : ℕ)
      → Reachable c s t
      → c.majority ≤ majority
      → max_fee_rate ≤ c.max_fee_rate
      → Step (at c majority max_fee_rate) t u
      → Reachable c s u
