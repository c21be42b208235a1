-- ===== src/Blaze/Types.antt =====
-- pallets/blaze: the types of src/lib.rs, and the storage, configuration, errors and events of
-- src/pallet/mod.rs.
-- What stands outside the repository, or in the pallets that the configuration names, is a field of
-- `Config`: the hash of a UTXO, the descriptor bonded to an address and the size of an input that
-- spends from it, and the reading of a Socket message. Accounts, addresses, hashes and messages are
-- numbers.
use bifrost_node.Prelude.{
  ℕ, Bool, true, false, Option, List, [], ◌∷◌, ◌++◌, ◌==◌, any, not, retain, Dict, Fallible,
}
use bifrost_node.Blaze.Coins.{UtxoInfoWithSize}

pub data UtxoStatus : Type 0 where
  unconfirmed available locked used : UtxoStatus

pub record Utxo : Type 0 where
  pub inner : UtxoInfoWithSize
  pub status : UtxoStatus
  pub voters : List ℕ

pub record BtcTransaction : Type 0 where
  pub inputs : List UtxoInfoWithSize
  pub voters : List ℕ

-- primitives/btc-relay/src/blaze.rs
pub record UtxoInfo : Type 0 where
  pub txid : ℕ
  pub vout : ℕ
  pub amount : ℕ
  pub address : ℕ

pub data Error : Type 0 where
  unknown_utxo unknown_transaction utxo_dne already_spent already_voted empty_submission : Error
  invalid_submission out_of_range no_writing_same_value invalid_activation_state : Error

pub data Event : Type 0 where
  activation_set : Bool → Event
  tolerance_counter_updated : ℕ → Event
  fee_rate_submitted : ℕ → ℕ → ℕ → Event
  utxo_submitted : ℕ → ℕ → UtxoStatus → Event
  utxo_force_pushed : ℕ → Event
  broadcast_polled : ℕ → ℕ → Bool → Event
  socket_message_submitted : ℕ → ℕ → Event

pub record Config : Type 0 where
  pub fee_rate_expiration : ℕ
  pub tolerance_threshold : ℕ
  -- What `T::Relayers::majority()` and `T::SocketQueue::get_max_fee_rate()` return at the time of
  -- the call: storage of relay-manager and btc-socket-queue, which they change between the calls.
  pub majority : ℕ
  pub max_fee_rate : ℕ
  -- keccak_256 of the transaction, output, amount and address
  pub utxo_hash : UtxoInfo → ℕ
  -- `T::RegistrationPool::get_bonded_descriptor`, printed, and `estimate_finalized_input_size`
  pub get_bonded_descriptor : ℕ → Option (List ℕ)
  pub estimate_input_size : List ℕ → Option ℕ
  -- The sequence of a message that `SocketMessage::try_from` reads, and whether
  -- `verify_socket_message` accepts it.
  pub sequence : ℕ → Option ℕ
  pub verify_socket_message : ℕ → Bool

pub record Storage : Type 0 where
  pub is_activated : Bool
  pub tolerance_counter : ℕ
  pub utxos : Dict Utxo
  pub unconfirmed_utxo_count : ℕ → ℕ
  pub pending_txs : Dict BtcTransaction
  pub confirmed_txs : Dict BtcTransaction
  pub outbound_pool : List ℕ
  -- The long term fee rate, the fee rate and the last block at which they count.
  pub fee_rates : Dict (ℕ × ℕ × ℕ)
  pub block_number : ℕ
  -- The events, the latest first.
  pub events : List Event

-- The configuration at a time when the other two pallets hold these values.
abbrev pub at : Config → ℕ → ℕ → Config
at c majority max_fee_rate = record c { majority = majority; max_fee_rate = max_fee_rate }

abbrev pub Dispatch : Type 0
Dispatch = Fallible Error Storage

abbrev pub deposit_event : Event → Storage → Storage
deposit_event e s = record s { events = e ∷ s.events }

abbrev pub max_authorities : ℕ
max_authorities = 1_000

abbrev pub max_unconfirmed_utxos_per_relayer : ℕ
max_unconfirmed_utxos_per_relayer = 100

abbrev pub contains : ℕ → List ℕ → Bool
contains x xs = any (λ y. y == x) xs

abbrev pub is_unconfirmed : UtxoStatus → Bool
is_unconfirmed UtxoStatus.unconfirmed = true
is_unconfirmed UtxoStatus.available = false
is_unconfirmed UtxoStatus.locked = false
is_unconfirmed UtxoStatus.used = false

abbrev pub is_available : UtxoStatus → Bool
is_available UtxoStatus.unconfirmed = false
is_available UtxoStatus.available = true
is_available UtxoStatus.locked = false
is_available UtxoStatus.used = false

abbrev pub is_used : UtxoStatus → Bool
is_used UtxoStatus.unconfirmed = false
is_used UtxoStatus.available = false
is_used UtxoStatus.locked = false
is_used UtxoStatus.used = true

-- `replace_authority` of a UTXO and of a transaction: the new voter goes to the end.
abbrev pub replace_voter : ℕ → ℕ → List ℕ → List ℕ
replace_voter old new voters = retain (λ v. not (v == old)) voters ++ new ∷ []
