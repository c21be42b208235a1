-- ===== src/Blaze/Tests/Pallet.antt =====
-- The pallet's calls on a small storage, and the theorems at these calls.
use bifrost_node.Prelude.{
  ℕ, ◌+◌, ◌≤◌, ◌≡◌, ◌⊎◌, refl, true, false, Option, none, some, List, [], ◌∷◌, ltb, ◌==◌,
  if◌then◌else◌, get, Dict, contains_key, remove, sort_by, done, failed, arith,
}
use bifrost_node.Blaze.Coins.{UtxoInfoWithSize}
use bifrost_node.Blaze.Types.{UtxoStatus, Utxo, UtxoInfo, Config, Storage, Error, at}
use bifrost_node.Blaze.Activation.{handle_tolerance_counter, ensure_activation}
use bifrost_node.Blaze.Activation.Tolerance.{
  handle_tolerance_counter-le, failures, failures-deactivate,
}
use bifrost_node.Blaze.Fees.{
  submit_fee_rate, clear_fee_rates, live, try_fee_rate_finalization, median, finalized,
}
use bifrost_node.Blaze.Fees.Rates.{
  AreInRange, submit_fee_rate-AreInRange, Agreed, Unexpired, try_fee_rate_finalization-Agreed,
}
use bifrost_node.Blaze.Outbound.{
  sequences, submit_message, submit_messages, submit_outbound_requests,
}
use bifrost_node.Blaze.Outbound.Sequences.{AreDistinct, submit_outbound_requests-AreDistinct}
use bifrost_node.Blaze.Steps.{Step, Reachable}
use bifrost_node.Blaze.Steps.Safety.{IsSafe, Reachable-IsSafe}
use bifrost_node.Blaze.Utxos.{
  submit_utxos, submit_each, submit_utxo, vote_utxo, new_utxo, release_first, broadcast_poll,
  set_status, lock_utxos, unlock_utxos, clear_utxos, replace_authority,
}
use bifrost_node.Blaze.Utxos.Votes.{Voted, submit_utxos-Voted}
use bifrost_node.Blaze.Utxos.Broadcast.{broadcast_poll-again}
use bifrost_node.Blaze.Utxos.Reports.{poll_all, polls-confirm}
use bifrost_node.Blaze.Utxos.Locks.{restatus, unlock-lock}
use bifrost_node.Blaze.Utxos.Counts.{IsCounted, owed, submit_utxos-IsCounted, clear_utxos-counts}

abbrev config : Config
config = record {
  fee_rate_expiration = 10;
  tolerance_threshold = 2;
  majority = 2;
  max_fee_rate = 100;
  utxo_hash = λ u. u.txid + u.vout;
  get_bonded_descriptor = λ address. if ltb address 50 then some (address ∷ []) else none;
  estimate_input_size = λ descriptor. some 100;
  sequence = λ message. if ltb message 100 then some (message + 1) else none;
  verify_socket_message = λ message. true;
}

abbrev info : ℕ → ℕ → UtxoInfo
info txid address = record { txid = txid; vout = 0; amount = 500; address = address }

abbrev inner : ℕ → UtxoInfoWithSize
inner txid = record {
  hash = txid;
  txid = txid;
  vout = 0;
  amount = 500;
  descriptor = 7 ∷ [];
  input_vbytes = 100;
}

abbrev pending : Utxo
pending = record { inner = inner 20; status = UtxoStatus.unconfirmed; voters = 1 ∷ [] }

abbrev free : Utxo
free = record { inner = inner 30; status = UtxoStatus.available; voters = 1 ∷ 2 ∷ [] }

abbrev storage : Storage
storage = record {
  is_activated = true;
  tolerance_counter = 1;
  utxos = (20, pending) ∷ (30, free) ∷ [];
  unconfirmed_utxo_count = λ a. if a == 1 then 1 else 0;
  pending_txs = (900, record { inputs = inner 30 ∷ []; voters = 1 ∷ [] }) ∷ [];
  confirmed_txs = [];
  outbound_pool = 5 ∷ [];
  fee_rates = (1, (4, 9, 100)) ∷ (2, (6, 8, 100)) ∷ (3, (5, 7, 3)) ∷ [];
  block_number = 50;
  events = [];
}

abbrev two_utxos : List UtxoInfo
two_utxos = info 20 7 ∷ info 40 8 ∷ info 60 70 ∷ []

-- The second vote on 20 makes it available, 40 is new, and nobody bonded the address of 60.
submitted_status :
    (s' : Storage) × (submit_utxos config 2 two_utxos storage ≡ done s') × (get 60 s'.utxos ≡ none)
unfolding submit_utxos ensure_activation submit_each submit_utxo vote_utxo new_utxo release_first
submitted_status = (_, refl, refl)

storage-IsCounted : IsCounted storage
storage-IsCounted = record {
  counts = λ a. ground arith;
  started = λ h u there status. ground arith;
  capped = λ a. ground arith;
}

submit_utxos-Voted_example :
    Voted config 2 (get 20 storage.utxos) (get 20 (submitted_status.0).utxos)
submit_utxos-Voted_example =
    submit_utxos-Voted config 2 two_utxos storage (submitted_status.0) (submitted_status.1) 20

submit_utxos-IsCounted_example : IsCounted (submitted_status.0)
submit_utxos-IsCounted_example =
    submit_utxos-IsCounted config 2 two_utxos storage (submitted_status.0) (submitted_status.1)
      storage-IsCounted

clear_utxos-counts_example :
    ((clear_utxos storage).unconfirmed_utxo_count 1 ≡ 0) × (owed 1 (clear_utxos storage).utxos ≡ 0)
clear_utxos-counts_example = clear_utxos-counts storage 1 storage-IsCounted

-- The second vote confirms the transaction and uses its input.
polled_once : (s' : Storage) × (broadcast_poll config 2 900 storage ≡ done s')
unfolding broadcast_poll ensure_activation set_status
polled_once = (_, refl)

locked_again : (s' : Storage) × (lock_utxos 902 (inner 30 ∷ []) storage ≡ done s')
unfolding lock_utxos set_status
locked_again = (_, refl)

polls-confirm_example :
    (t : Storage) × (poll_all config 902 (4 ∷ []) (locked_again.0) ≡ done t)
    × (contains_key 902 t.confirmed_txs ≡ false)
    × (t.utxos ≡ (locked_again.0).utxos)
    × ((u : Storage) × (broadcast_poll config 9 902 t ≡ done u)
        × (get 902 u.confirmed_txs ≡ some (record { inputs = inner 30 ∷ []; voters = 4 ∷ 9 ∷ [] }))
        × ((h : ℕ) → get h u.utxos ≡ restatus UtxoStatus.used (inner 30 ∷ []) storage.utxos h))
polls-confirm_example =
    polls-confirm config 902 (inner 30 ∷ []) (4 ∷ []) 9 storage (locked_again.0) refl refl
      (locked_again.1) (refl, tt) refl (omega arith) (omega arith)

broadcast_poll-again_example :
    (broadcast_poll config 2 900 (polled_once.0) ≡ failed Error.already_voted)
    ⊎ (broadcast_poll config 2 900 (polled_once.0) ≡ failed Error.already_spent)
broadcast_poll-again_example =
    broadcast_poll-again config 2 900 storage (polled_once.0) (polled_once.1)

locked_free : (s' : Storage) × (lock_utxos 901 (inner 30 ∷ []) storage ≡ done s')
unfolding lock_utxos set_status
locked_free = (_, refl)

unlock-lock_example :
    ((h : ℕ)
      → get h (locked_free.0).utxos ≡ restatus UtxoStatus.locked (inner 30 ∷ []) storage.utxos h)
    × (get 901 (locked_free.0).pending_txs ≡ some (record { inputs = inner 30 ∷ []; voters = [] }))
    × ((s'' : Storage) × (unlock_utxos 901 (locked_free.0) ≡ done s'')
        × ((h : ℕ) → get h s''.utxos ≡ get h storage.utxos)
        × (s''.pending_txs ≡ remove 901 (locked_free.0).pending_txs))
unlock-lock_example =
    unlock-lock 901 (inner 30 ∷ []) storage (locked_free.0) (locked_free.1)
      (λ h u inside there. ground arith)

handle_tolerance_counter-le_example :
    (handle_tolerance_counter config true storage).tolerance_counter ≤ 2
handle_tolerance_counter-le_example = handle_tolerance_counter-le config true storage

failures-deactivate_example : (failures config 2 storage).is_activated ≡ false
failures-deactivate_example = failures-deactivate config 1 storage (omega arith) refl

rate_submitted : (s' : Storage) × (submit_fee_rate config 5 3 100 storage ≡ done s')
unfolding submit_fee_rate ensure_activation
rate_submitted = (_, refl)

submit_fee_rate-AreInRange_example : AreInRange 120 (rate_submitted.0).fee_rates
submit_fee_rate-AreInRange_example =
    submit_fee_rate-AreInRange config 120 5 3 100 storage (rate_submitted.0) (rate_submitted.1)
      (omega arith) (ground arith)

finalized_rates :
    try_fee_rate_finalization config 50 storage
    ≡ some (record storage { fee_rates = live 50 storage.fee_rates }, some (6, 9))
unfolding try_fee_rate_finalization finalized median sort_by
finalized_rates = refl

try_fee_rate_finalization-Agreed_example :
    (d : Dict (ℕ × ℕ × ℕ)) × (rates : Option (ℕ × ℕ)) × Unexpired 50 storage.fee_rates d
    × (try_fee_rate_finalization config 50 storage ≡ some (record storage { fee_rates = d }, rates))
    × Agreed config d rates
try_fee_rate_finalization-Agreed_example =
    try_fee_rate_finalization-Agreed config 50 storage (omega arith)

-- The second message has the sequence of one in the pool's range, the third cannot be read.
requests_submitted :
    (s' : Storage) × (submit_outbound_requests config 2 (6 ∷ 5 ∷ 200 ∷ []) storage ≡ done s')
unfolding submit_outbound_requests submit_messages submit_message sequences
requests_submitted = (_, refl)

pool-AreDistinct : AreDistinct (sequences config storage.outbound_pool)
unfolding sequences
pool-AreDistinct = (refl, tt)

submit_outbound_requests-AreDistinct_example :
    AreDistinct (sequences config (requests_submitted.0).outbound_pool)
submit_outbound_requests-AreDistinct_example =
    submit_outbound_requests-AreDistinct config 2 (6 ∷ 5 ∷ 200 ∷ []) storage (requests_submitted.0)
      (requests_submitted.1) pool-AreDistinct

abbrev two_votes : Storage
two_votes = record storage { utxos = (20, record pending { voters = 1 ∷ 4 ∷ [] }) ∷ [] }

-- With a majority of three: the count of 1 moves to 9, but the first voter is 4 then, so the vote
-- that makes the majority takes nothing from 9.
count_stays :
    (s' : Storage) × (submit_utxos
        (record config { majority = 3 })
        5
        (info 20 7 ∷ [])
        (replace_authority 1 9 two_votes)
      ≡ done s')
    × (s'.unconfirmed_utxo_count 9 ≡ 1)
    × (owed 9 s'.utxos ≡ 0)
unfolding replace_authority submit_utxos ensure_activation submit_each submit_utxo vote_utxo
    new_utxo release_first
count_stays = (_, refl, refl, refl)

storage-IsSafe : IsSafe config storage
storage-IsSafe = record {
  tolerance = omega arith;
  rates = ground arith;
  distinct = pool-AreDistinct;
  confirmed = λ txid tx there. ground arith;
}

-- A vote by a majority of two, then a failure and a clearance when the other pallets hold 5 and 60.
Reachable-IsSafe_example :
    IsSafe config (clear_fee_rates (handle_tolerance_counter (at config 5 60) true (polled_once.0)))
Reachable-IsSafe_example = Reachable-IsSafe storage-IsSafe (
    Reachable.next 5 60
      (Reachable.next 5 60
        (Reachable.next 2 100 Reachable.here (omega arith) (omega arith)
          (Step.poll 2 900 (polled_once.1)))
        (omega arith) (omega arith) (Step.tolerance true refl))
      (omega arith) (omega arith) (Step.fee_rates_clearance refl))
