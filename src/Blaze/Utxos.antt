-- ===== src/Blaze/Utxos.antt =====
-- pallets/blaze: the UTXOs, the votes that make them available, and the transactions that lock and
-- spend them.
pub mod Votes
pub mod Broadcast
pub mod Locks
pub mod Reports
pub mod Counts
use bifrost_node.Prelude.{
  ℕ, ◌+◌, ◌-◌, Bool, true, false, not, ◌&&◌, Option, none, some, List, [], ◌∷◌, ◌++◌, map, ltb, leb,
  ◌==◌, if◌then◌else◌, length, first?, retain, update, Dict, get, insert, remove, contains_key,
  sat_sub, add32, Fallible, done, failed, require, ◌|>◌,
}
use bifrost_node.Blaze.Coins.{UtxoInfoWithSize}
use bifrost_node.Blaze.Types.{
  UtxoStatus, Utxo, UtxoInfo, BtcTransaction, Config, Storage, Error, Event, Dispatch,
  deposit_event, contains, is_unconfirmed, is_available, is_used, max_authorities,
  max_unconfirmed_utxos_per_relayer, replace_voter,
}
use bifrost_node.Blaze.Activation.{ensure_activation}

-- `UnconfirmedUtxoCount::mutate(submitter, saturating_sub(1))` for the first of the voters.
unfoldable pub release_first : List ℕ → (ℕ → ℕ) → ℕ → ℕ
release_first [] count = count
release_first (submitter ∷ others) count = update count submitter (sat_sub (count submitter) 1)

abbrev pub put_utxo : ℕ → Utxo → Storage → Storage
put_utxo hash u s = record s { utxos = insert hash u s.utxos }

abbrev pub submitted : ℕ → ℕ → Utxo → Storage → Storage
submitted authority_id hash u s =
    deposit_event (Event.utxo_submitted authority_id hash u.status) (put_utxo hash u s)

-- A vote on a UTXO that is known.
unfoldable pub vote_utxo : Config → ℕ → ℕ → Utxo → Storage → Dispatch
vote_utxo c authority_id hash u s =
    if not (is_unconfirmed u.status)
    then done s
    else if contains authority_id u.voters
    then done s
    else require (ltb (length u.voters) max_authorities) Error.out_of_range (
        let voters = u.voters ++ authority_id ∷ [] in
        if leb c.majority (length voters)
        then done (
            submitted authority_id hash
              (record u { voters = voters; status = UtxoStatus.available })
              (record s { unconfirmed_utxo_count = release_first voters s.unconfirmed_utxo_count }))
        else done (submitted authority_id hash (record u { voters = voters }) s))

abbrev pub sized : ℕ → UtxoInfo → List ℕ → ℕ → UtxoInfoWithSize
sized hash utxo descriptor input_vbytes = record {
  hash = hash;
  txid = utxo.txid;
  vout = utxo.vout;
  amount = utxo.amount;
  descriptor = descriptor;
  input_vbytes = input_vbytes;
}

-- The first submission of a UTXO.
unfoldable pub new_utxo : Config → ℕ → UtxoInfo → List ℕ → Storage → Dispatch
new_utxo c authority_id utxo descriptor s =
    let count = s.unconfirmed_utxo_count authority_id in
    if leb max_unconfirmed_utxos_per_relayer count
    then done s
    else elim (c.estimate_input_size descriptor) [
      | none ↦ done s
      | some input_vbytes ↦ done (
          submitted authority_id (c.utxo_hash utxo)
            (record {
              inner = sized (c.utxo_hash utxo) utxo descriptor input_vbytes;
              status = UtxoStatus.unconfirmed;
              voters = authority_id ∷ [];
            })
            (record s {
              unconfirmed_utxo_count = update s.unconfirmed_utxo_count authority_id (add32 count 1);
            }))
    ]

unfoldable pub submit_utxo : Config → ℕ → UtxoInfo → Storage → Dispatch
submit_utxo c authority_id utxo s = elim (c.get_bonded_descriptor utxo.address) [
  | none ↦ done s
  | some descriptor ↦ elim (get (c.utxo_hash utxo) s.utxos) [
    | some u ↦ vote_utxo c authority_id (c.utxo_hash utxo) u s
    | none ↦ new_utxo c authority_id utxo descriptor s
  ]
]

unfoldable pub submit_each : Config → ℕ → List UtxoInfo → Storage → Dispatch
submit_each c authority_id [] s = done s
submit_each c authority_id (utxo ∷ utxos) s =
    submit_utxo c authority_id utxo s |> λ s'. submit_each c authority_id utxos s'

abbrev pub no_utxos : List UtxoInfo → Bool
no_utxos [] = true
no_utxos (x ∷ xs) = false

unfoldable pub submit_utxos : Config → ℕ → List UtxoInfo → Storage → Dispatch
submit_utxos c authority_id utxos s =
    ensure_activation true s
      (require (not (no_utxos utxos)) Error.empty_submission (submit_each c authority_id utxos s))

-- The loop of `lock_utxos`, `unlock_utxos` and `broadcast_poll` over the inputs of a transaction.
unfoldable pub set_status :
    UtxoStatus → List UtxoInfoWithSize → Dict Utxo → Fallible Error (Dict Utxo)
set_status status [] d = done d
set_status status (input ∷ inputs) d = elim (get input.hash d) [
  | none ↦ failed Error.utxo_dne
  | some u ↦ set_status status inputs (insert input.hash (record u { status = status }) d)
]

abbrev pub with_status : UtxoStatus → List UtxoInfoWithSize → Storage → Dispatch
with_status status inputs s =
    set_status status inputs s.utxos |> λ utxos. done (record s { utxos = utxos })

unfoldable pub lock_utxos : ℕ → List UtxoInfoWithSize → Storage → Dispatch
lock_utxos txid inputs s = with_status UtxoStatus.locked inputs s |> λ s'. done (record s' {
  pending_txs = insert txid (record { inputs = inputs; voters = [] }) s'.pending_txs;
})

unfoldable pub unlock_utxos : ℕ → Storage → Dispatch
unlock_utxos txid s = elim (get txid s.pending_txs) [
  | none ↦ failed Error.unknown_transaction
  | some tx ↦
      with_status UtxoStatus.available tx.inputs
        (record s { pending_txs = remove txid s.pending_txs })
]

unfoldable pub broadcast_poll : Config → ℕ → ℕ → Storage → Dispatch
broadcast_poll c authority_id txid s = ensure_activation true s (
    require (not (contains_key txid s.confirmed_txs)) Error.already_spent
      (elim (get txid s.pending_txs) [
        | none ↦ failed Error.unknown_transaction
        | some tx ↦ require (not (contains authority_id tx.voters)) Error.already_voted (
            require (ltb (length tx.voters) max_authorities) Error.out_of_range (
              let voted = record tx { voters = tx.voters ++ authority_id ∷ [] } in
              if leb c.majority (length voted.voters)
              then (with_status UtxoStatus.used tx.inputs (record s {
                confirmed_txs = insert txid voted s.confirmed_txs;
                pending_txs = remove txid s.pending_txs;
              })
                  |> (λ s'.
                      done (deposit_event (Event.broadcast_polled authority_id txid true) s')))
              else done (
                  deposit_event (Event.broadcast_polled authority_id txid false)
                    (record s { pending_txs = insert txid voted s.pending_txs }))))
      ]))

unfoldable pub get_utxos : Dict Utxo → List UtxoInfoWithSize
get_utxos [] = []
get_utxos ((hash, u) ∷ d) =
    let rest = get_utxos d in if is_available u.status then u.inner ∷ rest else rest

-- The counts that `clear_utxos` leaves.
unfoldable pub release_all : Dict Utxo → (ℕ → ℕ) → ℕ → ℕ
release_all [] count = count
release_all ((hash, u) ∷ d) count =
    release_all d (if is_unconfirmed u.status then release_first u.voters count else count)

unfoldable pub clear_utxos : Storage → Storage
clear_utxos s = record s {
  utxos = retain (λ e. is_used (e.1).status) s.utxos;
  unconfirmed_utxo_count = release_all s.utxos s.unconfirmed_utxo_count;
}

unfoldable pub force_push_utxo : Config → UtxoInfo → Storage → Storage
force_push_utxo c utxo s = elim (c.get_bonded_descriptor utxo.address) [
  | none ↦ s
  | some descriptor ↦
      if contains_key (c.utxo_hash utxo) s.utxos
      then s
      else elim (c.estimate_input_size descriptor) [
        | none ↦ s
        | some input_vbytes ↦ deposit_event (Event.utxo_force_pushed (c.utxo_hash utxo)) (
            put_utxo (c.utxo_hash utxo)
              (record {
                inner = sized (c.utxo_hash utxo) utxo descriptor input_vbytes;
                status = UtxoStatus.available;
                voters = [];
              })
              s)
      ]
]

unfoldable pub force_push_each : Config → List UtxoInfo → Storage → Storage
force_push_each c [] s = s
force_push_each c (utxo ∷ utxos) s = force_push_each c utxos (force_push_utxo c utxo s)

-- called by the root
unfoldable pub force_push_utxos : Config → List UtxoInfo → Storage → Dispatch
force_push_utxos c utxos s = ensure_activation false s (
    require (not (no_utxos utxos)) Error.empty_submission
      (done (force_push_each c utxos (clear_utxos s))))

-- `replace_authority`
abbrev pub replaced_utxo : ℕ → ℕ → Utxo → Utxo
replaced_utxo old new u =
    if is_unconfirmed u.status && contains old u.voters
    then record u { voters = replace_voter old new u.voters }
    else u

abbrev pub replaced_tx : ℕ → ℕ → BtcTransaction → BtcTransaction
replaced_tx old new tx =
    if contains old tx.voters then record tx { voters = replace_voter old new tx.voters } else tx

-- `take`, and `insert` where there was something to take.
abbrev pub replaced_count : ℕ → ℕ → (ℕ → ℕ) → ℕ → ℕ
replaced_count old new count =
    let taken = update count old 0 in
    if ltb 0 (count old) then update taken new (count old) else taken

abbrev pub replaced_rate {ℓ} : {V : Type ℓ} → ℕ → ℕ → Dict V → Dict V
replaced_rate old new d = elim (get old d) [
  | none ↦ d
  | some value ↦ insert new value (remove old d)
]

unfoldable pub replace_authority : ℕ → ℕ → Storage → Storage
replace_authority old new s = record s {
  unconfirmed_utxo_count = replaced_count old new s.unconfirmed_utxo_count;
  utxos = map (λ e. (e.0, replaced_utxo old new e.1)) s.utxos;
  pending_txs = map (λ e. (e.0, replaced_tx old new e.1)) s.pending_txs;
  fee_rates = replaced_rate old new s.fee_rates;
}
