-- ===== src/Blaze/Utxos/Reports.antt =====
-- The votes of several relayers on one transaction, one after another.
use bifrost_node.Prelude.{
  ℕ, ◌+◌, ◌≤◌, ◌<◌, ◌≡◌, refl, sym, ◌∙◌, ap, inl, inr, true, false, Bool-cases, Option-cases, some,
  List, [], ◌∷◌, ◌++◌, ltb, leb, length, get, insert, remove, length-append, contains_key, Dict,
  get-insert_eq, done, ◌|>◌, arith,
}
use mathlib.Core.List.{append_assoc, append-nil}
use bifrost_node.Blaze.Coins.{UtxoInfoWithSize}
use bifrost_node.Blaze.Types.{
  UtxoStatus, Utxo, BtcTransaction, Config, Storage, Dispatch, Event, deposit_event, contains,
  max_authorities,
}
use bifrost_node.Blaze.Activation.{ensure_activation}
use bifrost_node.Blaze.Utxos.{broadcast_poll, set_status, lock_utxos}
use bifrost_node.Blaze.Utxos.Broadcast.{polled}
use bifrost_node.Blaze.Utxos.Locks.{
  is_input, with, restatus, get-set_status, set_status-done, set_status-known, lock_utxos-changes,
}

-- Each of these relayers reports that the transaction was broadcast.
abbrev pub poll_all : Config → ℕ → List ℕ → Storage → Dispatch
poll_all c txid [] s = done s
poll_all c txid (who ∷ others) s = broadcast_poll c who txid s |> poll_all c txid others

-- None of them has voted yet, nor is one of them there twice.
abbrev pub AreNew : List ℕ → List ℕ → Type 0
AreNew voters [] = Unit
AreNew voters (who ∷ others) = (contains who voters ≡ false) × AreNew (voters ++ who ∷ []) others

-- The transaction waits for votes.
record IsWaiting (txid : ℕ) (tx : BtcTransaction) (s : Storage) : Type 0 where
  active : s.is_activated ≡ true
  unspent : contains_key txid s.confirmed_txs ≡ false
  there : get txid s.pending_txs ≡ some tx

abbrev with_voters : List ℕ → BtcTransaction → BtcTransaction
with_voters voters tx = record tx { voters = voters }

module _ (c : Config) (txid : ℕ) where
  poll-stays :
      (who : ℕ) (tx : BtcTransaction) (s s' : Storage)
      → s'
        ≡ deposit_event
            (Event.broadcast_polled who txid false)
            (record s { pending_txs = insert txid (polled who tx) s.pending_txs })
      → IsWaiting txid tx s
      → contains who tx.voters ≡ false
      → ltb (length tx.voters) max_authorities ≡ true
      → leb c.majority (length (tx.voters ++ who ∷ [])) ≡ false
      → broadcast_poll c who txid s ≡ done s'
  unfolding broadcast_poll ensure_activation
  poll-stays who tx s s' e w fresh bounded below =
      rw (w.active, w.unspent, w.there, fresh, bounded, below, broadcast_poll, ensure_activation)
        (ap done (sym e))

  poll-moves :
      (who : ℕ) (tx : BtcTransaction) (s s' : Storage) (d : Dict Utxo)
      → s'
        ≡ deposit_event (Event.broadcast_polled who txid true) (record s {
          confirmed_txs = insert txid (polled who tx) s.confirmed_txs;
          pending_txs = remove txid s.pending_txs;
          utxos = d;
        })
      → IsWaiting txid tx s
      → contains who tx.voters ≡ false
      → ltb (length tx.voters) max_authorities ≡ true
      → leb c.majority (length (tx.voters ++ who ∷ [])) ≡ true
      → set_status UtxoStatus.used tx.inputs s.utxos ≡ done d
      → broadcast_poll c who txid s ≡ done s'
  unfolding broadcast_poll ensure_activation
  poll-moves who tx s s' d e w fresh bounded reached marked =
      rw
        (
          w.active, w.unspent, w.there, fresh, bounded, reached, marked, broadcast_poll,
          ensure_activation,
        )
        (ap done (sym e))

  poll-pending :
      (who : ℕ) (tx : BtcTransaction) (s : Storage)
      → IsWaiting txid tx s
      → contains who tx.voters ≡ false
      → length tx.voters < max_authorities
      → length tx.voters + 1 < c.majority
      → (s' : Storage) × (broadcast_poll c who txid s ≡ done s')
        × IsWaiting txid (polled who tx) s'
        × (s'.utxos ≡ s.utxos)
  poll-pending who tx s w fresh room few =
      let bounded : ltb (length tx.voters) max_authorities ≡ true = ground arith in
      let below : leb c.majority (length (tx.voters ++ who ∷ [])) ≡ false =
        ground (arith, length-append tx.voters (who ∷ [])) in
      (
        deposit_event (Event.broadcast_polled who txid false)
            (record s { pending_txs = insert txid (polled who tx) s.pending_txs }),
        poll-stays who tx s _ refl w fresh bounded below,
        record {
          active = w.active;
          unspent = w.unspent;
          there = get-insert_eq txid (polled who tx) s.pending_txs;
        },
        refl,
      )

  polls-pending :
      (early : List ℕ) (tx : BtcTransaction) (s : Storage)
      → IsWaiting txid tx s
      → AreNew tx.voters early
      → length tx.voters + length early < c.majority
      → c.majority ≤ max_authorities
      → (s' : Storage) × (poll_all c txid early s ≡ done s')
        × IsWaiting txid (with_voters (tx.voters ++ early) tx) s'
        × (s'.utxos ≡ s.utxos)
  polls-pending [] tx s w new few bound = (s, refl, rw (append-nil tx.voters) w, refl)
  polls-pending (who ∷ early) tx s w (fresh, new) few bound =
      let (t, first, waiting, same) = poll-pending who tx s w fresh (omega arith) (omega arith) in
      let (s', rest, final, same') =
        polls-pending early (polled who tx) t waiting new
          (omega (arith, length-append tx.voters (who ∷ []))) bound in
      (s', rw first rest, rw (sym (append_assoc tx.voters (who ∷ []) early)) final, same' ∙ same)

  poll-last :
      (who : ℕ) (tx : BtcTransaction) (s : Storage) (d : Dict Utxo)
      → IsWaiting txid tx s
      → contains who tx.voters ≡ false
      → length tx.voters + 1 ≡ c.majority
      → c.majority ≤ max_authorities
      → set_status UtxoStatus.used tx.inputs s.utxos ≡ done d
      → (s' : Storage) × (broadcast_poll c who txid s ≡ done s')
        × (get txid s'.confirmed_txs ≡ some (polled who tx))
        × (s'.utxos ≡ d)
  poll-last who tx s d w fresh enough bound marked =
      let bounded : ltb (length tx.voters) max_authorities ≡ true = ground arith in
      let reached : leb c.majority (length (tx.voters ++ who ∷ [])) ≡ true =
        ground (arith, length-append tx.voters (who ∷ [])) in
      (
        deposit_event (Event.broadcast_polled who txid true) (record s {
          confirmed_txs = insert txid (polled who tx) s.confirmed_txs;
          pending_txs = remove txid s.pending_txs;
          utxos = d;
        }),
        poll-moves who tx s _ d refl w fresh bounded reached marked,
        get-insert_eq txid (polled who tx) s.confirmed_txs,
        refl,
      )

  used_after_lock :
      (inputs : List UtxoInfoWithSize) (d t u : Dict Utxo)
      → set_status UtxoStatus.locked inputs d ≡ done t
      → set_status UtxoStatus.used inputs t ≡ done u
      → (h : ℕ) → get h u ≡ restatus UtxoStatus.used inputs d h
  used_after_lock inputs d t u locked marked h =
      let first = get-set_status UtxoStatus.locked inputs d t locked h in
      let second = get-set_status UtxoStatus.used inputs t u marked h in
      elim (Bool-cases (is_input h inputs)) [
        | inr other ↦ rw other (rw other at second ∙ rw other at first)
        | inl inside ↦ elim (Option-cases (get h d)) [
          | inl missing ↦
              rw (inside, missing)
                (rw inside at second ∙ ap (with UtxoStatus.used) (rw (inside, missing) at first))
          | inr (v, there) ↦
              rw (inside, there)
                (rw inside at second ∙ ap (with UtxoStatus.used) (rw (inside, there) at first))
        ]
      ]

  -- In an active pallet a transaction that was not confirmed before is locked, and as many relayers
  -- as the majority, none of them twice and at most as many as a transaction has room for, report
  -- it in a row. Each report goes through. Before the last one the transaction is not confirmed and
  -- no UTXO differs from after the lock. With the last one it is confirmed, with its inputs and
  -- exactly these voters in their order, all its inputs are used, and every other UTXO is as it was
  -- before the lock.
  pub polls-confirm :
      (inputs : List UtxoInfoWithSize) (early : List ℕ) (last : ℕ) (s s' : Storage)
      → s.is_activated ≡ true
      → contains_key txid s.confirmed_txs ≡ false
      → lock_utxos txid inputs s ≡ done s'
      → AreNew [] early
      → contains last early ≡ false
      → length early + 1 ≡ c.majority
      → c.majority ≤ max_authorities
      → (t : Storage) × (poll_all c txid early s' ≡ done t)
        × (contains_key txid t.confirmed_txs ≡ false)
        × (t.utxos ≡ s'.utxos)
        × ((u : Storage) × (broadcast_poll c last txid t ≡ done u)
            × (get txid u.confirmed_txs
                ≡ some (record { inputs = inputs; voters = early ++ last ∷ [] }))
            × ((h : ℕ) → get h u.utxos ≡ restatus UtxoStatus.used inputs s.utxos h))
  polls-confirm inputs early last s s' active unspent e new fresh enough bound =
      let (locked, pending, on, same) = lock_utxos-changes txid inputs s s' e in
      let tx : BtcTransaction = record { inputs = inputs; voters = [] } in
      let start : IsWaiting txid tx s' = record {
        active = on ∙ active;
        unspent = ap (contains_key txid) same ∙ unspent;
        there = ap (get txid) pending ∙ get-insert_eq txid tx s.pending_txs;
      } in
      let (t, voted, waiting, kept) = polls-pending early tx s' start new (omega arith) bound in
      let first = get-set_status UtxoStatus.locked inputs s.utxos s'.utxos locked in
      let known = set_status-known UtxoStatus.locked inputs s.utxos s'.utxos locked in
      let (d, marked) = set_status-done UtxoStatus.used inputs s'.utxos (λ h inside absent.
        elim (Option-cases (get h s.utxos)) [
          | inl missing ↦ known h inside missing
          | inr (v, there) ↦ cc (rw (inside, there) at (first h), absent)
        ]) in
      let (u, confirmed, stored, used) =
        poll-last last (with_voters early tx) t d waiting fresh enough bound (rw kept marked) in
      (
        t,
        voted,
        waiting.unspent,
        kept,
        (
          u,
          confirmed,
          stored,
          (λ h. ap (get h) used ∙ used_after_lock inputs s.utxos s'.utxos d locked marked h),
        ),
      )
