-- ===== src/Blaze/Utxos/Broadcast.antt =====
-- Votes on a broadcast transaction.
use bifrost_node.Prelude.{
  ℕ, ◌+◌, ◌≤◌, ◌<◌, ◌≡◌, ◌⊎◌, refl, ◌∙◌, ap, inl, inr, true, false, Bool-cases, Option-cases, some,
  [], ◌∷◌, ◌++◌, ltb, leb, length, get, insert, remove, length-append, contains_key, get-insert_eq,
  done, failed, Fallible-cases, arith,
}
use bifrost_node.Blaze.Types.{
  UtxoStatus, BtcTransaction, Config, Storage, Error, contains, max_authorities,
}
use bifrost_node.Blaze.Activation.{ensure_activation}
use bifrost_node.Blaze.Utxos.{broadcast_poll, set_status}
use bifrost_node.Blaze.Utxos.Votes.{contains-last}

abbrev pub polled : ℕ → BtcTransaction → BtcTransaction
polled who tx = record tx { voters = tx.voters ++ who ∷ [] }

-- What a vote that goes through changes: with the majority the transaction moves to the confirmed
-- ones and its inputs are used, and otherwise it stays with one more voter.
pub data Polled (c : Config) (who txid : ℕ) (s s' : Storage) : Type 0 where
  confirmed :
      (tx : BtcTransaction)
      → get txid s.pending_txs ≡ some tx
      → contains who tx.voters ≡ false
      → c.majority ≤ length tx.voters + 1
      → s'.confirmed_txs ≡ insert txid (polled who tx) s.confirmed_txs
      → s'.pending_txs ≡ remove txid s.pending_txs
      → set_status UtxoStatus.used tx.inputs s.utxos ≡ done s'.utxos
      → s'.is_activated ≡ true
      → Polled c who txid s s'
  pending :
      (tx : BtcTransaction)
      → get txid s.pending_txs ≡ some tx
      → contains who tx.voters ≡ false
      → length tx.voters + 1 < c.majority
      → s'.confirmed_txs ≡ s.confirmed_txs
      → s'.pending_txs ≡ insert txid (polled who tx) s.pending_txs
      → s'.utxos ≡ s.utxos
      → s'.is_activated ≡ true
      → Polled c who txid s s'

-- The guards that a vote has passed.
broadcast_poll-guards :
    (c : Config) (who txid : ℕ) (s s' : Storage)
    → broadcast_poll c who txid s ≡ done s'
    → (s.is_activated ≡ true)
      × (contains_key txid s.confirmed_txs ≡ false)
      × ((tx : BtcTransaction) × (get txid s.pending_txs ≡ some tx)
          × (contains who tx.voters ≡ false)
          × (ltb (length tx.voters) max_authorities ≡ true))
unfolding broadcast_poll ensure_activation
broadcast_poll-guards c who txid s s' e = elim (Option-cases (get txid s.pending_txs)) [
  | inl absent ↦ absurd (ground arith)
  | inr (tx, there) ↦ (ground arith, ground arith, (tx, there, ground arith, ground arith))
]

pub broadcast_poll-Polled :
    (c : Config) (who txid : ℕ) (s s' : Storage)
    → broadcast_poll c who txid s ≡ done s'
    → Polled c who txid s s'
unfolding broadcast_poll ensure_activation
broadcast_poll-Polled c who txid s s' e =
    let (active, unspent, (tx, there, fresh, room)) = broadcast_poll-guards c who txid s s' e in
    let voted = rw (active, unspent, there, fresh, room, broadcast_poll, ensure_activation) at e in
    elim (Bool-cases (leb c.majority (length (tx.voters ++ who ∷ [])))) [
      | inl enough ↦ elim (Fallible-cases (set_status UtxoStatus.used tx.inputs s.utxos)) [
        | inl (why, failure) ↦ absurd (cc (rw (enough, failure) at voted))
        | inr (utxos, marked) ↦
            let changed = rw (enough, marked) at voted in
            Polled.confirmed tx there fresh (ground (arith, length-append tx.voters (who ∷ [])))
              (cc changed) (cc changed) (cc (changed, marked)) (cc (changed, active))
      ]
      | inr few ↦
          Polled.pending tx there fresh (ground (arith, length-append tx.voters (who ∷ [])))
            (cc (rw few at voted)) (cc (rw few at voted)) (cc (rw few at voted))
            (cc (active, rw few at voted))
    ]

-- After a vote on a broadcast that went through, a second vote of the same relayer on it fails, as
-- already voted or as already spent.
pub broadcast_poll-again :
    (c : Config) (who txid : ℕ) (s s' : Storage)
    → broadcast_poll c who txid s ≡ done s'
    → (broadcast_poll c who txid s' ≡ failed Error.already_voted)
      ⊎ (broadcast_poll c who txid s' ≡ failed Error.already_spent)
unfolding broadcast_poll ensure_activation
broadcast_poll-again c who txid s s' e = elim (broadcast_poll-Polled c who txid s s' e) [
  | Polled.confirmed tx there fresh enough put gone marked active ↦
      let stored = ap (get txid) put ∙ get-insert_eq txid (polled who tx) s.confirmed_txs in
      let spent : contains_key txid s'.confirmed_txs ≡ true = rw (stored, contains_key) refl in
      inr (rw (active, spent, broadcast_poll, ensure_activation) refl)
  | Polled.pending tx there fresh few same put utxos active ↦
      let stored = ap (get txid) put ∙ get-insert_eq txid (polled who tx) s.pending_txs in
      let (_, unspent, _) = broadcast_poll-guards c who txid s s' e in
      let voted = contains-last who tx.voters in
      let spent : contains_key txid s'.confirmed_txs ≡ false =
        ap (contains_key txid) same ∙ unspent in
      inl (rw (active, spent, stored, voted, broadcast_poll, ensure_activation) refl)
]
