-- ===== src/Blaze/Utxos/Locks.antt =====
-- About `lock_utxos` and `unlock_utxos`, and the status of the inputs of a transaction.
use bifrost_node.Prelude.{
  ℕ, ◌≡◌, ◌≢◌, refl, sym, ◌∙◌, ap, inl, inr, Bool, true, false, ◌||◌, Bool-cases, Option-cases,
  Option, none, some, List, [], ◌∷◌, ◌==◌, ==_iff, if◌then◌else◌, Dict, get, insert, remove,
  get-insert, get-insert_eq, get-insert, done, Fallible-cases, arith,
}
use bifrost_node.Blaze.Coins.{UtxoInfoWithSize}
use bifrost_node.Blaze.Types.{UtxoStatus, Utxo, Storage}
use bifrost_node.Blaze.Utxos.{set_status, lock_utxos, unlock_utxos}

abbrev pub is_input : ℕ → List UtxoInfoWithSize → Bool
is_input h [] = false
is_input h (i ∷ inputs) = (h == i.hash) || is_input h inputs

abbrev pub with : UtxoStatus → Option Utxo → Option Utxo
with status none = none
with status (some u) = some (record u { status = status })

-- Where the loop goes through, it sets the status of the inputs and of nothing else.
pub get-set_status :
    (status : UtxoStatus) (inputs : List UtxoInfoWithSize) (d d' : Dict Utxo)
    → set_status status inputs d ≡ done d'
    → (h : ℕ) → get h d' ≡ (if is_input h inputs then with status (get h d) else get h d)
unfolding set_status
get-set_status status [] d d' e h = let same : d' ≡ d = cc e in ap (get h) same
get-set_status status (i ∷ inputs) d d' e h = elim (Option-cases (get i.hash d)) [
  | inl absent ↦ absurd (cc (rw (absent, set_status) at e))
  | inr (u, there) ↦
      let later =
        get-set_status status inputs (insert i.hash (record u { status = status }) d) d'
          (rw (there, set_status) at e) h in
      let put = get-insert h i.hash (record u { status = status }) d in
      elim (Bool-cases (h == i.hash)) [
        | inl here ↦
            let same : h ≡ i.hash = (==_iff h i.hash).0 here in
            let found : get h d ≡ some u = ap (λ k. get k d) same ∙ there in
            let stored = rw here at put in
            elim (Bool-cases (is_input h inputs)) [
              | inl again ↦ rw (here, found) (rw (again, stored) at later)
              | inr last ↦ rw (here, found) (rw (last, stored) at later)
            ]
        | inr away ↦ rw away (rw (rw away at put) at later)
      ]
]

-- It goes through when every input is there.
pub set_status-done :
    (status : UtxoStatus) (inputs : List UtxoInfoWithSize) (d : Dict Utxo)
    → ((h : ℕ) → is_input h inputs ≡ true → get h d ≢ none)
    → (d' : Dict Utxo) × (set_status status inputs d ≡ done d')
unfolding set_status
set_status-done status [] d known = (d, refl)
set_status-done status (i ∷ inputs) d known = elim (Option-cases (get i.hash d)) [
  | inl absent ↦ absurd (known i.hash (ground arith) absent)
  | inr (u, there) ↦
      let (d', e) =
        set_status-done status inputs (insert i.hash (record u { status = status }) d)
          (λ h inside absent.
            let put = get-insert h i.hash (record u { status = status }) d in
            elim (Bool-cases (h == i.hash)) [
              | inl here ↦ cc (rw here at put, absent)
              | inr away ↦ known h (ground arith) (cc (rw away at put, absent))
            ]) in
      (d', rw (there, set_status) e)
]

-- and then every input was there
pub set_status-known :
    (status : UtxoStatus) (inputs : List UtxoInfoWithSize) (d d' : Dict Utxo)
    → set_status status inputs d ≡ done d'
    → (h : ℕ) → is_input h inputs ≡ true
    → get h d ≢ none
unfolding set_status
set_status-known status [] d d' e h inside absent = cc
set_status-known status (i ∷ inputs) d d' e h inside absent = elim (Option-cases (get i.hash d)) [
  | inl missing ↦ absurd (cc (rw (missing, set_status) at e))
  | inr (u, there) ↦
      let put = get-insert h i.hash (record u { status = status }) d in
      elim (Bool-cases (h == i.hash)) [
        | inl here ↦
            let same : h ≡ i.hash = (==_iff h i.hash).0 here in
            let found : get h d ≡ some u = ap (λ k. get k d) same ∙ there in cc (found, absent)
        | inr away ↦
            set_status-known status inputs (insert i.hash (record u { status = status }) d) d'
              (rw (there, set_status) at e) h (ground arith) (rw away at put ∙ absent)
      ]
]

pub lock_utxos-changes :
    (txid : ℕ) (inputs : List UtxoInfoWithSize) (s s' : Storage)
    → lock_utxos txid inputs s ≡ done s'
    → (set_status UtxoStatus.locked inputs s.utxos ≡ done s'.utxos)
      × (s'.pending_txs ≡ insert txid (record { inputs = inputs; voters = [] }) s.pending_txs)
      × (s'.is_activated ≡ s.is_activated)
      × (s'.confirmed_txs ≡ s.confirmed_txs)
unfolding lock_utxos
lock_utxos-changes txid inputs s s' e =
    elim (Fallible-cases (set_status UtxoStatus.locked inputs s.utxos)) [
      | inl (why, failure) ↦ absurd (cc (rw (failure, lock_utxos) at e))
      | inr (d, locked) ↦
          let changed = rw (locked, lock_utxos) at e in
          (cc (changed, locked), cc changed, cc changed, cc changed)
    ]

-- What the UTXOs of `d` are when the inputs have the status.
abbrev pub restatus : UtxoStatus → List UtxoInfoWithSize → Dict Utxo → ℕ → Option Utxo
restatus status inputs d h = if is_input h inputs then with status (get h d) else get h d

-- When a lock goes through on inputs that were all available, all of them are locked and no other
-- UTXO has changed, and the transaction is pending, with these inputs and no vote. Unlocking it
-- succeeds then, gives back every UTXO as it was before the lock, and removes the transaction from
-- the pending ones.
pub unlock-lock :
    (txid : ℕ) (inputs : List UtxoInfoWithSize) (s s' : Storage)
    → lock_utxos txid inputs s ≡ done s'
    → ((h : ℕ) (u : Utxo)
        → is_input h inputs ≡ true
        → get h s.utxos ≡ some u
        → u.status ≡ UtxoStatus.available)
    → ((h : ℕ) → get h s'.utxos ≡ restatus UtxoStatus.locked inputs s.utxos h)
      × (get txid s'.pending_txs ≡ some (record { inputs = inputs; voters = [] }))
      × ((s'' : Storage) × (unlock_utxos txid s' ≡ done s'')
          × ((h : ℕ) → get h s''.utxos ≡ get h s.utxos)
          × (s''.pending_txs ≡ remove txid s'.pending_txs))
unfolding unlock_utxos
unlock-lock txid inputs s s' e free =
    let (locked, pending, _, _) = lock_utxos-changes txid inputs s s' e in
    let stored =
      ap (get txid) pending
      ∙ get-insert_eq txid (record { inputs = inputs; voters = [] }) s.pending_txs in
    let known = set_status-known UtxoStatus.locked inputs s.utxos s'.utxos locked in
    let first = get-set_status UtxoStatus.locked inputs s.utxos s'.utxos locked in
    let (d, given) = set_status-done UtxoStatus.available inputs s'.utxos (λ h inside absent.
      elim (Option-cases (get h s.utxos)) [
        | inl missing ↦ known h inside missing
        | inr (u, there) ↦ cc (rw (inside, there) at (first h), absent)
      ]) in
    (
      first,
      stored,
      (
        record s' { pending_txs = remove txid s'.pending_txs; utxos = d },
        rw (stored, given, unlock_utxos) refl,
        (λ h.
            let second = get-set_status UtxoStatus.available inputs s'.utxos d given h in
            elim (Bool-cases (is_input h inputs)) [
              | inr other ↦ rw other at second ∙ rw other at (first h)
              | inl inside ↦ elim (Option-cases (get h s.utxos)) [
                | inl missing ↦ absurd (known h inside missing)
                | inr (u, there) ↦
                    rw inside at second
                    ∙ ap (with UtxoStatus.available) (rw (inside, there) at (first h))
                    ∙ ap some (ap (λ st. record u { status = st }) (sym (free h u inside there)))
                    ∙ sym there
              ]
            ]),
        refl,
      ),
    )
