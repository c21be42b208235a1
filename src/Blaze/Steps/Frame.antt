-- ===== src/Blaze/Steps/Frame.antt =====
-- What the calls on UTXOs leave as it was.
use bifrost_node.Prelude.{
  ℕ, ◌≡◌, refl, sym, ◌∙◌, inl, inr, Bool, List, [], ◌∷◌, get, remove, done, Fallible-cases, arith,
  Option-cases,
}
use bifrost_node.Blaze.Coins.{UtxoInfoWithSize}
use bifrost_node.Blaze.Types.{UtxoStatus, UtxoInfo, Config, Storage}
use bifrost_node.Blaze.Activation.{ensure_activation, set_activation}
use bifrost_node.Blaze.Utxos.{
  submit_utxos, submit_each, submit_utxo, vote_utxo, new_utxo, with_status, set_status, lock_utxos,
  unlock_utxos, clear_utxos, force_push_utxo, force_push_each, force_push_utxos,
}

pub record IsFramed (s s' : Storage) : Type 0 where
  pub tolerance : s'.tolerance_counter ≡ s.tolerance_counter
  pub rates : s'.fee_rates ≡ s.fee_rates
  pub outbound : s'.outbound_pool ≡ s.outbound_pool
  pub confirmed : s'.confirmed_txs ≡ s.confirmed_txs

IsFramed-refl : {s : Storage} → IsFramed s s
IsFramed-refl = record { tolerance = refl; rates = refl; outbound = refl; confirmed = refl }

IsFramed-trans : {s t u : Storage} → IsFramed s t → IsFramed t u → IsFramed s u
IsFramed-trans f g = record {
  tolerance = g.tolerance ∙ f.tolerance;
  rates = g.rates ∙ f.rates;
  outbound = g.outbound ∙ f.outbound;
  confirmed = g.confirmed ∙ f.confirmed;
}

submit_utxo-IsFramed :
    (c : Config) (who : ℕ) (utxo : UtxoInfo) (s s' : Storage)
    → submit_utxo c who utxo s ≡ done s'
    → IsFramed s s'
unfolding submit_utxo vote_utxo new_utxo
submit_utxo-IsFramed c who utxo s s' e = record {
  tolerance = ground arith;
  rates = ground arith;
  outbound = ground arith;
  confirmed = ground arith;
}

submit_each-IsFramed :
    (c : Config) (who : ℕ) (utxos : List UtxoInfo) (s s' : Storage)
    → submit_each c who utxos s ≡ done s'
    → IsFramed s s'
unfolding submit_each
submit_each-IsFramed c who [] s s' e = let same : s' ≡ s = cc e in rw same IsFramed-refl
submit_each-IsFramed c who (utxo ∷ utxos) s s' e =
    elim (Fallible-cases (submit_utxo c who utxo s)) [
      | inl (why, failure) ↦ absurd (cc (rw (failure, submit_each) at e))
      | inr (t, first) ↦
          IsFramed-trans (submit_utxo-IsFramed c who utxo s t first)
            (submit_each-IsFramed c who utxos t s' (rw first at e))
    ]

pub submit_utxos-IsFramed :
    (c : Config) (who : ℕ) (utxos : List UtxoInfo) (s s' : Storage)
    → submit_utxos c who utxos s ≡ done s'
    → IsFramed s s'
unfolding submit_utxos ensure_activation
submit_utxos-IsFramed c who utxos s s' e = submit_each-IsFramed c who utxos s s' (ground arith)

pub set_activation-IsFramed :
    (b : Bool) (s s' : Storage) → set_activation b s ≡ done s' → IsFramed s s'
unfolding set_activation
set_activation-IsFramed b s s' e = record {
  tolerance = ground arith;
  rates = ground arith;
  outbound = ground arith;
  confirmed = ground arith;
}

with_status-IsFramed :
    (status : UtxoStatus) (inputs : List UtxoInfoWithSize) (s s' : Storage)
    → with_status status inputs s ≡ done s'
    → IsFramed s s'
with_status-IsFramed status inputs s s' e =
    elim (Fallible-cases (set_status status inputs s.utxos)) [
      | inl (why, failure) ↦ absurd (cc (rw failure at e))
      | inr (d, changed) ↦
          let done_with = rw changed at e in
          record {
            tolerance = cc done_with;
            rates = cc done_with;
            outbound = cc done_with;
            confirmed = cc done_with;
          }
    ]

pub lock_utxos-IsFramed :
    (txid : ℕ) (inputs : List UtxoInfoWithSize) (s s' : Storage)
    → lock_utxos txid inputs s ≡ done s'
    → IsFramed s s'
unfolding lock_utxos
lock_utxos-IsFramed txid inputs s s' e =
    elim (Fallible-cases (with_status UtxoStatus.locked inputs s)) [
      | inl (why, failure) ↦ absurd (cc (rw (failure, lock_utxos) at e))
      | inr (t, first) ↦
          let f = with_status-IsFramed UtxoStatus.locked inputs s t first in
          let last = rw (first, lock_utxos) at e in
          record {
            tolerance = cc (last, f.tolerance);
            rates = cc (last, f.rates);
            outbound = cc (last, f.outbound);
            confirmed = cc (last, f.confirmed);
          }
    ]

pub unlock_utxos-IsFramed :
    (txid : ℕ) (s s' : Storage) → unlock_utxos txid s ≡ done s' → IsFramed s s'
unfolding unlock_utxos
unlock_utxos-IsFramed txid s s' e = elim (Option-cases (get txid s.pending_txs)) [
  | inl absent ↦ absurd (cc (rw (absent, unlock_utxos) at e))
  | inr (tx, there) ↦
      let f =
        with_status-IsFramed UtxoStatus.available tx.inputs
          (record s { pending_txs = remove txid s.pending_txs }) s'
          (rw (there, unlock_utxos) at e) in
      record {
        tolerance = f.tolerance;
        rates = f.rates;
        outbound = f.outbound;
        confirmed = f.confirmed;
      }
]

force_push_utxo-IsFramed :
    (c : Config) (utxo : UtxoInfo) (s : Storage) → IsFramed s (force_push_utxo c utxo s)
unfolding force_push_utxo
force_push_utxo-IsFramed c utxo s = record {
  tolerance = ground arith;
  rates = ground arith;
  outbound = ground arith;
  confirmed = ground arith;
}

force_push_each-IsFramed :
    (c : Config) (utxos : List UtxoInfo) (s : Storage) → IsFramed s (force_push_each c utxos s)
unfolding force_push_each
force_push_each-IsFramed c [] s = IsFramed-refl
force_push_each-IsFramed c (utxo ∷ utxos) s =
    IsFramed-trans (force_push_utxo-IsFramed c utxo s)
      (force_push_each-IsFramed c utxos (force_push_utxo c utxo s))

pub clear_utxos-IsFramed : (s : Storage) → IsFramed s (clear_utxos s)
unfolding clear_utxos
clear_utxos-IsFramed s = record {
  tolerance = refl;
  rates = refl;
  outbound = refl;
  confirmed = refl;
}

pub force_push_utxos-IsFramed :
    (c : Config) (utxos : List UtxoInfo) (s s' : Storage)
    → force_push_utxos c utxos s ≡ done s'
    → IsFramed s s'
unfolding force_push_utxos ensure_activation
force_push_utxos-IsFramed c utxos s s' e =
    let same : force_push_each c utxos (clear_utxos s) ≡ s' = ground arith in
    rw (sym same)
      (IsFramed-trans (clear_utxos-IsFramed s) (force_push_each-IsFramed c utxos (clear_utxos s)))
