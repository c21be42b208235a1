-- ===== src/Blaze/Steps/Others.antt =====
-- What the calls on votes, rates, messages and failures leave as it was.
use bifrost_node.Prelude.{
  ℕ, ◌≡◌, refl, ◌∙◌, inl, inr, Bool, Option, some, List, [], ◌∷◌, Bool-cases, Option-cases, done,
  arith,
}
use bifrost_node.Blaze.Types.{Config, Storage}
use bifrost_node.Blaze.Activation.{ensure_activation, handle_tolerance_counter}
use bifrost_node.Blaze.Fees.{submit_fee_rate, live, finalized, try_fee_rate_finalization}
use bifrost_node.Blaze.Outbound.{
  sequences, submit_outbound_requests, remove_outbound_messages, clear_outbound_pool,
  submit_messages, submit_message, Pool, is_empty,
}
use bifrost_node.Blaze.Utxos.{broadcast_poll}

pub broadcast_poll-others :
    (c : Config) (who txid : ℕ) (s s' : Storage)
    → broadcast_poll c who txid s ≡ done s'
    → (s'.tolerance_counter ≡ s.tolerance_counter)
      × (s'.fee_rates ≡ s.fee_rates)
      × (s'.outbound_pool ≡ s.outbound_pool)
unfolding broadcast_poll ensure_activation
broadcast_poll-others c who txid s s' e = ground arith

pub submit_fee_rate-others :
    (c : Config) (who lt_fee_rate fee_rate : ℕ) (s s' : Storage)
    → submit_fee_rate c who lt_fee_rate fee_rate s ≡ done s'
    → (s'.tolerance_counter ≡ s.tolerance_counter)
      × (s'.outbound_pool ≡ s.outbound_pool)
      × (s'.confirmed_txs ≡ s.confirmed_txs)
unfolding submit_fee_rate ensure_activation
submit_fee_rate-others c who lt_fee_rate fee_rate s s' e = ground arith

pub submit_message-state :
    (c : Config) (who m : ℕ) (p : Pool)
    → ((submit_message c who m p).state.tolerance_counter ≡ p.state.tolerance_counter)
      × ((submit_message c who m p).state.fee_rates ≡ p.state.fee_rates)
      × ((submit_message c who m p).state.confirmed_txs ≡ p.state.confirmed_txs)
unfolding submit_message
submit_message-state c who m p = ground arith

pub submit_messages-state :
    (c : Config) (who : ℕ) (ms : List ℕ) (p : Pool)
    → ((submit_messages c who ms p).state.tolerance_counter ≡ p.state.tolerance_counter)
      × ((submit_messages c who ms p).state.fee_rates ≡ p.state.fee_rates)
      × ((submit_messages c who ms p).state.confirmed_txs ≡ p.state.confirmed_txs)
unfolding submit_messages
submit_messages-state c who [] p = (refl, refl, refl)
submit_messages-state c who (m ∷ ms) p =
    let (tolerance, rates, confirmed) = submit_messages-state c who ms (submit_message c who m p) in
    let (tolerance', rates', confirmed') = submit_message-state c who m p in
    (tolerance ∙ tolerance', rates ∙ rates', confirmed ∙ confirmed')

pub submit_outbound_requests-others :
    (c : Config) (who : ℕ) (ms : List ℕ) (s s' : Storage)
    → submit_outbound_requests c who ms s ≡ done s'
    → (s'.tolerance_counter ≡ s.tolerance_counter)
      × (s'.fee_rates ≡ s.fee_rates)
      × (s'.confirmed_txs ≡ s.confirmed_txs)
unfolding submit_outbound_requests
submit_outbound_requests-others c who ms s s' e =
    let p : Pool = record {
      messages = s.outbound_pool;
      sequences = sequences c s.outbound_pool;
      state = s;
    } in
    let (tolerance, rates, confirmed) = submit_messages-state c who ms p in
    elim (Bool-cases (is_empty ms)) [
      | inl nothing ↦ absurd (cc (rw (nothing, submit_outbound_requests) at e))
      | inr something ↦
          let put = rw (something, submit_outbound_requests) at e in
          (cc (put, tolerance), cc (put, rates), cc (put, confirmed))
    ]

pub remove_outbound_messages-clears :
    (messages : List ℕ) (s s' : Storage)
    → remove_outbound_messages messages s ≡ done s'
    → s' ≡ clear_outbound_pool messages s
unfolding remove_outbound_messages ensure_activation
remove_outbound_messages-clears messages s s' e = ground arith

pub handle_tolerance_counter-others :
    (c : Config) (b : Bool) (s : Storage)
    → ((handle_tolerance_counter c b s).fee_rates ≡ s.fee_rates)
      × ((handle_tolerance_counter c b s).outbound_pool ≡ s.outbound_pool)
      × ((handle_tolerance_counter c b s).confirmed_txs ≡ s.confirmed_txs)
unfolding handle_tolerance_counter
handle_tolerance_counter-others c b s = ground arith

pub finalization-fee_rates :
    (c : Config) (n : ℕ) (s s' : Storage) (rates : Option (ℕ × ℕ))
    → try_fee_rate_finalization c n s ≡ some (s', rates)
    → s' ≡ record s { fee_rates = live n s.fee_rates }
unfolding try_fee_rate_finalization
finalization-fee_rates c n s s' rates e = elim (Option-cases (finalized c (live n s.fee_rates))) [
  | inl panic ↦ absurd (cc (rw (panic, try_fee_rate_finalization) at e))
  | inr (r, known) ↦ cc (rw (known, try_fee_rate_finalization) at e)
]
