-- ===== src/Blaze/Steps/Safety.antt =====
-- The invariant of the steps: `IsSafe`, call by call.
use bifrost_node.Prelude.{
  ℕ, ◌≤◌, ◌≡◌, refl, sym, ◌∙◌, ap, inl, inr, some, List, [], ◌∷◌, ◌==◌, length, length-append, Dict,
  get, remove, get-insert, Bool-cases, Option-cases, done, arith,
}
use bifrost_node.Blaze.Types.{BtcTransaction, Config, Storage, at}
use bifrost_node.Blaze.Activation.Tolerance.{handle_tolerance_counter-le}
use bifrost_node.Blaze.Fees.{FeeRate, clear_fee_rates}
use bifrost_node.Blaze.Fees.Rates.{
  InRange, AreInRange, insert-AreInRange, live-AreInRange, submit_fee_rate-AreInRange,
}
use bifrost_node.Blaze.Outbound.{sequences, clear_outbound_pool}
use bifrost_node.Blaze.Outbound.Sequences.{
  AreDistinct, submit_outbound_requests-AreDistinct, clear_outbound_pool-AreDistinct,
}
use bifrost_node.Blaze.Utxos.{clear_utxos, broadcast_poll, replace_authority, replaced_rate}
use bifrost_node.Blaze.Utxos.Broadcast.{Polled, polled, broadcast_poll-Polled}
use bifrost_node.Blaze.Steps.{Step, Reachable}
use bifrost_node.Blaze.Steps.Others.{
  broadcast_poll-others, submit_fee_rate-others, submit_outbound_requests-others,
  remove_outbound_messages-clears, handle_tolerance_counter-others, finalization-fee_rates,
}
use bifrost_node.Blaze.Steps.Frame.{
  IsFramed, submit_utxos-IsFramed, set_activation-IsFramed, lock_utxos-IsFramed,
  unlock_utxos-IsFramed, clear_utxos-IsFramed, force_push_utxos-IsFramed,
}

-- The tolerance counter is within its threshold, every fee rate in range, no two messages of the
-- pool have one sequence, and every confirmed transaction has the votes of a majority.
pub record IsSafe (c : Config) (s : Storage) : Type 0 where
  pub tolerance : s.tolerance_counter ≤ c.tolerance_threshold
  pub rates : AreInRange c.max_fee_rate s.fee_rates
  pub distinct : AreDistinct (sequences c s.outbound_pool)
  pub confirmed :
      (txid : ℕ) (tx : BtcTransaction)
      → get txid s.confirmed_txs ≡ some tx
      → c.majority ≤ length tx.voters

IsFramed-IsSafe : (c : Config) (s s' : Storage) → IsFramed s s' → IsSafe c s → IsSafe c s'
IsFramed-IsSafe c s s' f h = record {
  tolerance = rw f.tolerance h.tolerance;
  rates = rw f.rates h.rates;
  distinct = rw f.outbound h.distinct;
  confirmed = λ txid tx there. h.confirmed txid tx (ap (get txid) (sym f.confirmed) ∙ there);
}

broadcast_poll-IsSafe :
    (c now : Config) (who txid : ℕ) (s s' : Storage)
    → c.majority ≤ now.majority
    → broadcast_poll now who txid s ≡ done s'
    → IsSafe c s
    → IsSafe c s'
broadcast_poll-IsSafe c now who txid s s' low e h =
    let (tolerance, rates, outbound) = broadcast_poll-others now who txid s s' e in
    record {
      tolerance = rw tolerance h.tolerance;
      rates = rw rates h.rates;
      distinct = rw outbound h.distinct;
      confirmed = λ k tx' there. elim (broadcast_poll-Polled now who txid s s' e) [
        | Polled.pending tx known fresh few same put utxos active ↦
            h.confirmed k tx' (ap (get k) (sym same) ∙ there)
        | Polled.confirmed tx known fresh enough put gone marked active ↦
            let stored = ap (get k) put ∙ get-insert k txid (polled who tx) s.confirmed_txs in
            elim (Bool-cases (k == txid)) [
              | inl here ↦
                  let same : tx' ≡ polled who tx = cc (rw here at stored, there) in
                  omega (
                    arith,
                    ap (λ t. length t.voters) same,
                    enough,
                    length-append tx.voters (who ∷ []),
                  )
              | inr away ↦ h.confirmed k tx' (sym (rw away at stored) ∙ there)
            ]
      ];
    }

remove-AreInRange : (top k : ℕ) (d : Dict FeeRate) → AreInRange top d → AreInRange top (remove k d)
remove-AreInRange top k [] h = tt
remove-AreInRange top k (e ∷ d) (h, hs) = elim (Bool-cases (k == e.0)) [
  | inl here ↦ rw here hs
  | inr away ↦ rw away (h, remove-AreInRange top k d hs)
]

get-InRange :
    (top k : ℕ) (rate : FeeRate) (d : Dict FeeRate)
    → AreInRange top d
    → get k d ≡ some rate
    → InRange top rate
get-InRange top k rate [] h e = absurd (cc e)
get-InRange top k rate (x ∷ d) (h, hs) e = elim (Bool-cases (k == x.0)) [
  | inl here ↦ let same : x.1 ≡ rate = cc (rw here at e) in rw (sym same) h
  | inr away ↦ get-InRange top k rate d hs (rw away at e)
]

replaced_rate-AreInRange :
    (top old new : ℕ) (d : Dict FeeRate)
    → AreInRange top d
    → AreInRange top (replaced_rate old new d)
replaced_rate-AreInRange top old new d h = elim (Option-cases (get old d)) [
  | inl absent ↦ rw (absent, replaced_rate) h
  | inr (rate, there) ↦
      rw (there, replaced_rate)
        (insert-AreInRange top new rate (remove old d) (get-InRange top old rate d h there)
          (remove-AreInRange top old d h))
]

cleared-IsSafe :
    (c : Config) (targets : List ℕ) (s : Storage)
    → IsSafe c s
    → IsSafe c (clear_outbound_pool targets s)
unfolding clear_outbound_pool
cleared-IsSafe c targets s h = record {
  tolerance = h.tolerance;
  rates = h.rates;
  distinct = clear_outbound_pool-AreDistinct c targets s h.distinct;
  confirmed = h.confirmed;
}

sequences-at :
    (c : Config) (majority max_fee_rate : ℕ) (ms : List ℕ)
    → sequences (at c majority max_fee_rate) ms ≡ sequences c ms
unfolding sequences
sequences-at c majority max_fee_rate [] = refl
sequences-at c majority max_fee_rate (m ∷ ms) =
    let rest = sequences-at c majority max_fee_rate ms in
    elim (Option-cases (c.sequence m)) [
      | inl unread ↦ rw (unread, sequences) rest
      | inr (n, read) ↦ rw (read, sequences) (ap (λ l. n ∷ l) rest)
    ]

Step-IsSafe :
    (c : Config) (majority max_fee_rate : ℕ) (s s' : Storage)
    → c.majority ≤ majority
    → max_fee_rate ≤ c.max_fee_rate
    → Step (at c majority max_fee_rate) s s'
    → IsSafe c s
    → IsSafe c s'
unfolding replace_authority clear_fee_rates
Step-IsSafe c m f s s' low high (Step.activation b e) h =
    IsFramed-IsSafe c s s' (set_activation-IsFramed b s s' e) h
Step-IsSafe c m f s s' low high (Step.submission who utxos e) h =
    IsFramed-IsSafe c s s' (submit_utxos-IsFramed (at c m f) who utxos s s' e) h
Step-IsSafe c m f s s' low high (Step.poll who txid e) h =
    broadcast_poll-IsSafe c (at c m f) who txid s s' low e h
Step-IsSafe c m f s s' low high (Step.rate who long short e) h =
    let (tolerance, outbound, confirmed) =
      submit_fee_rate-others (at c m f) who long short s s' e in
    record {
      tolerance = rw tolerance h.tolerance;
      rates =
          submit_fee_rate-AreInRange (at c m f) c.max_fee_rate who long short s s' e high h.rates;
      distinct = rw outbound h.distinct;
      confirmed = λ txid tx there. h.confirmed txid tx (ap (get txid) (sym confirmed) ∙ there);
    }
Step-IsSafe c m f s s' low high (Step.requests who messages e) h =
    let (tolerance, rates, confirmed) =
      submit_outbound_requests-others (at c m f) who messages s s' e in
    record {
      tolerance = rw tolerance h.tolerance;
      rates = rw rates h.rates;
      distinct = rw (sym (sequences-at c m f s'.outbound_pool)) (
          submit_outbound_requests-AreDistinct (at c m f) who messages s s' e
            (rw (sequences-at c m f s.outbound_pool) h.distinct));
      confirmed = λ txid tx there. h.confirmed txid tx (ap (get txid) (sym confirmed) ∙ there);
    }
Step-IsSafe c m f s s' low high (Step.push utxos e) h =
    IsFramed-IsSafe c s s' (force_push_utxos-IsFramed (at c m f) utxos s s' e) h
Step-IsSafe c m f s s' low high (Step.removal messages e) h =
    let same = remove_outbound_messages-clears messages s s' e in
    rw same (cleared-IsSafe c messages s h)
Step-IsSafe c m f s s' low high (Step.lock txid inputs e) h =
    IsFramed-IsSafe c s s' (lock_utxos-IsFramed txid inputs s s' e) h
Step-IsSafe c m f s s' low high (Step.unlock txid e) h =
    IsFramed-IsSafe c s s' (unlock_utxos-IsFramed txid s s' e) h
Step-IsSafe c m f s s' low high (Step.clearance e) h =
    rw e (IsFramed-IsSafe c s (clear_utxos s) (clear_utxos-IsFramed s) h)
Step-IsSafe c m f s s' low high (Step.sent targets e) h = rw e (cleared-IsSafe c targets s h)
Step-IsSafe c m f s s' low high (Step.tolerance b e) h =
    let (rates, outbound, confirmed) = handle_tolerance_counter-others (at c m f) b s in
    rw e (record {
      tolerance = handle_tolerance_counter-le (at c m f) b s;
      rates = rw rates h.rates;
      distinct = rw outbound h.distinct;
      confirmed = λ txid tx there. h.confirmed txid tx (ap (get txid) (sym confirmed) ∙ there);
    })
Step-IsSafe c m f s s' low high (Step.finalization n rates e) h =
    rw (finalization-fee_rates (at c m f) n s s' rates e) (record {
      tolerance = h.tolerance;
      rates = live-AreInRange c.max_fee_rate n s.fee_rates h.rates;
      distinct = h.distinct;
      confirmed = h.confirmed;
    })
Step-IsSafe c m f s s' low high (Step.fee_rates_clearance e) h =
    rw e (record {
      tolerance = h.tolerance;
      rates = tt;
      distinct = h.distinct;
      confirmed = h.confirmed;
    })
Step-IsSafe c m f s s' low high (Step.replacement old new e) h = rw e (record {
  tolerance = h.tolerance;
  rates = replaced_rate-AreInRange c.max_fee_rate old new s.fee_rates h.rates;
  distinct = h.distinct;
  confirmed = h.confirmed;
})
Step-IsSafe c m f s s' low high (Step.block n e) h = rw e (record {
  tolerance = h.tolerance;
  rates = h.rates;
  distinct = h.distinct;
  confirmed = h.confirmed;
})

-- Take any run of the pallet's calls, in whatever order, with whatever majority and maximum fee rate
-- the other pallets hold at each call, from a state where this holds for the lowest of these
-- majorities and the highest of these maxima. It then holds at the end: the tolerance counter is
-- within its threshold, every fee rate between 1 and the highest maximum, no two messages of the
-- pool have one sequence, and every confirmed transaction has at least as many votes as the lowest
-- majority.
pub Reachable-IsSafe : {c : Config} {s s' : Storage} → IsSafe c s → Reachable c s s' → IsSafe c s'
Reachable-IsSafe h Reachable.here = h
Reachable-IsSafe {c} h (Reachable.next {t} {u} majority max_fee_rate r low high step) =
    Step-IsSafe c majority max_fee_rate t u low high step (Reachable-IsSafe h r)
