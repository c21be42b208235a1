-- ===== src/Blaze/Outbound/Sequences.antt =====
-- About the sequences of the messages in the pool.
use bifrost_node.Prelude.{
  ℕ, ◌≡◌, refl, sym, ◌∙◌, ap, inl, inr, Bool, false, not, Bool-cases, Option-cases, some, List, [],
  ◌∷◌, ◌++◌, ◌==◌, done, arith, retain,
}
use bifrost_node.Blaze.Types.{Config, Storage, contains}
use bifrost_node.Blaze.Outbound.{
  sequences, Pool, submit_message, submit_messages, submit_outbound_requests, is_empty,
  clear_outbound_pool,
}

abbrev pub AreDistinct : List ℕ → Type 0
AreDistinct [] = Unit
AreDistinct (x ∷ xs) = (contains x xs ≡ false) × AreDistinct xs

contains-append :
    (x y : ℕ) (xs : List ℕ)
    → contains x xs ≡ false
    → (y == x) ≡ false
    → contains x (xs ++ y ∷ []) ≡ false
contains-append x y [] h e = ground arith
contains-append x y (z ∷ xs) h e = ground (arith, contains-append x y xs)

append-AreDistinct :
    (y : ℕ) (xs : List ℕ) → AreDistinct xs → contains y xs ≡ false → AreDistinct (xs ++ y ∷ [])
append-AreDistinct y [] h e = (refl, tt)
append-AreDistinct y (x ∷ xs) (h, hs) e =
    (contains-append x y xs h (ground arith), append-AreDistinct y xs hs (ground arith))

sequences-append :
    (c : Config) (m n : ℕ) (ms : List ℕ)
    → c.sequence m ≡ some n
    → sequences c (ms ++ m ∷ []) ≡ sequences c ms ++ n ∷ []
unfolding sequences
sequences-append c m n [] e = rw e refl
sequences-append c m n (x ∷ ms) e = elim (Option-cases (c.sequence x)) [
  | inl unread ↦ rw (unread, sequences) (sequences-append c m n ms e)
  | inr (k, read) ↦ rw (read, sequences) (ap (λ l. k ∷ l) (sequences-append c m n ms e))
]

-- What the loop keeps: its list of sequences is that of its pool, and they are distinct.
pub record IsTracked (c : Config) (p : Pool) : Type 0 where
  pub tracked : p.sequences ≡ sequences c p.messages
  pub distinct : AreDistinct p.sequences

submit_message-IsTracked :
    (c : Config) (who m : ℕ) (p : Pool) → IsTracked c p → IsTracked c (submit_message c who m p)
unfolding submit_message
submit_message-IsTracked c who m p h = elim (Bool-cases (contains m p.messages)) [
  | inl again ↦ rw (again, submit_message) h
  | inr fresh ↦ elim (Option-cases (c.sequence m)) [
    | inl unread ↦ rw (fresh, unread, submit_message) h
    | inr (n, read) ↦ elim (Bool-cases (contains n p.sequences)) [
      | inl taken ↦ rw (fresh, read, taken, submit_message) h
      | inr free ↦ elim (Bool-cases (c.verify_socket_message m)) [
        | inr bad ↦ rw (fresh, read, free, bad, submit_message) h
        | inl good ↦
            rw (fresh, read, free, good, submit_message)
              (record {
                tracked =
                    ap (λ l. l ++ n ∷ []) h.tracked ∙ sym (sequences-append c m n p.messages read);
                distinct = append-AreDistinct n p.sequences h.distinct free;
              })
      ]
    ]
  ]
]

submit_messages-IsTracked :
    (c : Config) (who : ℕ) (ms : List ℕ) (p : Pool)
    → IsTracked c p
    → IsTracked c (submit_messages c who ms p)
unfolding submit_messages
submit_messages-IsTracked c who [] p h = h
submit_messages-IsTracked c who (m ∷ ms) p h =
    submit_messages-IsTracked c who ms (submit_message c who m p)
      (submit_message-IsTracked c who m p h)

-- `submit_outbound_requests` keeps the sequences of the messages in the pool distinct, against
-- earlier submissions and within the same one.
pub submit_outbound_requests-AreDistinct :
    (c : Config) (who : ℕ) (ms : List ℕ) (s s' : Storage)
    → submit_outbound_requests c who ms s ≡ done s'
    → AreDistinct (sequences c s.outbound_pool)
    → AreDistinct (sequences c s'.outbound_pool)
unfolding submit_outbound_requests
submit_outbound_requests-AreDistinct c who ms s s' e h = elim (Bool-cases (is_empty ms)) [
  | inl nothing ↦ absurd (cc (rw (nothing, submit_outbound_requests) at e))
  | inr something ↦
      let p : Pool = record {
        messages = s.outbound_pool;
        sequences = sequences c s.outbound_pool;
        state = s;
      } in
      let final = submit_messages-IsTracked c who ms p (record { tracked = refl; distinct = h }) in
      let put = rw (something, submit_outbound_requests) at e in
      let same : s'.outbound_pool ≡ (submit_messages c who ms p).messages = cc put in
      rw same (rw final.tracked at final.distinct)
]

contains-retain :
    (x : ℕ) (c : Config) (p : ℕ → Bool) (ms : List ℕ)
    → contains x (sequences c ms) ≡ false
    → contains x (sequences c (retain p ms)) ≡ false
unfolding sequences
contains-retain x c p [] h = refl
contains-retain x c p (m ∷ ms) h = ground (arith, contains-retain x c p ms)

retain-AreDistinct :
    (c : Config) (p : ℕ → Bool) (ms : List ℕ)
    → AreDistinct (sequences c ms)
    → AreDistinct (sequences c (retain p ms))
unfolding sequences
retain-AreDistinct c p [] h = tt
retain-AreDistinct c p (m ∷ ms) h = elim (Option-cases (c.sequence m)) [
  | inl unread ↦ ground (arith, retain-AreDistinct c p ms)
  | inr (n, read) ↦ ground (arith, retain-AreDistinct c p ms, contains-retain n c p ms)
]

pub clear_outbound_pool-AreDistinct :
    (c : Config) (targets : List ℕ) (s : Storage)
    → AreDistinct (sequences c s.outbound_pool)
    → AreDistinct (sequences c (clear_outbound_pool targets s).outbound_pool)
unfolding clear_outbound_pool
clear_outbound_pool-AreDistinct c targets s h =
    retain-AreDistinct c (λ m. not (contains m targets)) s.outbound_pool h
