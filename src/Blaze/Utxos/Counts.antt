-- ===== src/Blaze/Utxos/Counts.antt =====
-- About `UnconfirmedUtxoCount`, under `submit_utxos` and `clear_utxos`.
use bifrost_node.Prelude.{
  ℕ, ◌+◌, ◌-◌, ◌≤◌, ◌<◌, ◌≡◌, refl, sym, ◌∙◌, ap, inl, inr, Bool, false, ◌&&◌, Bool-cases,
  Option-cases, none, some, List, [], ◌∷◌, ◌++◌, leb, ◌==◌, ==_iff, if◌then◌else◌, length,
  length-append, Dict, get, insert, get-insert, sum_of, retain, done, Fallible-cases, arith,
}
use bifrost_node.Blaze.Types.{
  UtxoStatus, Utxo, UtxoInfo, Config, Storage, is_unconfirmed, is_used,
  max_unconfirmed_utxos_per_relayer,
}
use bifrost_node.Blaze.Activation.{ensure_activation}
use bifrost_node.Blaze.Utxos.{
  submit_utxo, submit_each, submit_utxos, release_first, release_all, clear_utxos, vote_utxo,
  new_utxo,
}
use bifrost_node.Blaze.Utxos.Votes.{voted, first_vote, vote_utxo-cases, new_utxo-cases}

abbrev pub first_is : ℕ → List ℕ → Bool
first_is a [] = false
first_is a (v ∷ voters) = a == v

abbrev pub answers : ℕ → List ℕ → ℕ
answers a voters = if first_is a voters then 1 else 0

-- 1 for an entry that the first voter `a` still answers for.
abbrev pub open_for : ℕ → Utxo → ℕ
open_for a u = if is_unconfirmed u.status && first_is a u.voters then 1 else 0

abbrev pub owed : ℕ → Dict Utxo → ℕ
owed a = sum_of (λ e. open_for a e.1)

owed-insert_new :
    (a h : ℕ) (u : Utxo) (d : Dict Utxo)
    → get h d ≡ none
    → owed a (insert h u d) ≡ owed a d + open_for a u
owed-insert_new a h u [] e = omega arith
owed-insert_new a h u (x ∷ d) e = elim (Bool-cases (h == x.0)) [
  | inl here ↦ absurd (cc (rw here at e))
  | inr away ↦ rw away (omega (arith, owed-insert_new a h u d (rw away at e)))
]

owed-insert_old :
    (a h : ℕ) (u v : Utxo) (d : Dict Utxo)
    → get h d ≡ some u
    → owed a (insert h v d) + open_for a u ≡ owed a d + open_for a v
owed-insert_old a h u v [] e = absurd (cc e)
owed-insert_old a h u v (x ∷ d) e = elim (Bool-cases (h == x.0)) [
  | inl here ↦
      let same : x.1 ≡ u = cc (rw here at e) in rw here (omega (arith, ap (open_for a) same))
  | inr away ↦ rw away (omega (arith, owed-insert_old a h u v d (rw away at e)))
]

pub record IsCounted (s : Storage) : Type 0 where
  pub counts : (a : ℕ) → s.unconfirmed_utxo_count a ≡ owed a s.utxos
  pub started :
      (h : ℕ) (u : Utxo)
      → get h s.utxos ≡ some u
      → u.status ≡ UtxoStatus.unconfirmed
      → 0 < length u.voters
  pub capped : (a : ℕ) → s.unconfirmed_utxo_count a ≤ max_unconfirmed_utxos_per_relayer

-- A new entry with its first vote.
new-IsCounted :
    (c : Config) (who : ℕ) (utxo : UtxoInfo) (descriptor : List ℕ) (s s' : Storage)
    → get (c.utxo_hash utxo) s.utxos ≡ none
    → new_utxo c who utxo descriptor s ≡ done s'
    → IsCounted s
    → IsCounted s'
new-IsCounted c who utxo descriptor s s' fresh e h =
    elim (new_utxo-cases c who utxo descriptor s s' e) [
      | inl same ↦ rw same h
      | inr (input_vbytes, room, put, count) ↦
          let u = first_vote c who utxo descriptor input_vbytes in
          record {
            counts = λ a.
                let own : owed a s'.utxos ≡ owed a s.utxos + open_for a u =
                  ap (owed a) put ∙ owed-insert_new a (c.utxo_hash utxo) u s.utxos fresh in
                let before = h.counts a in
                let now = ap (λ f. f a) count in
                elim (Bool-cases (a == who)) [
                  | inl here ↦
                      let at_who = ap s.unconfirmed_utxo_count ((==_iff a who).0 here) in
                      omega (arith, room, rw here at now, rw here at own)
                  | inr away ↦ omega (arith, rw away at now, rw away at own)
                ];
            started = λ k v there pending.
                let found = ap (get k) put ∙ get-insert k (c.utxo_hash utxo) u s.utxos in
                elim (Bool-cases (k == c.utxo_hash utxo)) [
                  | inl here ↦
                      let same : v ≡ u = cc (rw here at found, there) in
                      omega (arith, ap (λ w. length w.voters) same)
                  | inr away ↦ h.started k v (sym (rw away at found) ∙ there) pending
                ];
            capped = λ a.
                let now = ap (λ f. f a) count in
                let before = h.capped a in
                elim (Bool-cases (a == who)) [
                  | inl here ↦ omega (arith, room, rw here at now)
                  | inr away ↦ omega (arith, rw away at now)
                ];
          }
    ]

first_is-append :
    (a who : ℕ) (voters : List ℕ)
    → 0 < length voters
    → first_is a (voters ++ who ∷ []) ≡ first_is a voters
first_is-append a who [] h = absurd (omega arith)
first_is-append a who (v ∷ voters) h = refl

-- What the majority takes off the counts.
release_first-count :
    (a : ℕ) (voters : List ℕ) (count : ℕ → ℕ)
    → release_first voters count a ≡ count a - answers a voters
unfolding release_first
release_first-count a [] count = omega arith
release_first-count a (v ∷ voters) count = elim (Bool-cases (a == v)) [
  | inl here ↦ rw here (omega (arith, ap count ((==_iff a v).0 here)))
  | inr away ↦ rw away (omega arith)
]

-- One more vote on an entry.
voted-IsCounted :
    (c : Config) (who hash : ℕ) (u : Utxo) (s s' : Storage)
    → get hash s.utxos ≡ some u
    → vote_utxo c who hash u s ≡ done s'
    → IsCounted s
    → IsCounted s'
voted-IsCounted c who hash u s s' there e h = elim (vote_utxo-cases c who hash u s s' e) [
  | inl same ↦ rw same h
  | inr (status, fresh, put, count) ↦
      let voters = u.voters ++ who ∷ [] in
      let nonempty = h.started hash u there status in
      let now : (a : ℕ)
          → (s'.unconfirmed_utxo_count a ≡ owed a s'.utxos)
            × (s'.unconfirmed_utxo_count a ≤ s.unconfirmed_utxo_count a) =
        λ a.
          let own : owed a s'.utxos + open_for a u ≡ owed a s.utxos + open_for a (voted c who u) =
            ap (λ d. owed a d + open_for a u) put
            ∙ owed-insert_old a hash u (voted c who u) s.utxos there in
          let before = h.counts a in
          let first = first_is-append a who u.voters nonempty in
          let open_before : open_for a u ≡ answers a u.voters = rw status refl in
          let released : release_first voters s.unconfirmed_utxo_count a
              ≡ s.unconfirmed_utxo_count a - answers a u.voters =
            rw first at (release_first-count a voters s.unconfirmed_utxo_count) in
          let counted = ap (λ f. f a) count in
          elim (Bool-cases (leb c.majority (length voters))) [
            | inl enough ↦
                let open_after : open_for a (voted c who u) ≡ 0 = rw enough refl in
                let taken : s'.unconfirmed_utxo_count a
                    ≡ release_first voters s.unconfirmed_utxo_count a =
                  rw enough at counted in
                (omega arith, omega arith)
            | inr few ↦
                let open_after : open_for a (voted c who u) ≡ answers a u.voters =
                  rw (few, first) refl in
                let taken : s'.unconfirmed_utxo_count a ≡ s.unconfirmed_utxo_count a =
                  rw few at counted in
                (omega arith, omega arith)
          ] in
      record {
        counts = λ a. (now a).0;
        started = λ k v found pending.
            let stored = ap (get k) put ∙ get-insert k hash (voted c who u) s.utxos in
            elim (Bool-cases (k == hash)) [
              | inl here ↦
                  let same : v ≡ voted c who u = cc (rw here at stored, found) in
                  omega (arith, ap (λ w. length w.voters) same, length-append u.voters (who ∷ []))
              | inr away ↦ h.started k v (sym (rw away at stored) ∙ found) pending
            ];
        capped = λ a. omega (arith, (now a).1, h.capped a);
      }
]

submit_utxo-IsCounted :
    (c : Config) (who : ℕ) (utxo : UtxoInfo) (s s' : Storage)
    → submit_utxo c who utxo s ≡ done s'
    → IsCounted s
    → IsCounted s'
unfolding submit_utxo
submit_utxo-IsCounted c who utxo s s' e h =
    elim (Option-cases (c.get_bonded_descriptor utxo.address)) [
      | inl unbonded ↦ let same : s' ≡ s = cc (rw (unbonded, submit_utxo) at e) in rw same h
      | inr (descriptor, bonded) ↦ elim (Option-cases (get (c.utxo_hash utxo) s.utxos)) [
        | inl fresh ↦
            new-IsCounted c who utxo descriptor s s' fresh (rw (bonded, fresh, submit_utxo) at e) h
        | inr (u, there) ↦
            voted-IsCounted c who (c.utxo_hash utxo) u s s' there
              (rw (bonded, there, submit_utxo) at e) h
      ]
    ]

submit_each-IsCounted :
    (c : Config) (who : ℕ) (utxos : List UtxoInfo) (s s' : Storage)
    → submit_each c who utxos s ≡ done s'
    → IsCounted s
    → IsCounted s'
unfolding submit_each
submit_each-IsCounted c who [] s s' e h = let same : s' ≡ s = cc e in rw same h
submit_each-IsCounted c who (utxo ∷ utxos) s s' e h =
    elim (Fallible-cases (submit_utxo c who utxo s)) [
      | inl (why, failure) ↦ absurd (cc (rw (failure, submit_each) at e))
      | inr (t, first) ↦
          submit_each-IsCounted c who utxos t s' (rw first at e)
            (submit_utxo-IsCounted c who utxo s t first h)
    ]

-- `submit_utxos` keeps the counts: each relayer's is the number of unconfirmed UTXOs that it was
-- the first to vote for, and at most the cap.
pub submit_utxos-IsCounted :
    (c : Config) (who : ℕ) (utxos : List UtxoInfo) (s s' : Storage)
    → submit_utxos c who utxos s ≡ done s'
    → IsCounted s
    → IsCounted s'
unfolding submit_utxos ensure_activation
submit_utxos-IsCounted c who utxos s s' e h =
    submit_each-IsCounted c who utxos s s' (ground arith) h

release_all-count :
    (a : ℕ) (d : Dict Utxo) (count : ℕ → ℕ) → release_all d count a ≡ count a - owed a d
unfolding release_all
release_all-count a [] count = omega arith
release_all-count a ((hash, u) ∷ d) count = elim (Bool-cases (is_unconfirmed u.status)) [
  | inl pending ↦
      let later = release_all-count a d (release_first u.voters count) in
      let first = release_first-count a u.voters count in rw pending (omega arith)
  | inr settled ↦ rw settled (omega (arith, release_all-count a d count))
]

owed-used : (a : ℕ) (d : Dict Utxo) → owed a (retain (λ e. is_used (e.1).status) d) ≡ 0
owed-used a [] = refl
owed-used a ((hash, u) ∷ d) = ground (arith, owed-used a d)

-- Where the counts are right, `clear_utxos` leaves every count at 0 and no unconfirmed UTXO to
-- count.
pub clear_utxos-counts :
    (s : Storage) (a : ℕ)
    → IsCounted s
    → ((clear_utxos s).unconfirmed_utxo_count a ≡ 0) × (owed a (clear_utxos s).utxos ≡ 0)
unfolding clear_utxos
clear_utxos-counts s a h = (
  omega (arith, release_all-count a s.utxos s.unconfirmed_utxo_count, h.counts a),
  owed-used a s.utxos,
)
