-- ===== src/Blaze/Utxos/Votes.antt =====
-- What one submission of a relayer does to the entry of each UTXO.
use bifrost_node.Prelude.{
  ℕ, ◌<◌, ◌≡◌, refl, sym, ◌∙◌, ap, ◌⊎◌, inl, inr, true, false, Bool-cases, Option-cases, Option,
  none, some, List, [], ◌∷◌, ◌++◌, leb, ◌==◌, ==_iff, if◌then◌else◌, length, get, insert,
  get-insert, update, add32, done, Fallible-cases, arith,
}
use bifrost_node.Blaze.Types.{
  UtxoStatus, Utxo, UtxoInfo, Config, Storage, contains, is_unconfirmed,
  max_unconfirmed_utxos_per_relayer,
}
use bifrost_node.Blaze.Activation.{ensure_activation}
use bifrost_node.Blaze.Utxos.{
  vote_utxo, new_utxo, submit_utxo, submit_each, submit_utxos, sized, release_first,
}

abbrev pub status_after : Config → List ℕ → UtxoStatus
status_after c voters =
    if leb c.majority (length voters) then UtxoStatus.available else UtxoStatus.unconfirmed

-- How a submission of `who` may change the entry of a UTXO.
pub data Voted (c : Config) (who : ℕ) (before after : Option Utxo) : Type 0 where
  kept : after ≡ before → Voted c who before after
  opened :
      (u : Utxo)
      → before ≡ none
      → after ≡ some u
      → u.status ≡ UtxoStatus.unconfirmed
      → u.voters ≡ who ∷ []
      → Voted c who before after
  counted :
      (u v : Utxo)
      → before ≡ some u
      → u.status ≡ UtxoStatus.unconfirmed
      → contains who u.voters ≡ false
      → after ≡ some v
      → v.inner ≡ u.inner
      → v.voters ≡ u.voters ++ who ∷ []
      → v.status ≡ status_after c v.voters
      → Voted c who before after

pub contains-last : (x : ℕ) (xs : List ℕ) → contains x (xs ++ x ∷ []) ≡ true
contains-last x [] = ground arith
contains-last x (y ∷ ys) = ground (arith, contains-last x ys)

vote_twice :
    (who : ℕ) (u v : Utxo) (others : List ℕ)
    → u ≡ v
    → u.voters ≡ others ++ who ∷ []
    → contains who v.voters ≡ false
    → ⊥
vote_twice who u v others e voted fresh =
    let again : contains who v.voters ≡ true =
      ap (λ w. contains who w.voters) (sym e)
      ∙ ap (contains who) voted
      ∙ contains-last who others in
    cc

-- After a vote of `who`, the same submission changes the entry no more.
Voted-trans :
    {c : Config} {who : ℕ} {a b d : Option Utxo}
    → Voted c who a b
    → Voted c who b d
    → Voted c who a d
Voted-trans (Voted.kept e) (Voted.kept e') = Voted.kept (e' ∙ e)
Voted-trans (Voted.kept e) (Voted.opened u x y z w) = Voted.opened u (sym e ∙ x) y z w
Voted-trans (Voted.kept e) (Voted.counted u v x y z w i j k) =
    Voted.counted u v (sym e ∙ x) y z w i j k
Voted-trans (Voted.opened u x y z w) (Voted.kept e) = Voted.opened u x (e ∙ y) z w
Voted-trans (Voted.counted u v x y z w i j k) (Voted.kept e) = Voted.counted u v x y z (e ∙ w) i j k
Voted-trans (Voted.opened u x y z w) (Voted.opened u' x' y' z' w') = absurd (cc)
Voted-trans {who = who} (Voted.opened u x y z w) (Voted.counted u' v' x' y' z' w' i' j' k') =
    absurd (vote_twice who u u' [] (cc) w z')
Voted-trans (Voted.counted u v x y z w i j k) (Voted.opened u' x' y' z' w') = absurd (cc)
Voted-trans {who = who} (Voted.counted u v x y z w i j k)
      (Voted.counted u' v' x' y' z' w' i' j' k') =
    absurd (vote_twice who v u' u.voters (cc) j z')

abbrev pub voted : Config → ℕ → Utxo → Utxo
voted c who u = record u {
  voters = u.voters ++ who ∷ [];
  status = status_after c (u.voters ++ who ∷ []);
}

unconfirmed_lem : (st : UtxoStatus) → is_unconfirmed st ≡ true → st ≡ UtxoStatus.unconfirmed
unconfirmed_lem UtxoStatus.unconfirmed e = refl
unconfirmed_lem UtxoStatus.available e = cc
unconfirmed_lem UtxoStatus.locked e = cc
unconfirmed_lem UtxoStatus.used e = cc

-- The three ways in which a vote on a known UTXO goes through.
pub vote_utxo-cases :
    (c : Config) (who hash : ℕ) (u : Utxo) (s s' : Storage)
    → vote_utxo c who hash u s ≡ done s'
    → (s' ≡ s)
      ⊎ ((u.status ≡ UtxoStatus.unconfirmed)
          × (contains who u.voters ≡ false)
          × (s'.utxos ≡ insert hash (voted c who u) s.utxos)
          × (s'.unconfirmed_utxo_count ≡ (
              if leb c.majority (length (u.voters ++ who ∷ []))
              then release_first (u.voters ++ who ∷ []) s.unconfirmed_utxo_count
              else s.unconfirmed_utxo_count)))
unfolding vote_utxo
vote_utxo-cases c who hash u s s' e = elim (Bool-cases (is_unconfirmed u.status)) [
  | inr settled ↦ inl (cc (rw (settled, vote_utxo) at e))
  | inl pending ↦ elim (Bool-cases (contains who u.voters)) [
    | inl again ↦ inl (cc (rw (pending, again, vote_utxo) at e))
    | inr fresh ↦ let status = unconfirmed_lem u.status pending in ground arith
  ]
]

vote_utxo-Voted :
    (c : Config) (who hash : ℕ) (u : Utxo) (s s' : Storage)
    → get hash s.utxos ≡ some u
    → vote_utxo c who hash u s ≡ done s'
    → (h : ℕ) → Voted c who (get h s.utxos) (get h s'.utxos)
vote_utxo-Voted c who hash u s s' there e h = elim (vote_utxo-cases c who hash u s s' e) [
  | inl same ↦ Voted.kept (ap (λ t. get h t.utxos) same)
  | inr (status, fresh, put, _) ↦
      let found = ap (get h) put ∙ get-insert h hash (voted c who u) s.utxos in
      elim (Bool-cases (h == hash)) [
        | inl here ↦
            let same : h ≡ hash = (==_iff h hash).0 here in
            Voted.counted u (voted c who u) (ap (λ k. get k s.utxos) same ∙ there) status fresh
              (rw here at found) refl refl refl
        | inr away ↦ Voted.kept (rw away at found)
      ]
]

abbrev pub first_vote : Config → ℕ → UtxoInfo → List ℕ → ℕ → Utxo
first_vote c who utxo descriptor input_vbytes = record {
  inner = sized (c.utxo_hash utxo) utxo descriptor input_vbytes;
  status = UtxoStatus.unconfirmed;
  voters = who ∷ [];
}

-- A new UTXO is left out, or it is put down and counted.
pub new_utxo-cases :
    (c : Config) (who : ℕ) (utxo : UtxoInfo) (descriptor : List ℕ) (s s' : Storage)
    → new_utxo c who utxo descriptor s ≡ done s'
    → (s' ≡ s)
      ⊎ ((input_vbytes : ℕ) × (s.unconfirmed_utxo_count who < max_unconfirmed_utxos_per_relayer)
          × (s'.utxos
              ≡ insert (c.utxo_hash utxo) (first_vote c who utxo descriptor input_vbytes) s.utxos)
          × (s'.unconfirmed_utxo_count
              ≡ update s.unconfirmed_utxo_count who (add32 (s.unconfirmed_utxo_count who) 1)))
unfolding new_utxo
new_utxo-cases c who utxo descriptor s s' e =
    elim (Bool-cases (leb max_unconfirmed_utxos_per_relayer (s.unconfirmed_utxo_count who))) [
      | inl full ↦ inl (cc (rw (full, new_utxo) at e))
      | inr room ↦ elim (Option-cases (c.estimate_input_size descriptor)) [
        | inl unsized ↦ inl (cc (rw (room, unsized, new_utxo) at e))
        | inr (input_vbytes, e') ↦
            let put = rw (room, e', new_utxo) at e in
            inr (input_vbytes, ground arith, cc put, cc put)
      ]
    ]

new_utxo-Voted :
    (c : Config) (who : ℕ) (utxo : UtxoInfo) (descriptor : List ℕ) (s s' : Storage)
    → get (c.utxo_hash utxo) s.utxos ≡ none
    → new_utxo c who utxo descriptor s ≡ done s'
    → (h : ℕ) → Voted c who (get h s.utxos) (get h s'.utxos)
new_utxo-Voted c who utxo descriptor s s' fresh e h =
    elim (new_utxo-cases c who utxo descriptor s s' e) [
      | inl same ↦ Voted.kept (ap (λ t. get h t.utxos) same)
      | inr (input_vbytes, room, put, _) ↦
          let hash = c.utxo_hash utxo in
          let u = first_vote c who utxo descriptor input_vbytes in
          let found = ap (get h) put ∙ get-insert h hash u s.utxos in
          elim (Bool-cases (h == hash)) [
            | inl here ↦
                let same : h ≡ hash = (==_iff h hash).0 here in
                Voted.opened u (ap (λ k. get k s.utxos) same ∙ fresh) (rw here at found) refl refl
            | inr away ↦ Voted.kept (rw away at found)
          ]
    ]

submit_utxo-Voted :
    (c : Config) (who : ℕ) (utxo : UtxoInfo) (s s' : Storage)
    → submit_utxo c who utxo s ≡ done s'
    → (h : ℕ) → Voted c who (get h s.utxos) (get h s'.utxos)
unfolding submit_utxo
submit_utxo-Voted c who utxo s s' e h = elim (Option-cases (c.get_bonded_descriptor utxo.address)) [
  | inl unbonded ↦
      let same : s' ≡ s = cc (rw (unbonded, submit_utxo) at e) in
      Voted.kept (ap (λ t. get h t.utxos) same)
  | inr (descriptor, bonded) ↦ elim (Option-cases (get (c.utxo_hash utxo) s.utxos)) [
    | inl fresh ↦
        new_utxo-Voted c who utxo descriptor s s' fresh (rw (bonded, fresh, submit_utxo) at e) h
    | inr (u, there) ↦
        vote_utxo-Voted c who (c.utxo_hash utxo) u s s' there (rw (bonded, there, submit_utxo) at e)
          h
  ]
]

submit_each-Voted :
    (c : Config) (who : ℕ) (utxos : List UtxoInfo) (s s' : Storage)
    → submit_each c who utxos s ≡ done s'
    → (h : ℕ) → Voted c who (get h s.utxos) (get h s'.utxos)
unfolding submit_each
submit_each-Voted c who [] s s' e h =
    let same : s' ≡ s = cc e in Voted.kept (ap (λ t. get h t.utxos) same)
submit_each-Voted c who (utxo ∷ utxos) s s' e h = elim (Fallible-cases (submit_utxo c who utxo s)) [
  | inl (why, failure) ↦ absurd (cc (rw (failure, submit_each) at e))
  | inr (t, first) ↦
      Voted-trans (submit_utxo-Voted c who utxo s t first h)
        (submit_each-Voted c who utxos t s' (rw first at e) h)
]

-- After a submission, the entry of each UTXO is what it was, or a new one that only the submitter
-- has voted for, or a pending one with the first vote of the submitter at the end, available if
-- that makes the majority.
pub submit_utxos-Voted :
    (c : Config) (who : ℕ) (utxos : List UtxoInfo) (s s' : Storage)
    → submit_utxos c who utxos s ≡ done s'
    → (h : ℕ) → Voted c who (get h s.utxos) (get h s'.utxos)
unfolding submit_utxos ensure_activation
submit_utxos-Voted c who utxos s s' e h = submit_each-Voted c who utxos s s' (ground arith) h
