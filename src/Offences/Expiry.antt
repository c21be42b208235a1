-- ===== src/Offences/Expiry.antt =====
-- Which entries a new session leaves.
use bifrost_node.Prelude.{
  ℕ, ◌+◌, ◌≤◌, ◌<◌, ◌≡◌, refl, ap, ◌∙◌, ==_iff, inl, inr, Bool, true, false, not, Bool-cases, [],
  ◌∷◌, ltb, ◌==◌, if◌then◌else◌, retain, Option, none, some, Dict, get, sub32, u32_mod, arith,
}
use bifrost_node.Offences.{ValidatorOffenceInfo, Storage, refresh_offences}

-- Distinct validators, each with a latest offence that is not in the future.
abbrev pub ArePast : ℕ → Dict ValidatorOffenceInfo → Type 0
ArePast session [] = Unit
ArePast session (e ∷ d) =
    (get e.0 d ≡ none) × ((e.1).latest_offence_session_index ≤ session) × ArePast session d

abbrev pub is_recent : ℕ → ℕ → ValidatorOffenceInfo → Bool
is_recent expiration session v = not (ltb expiration (sub32 session v.latest_offence_session_index))

abbrev pub only : Bool → ValidatorOffenceInfo → Option ValidatorOffenceInfo
only true v = some v
only false v = none

abbrev pub recent : ℕ → ℕ → Option ValidatorOffenceInfo → Option ValidatorOffenceInfo
recent expiration session none = none
recent expiration session (some v) = only (is_recent expiration session v) v

get-retain :
    (expiration session who : ℕ) (d : Dict ValidatorOffenceInfo)
    → ArePast session d
    → get who (retain (λ e. is_recent expiration session e.1) d)
      ≡ recent expiration session (get who d)
get-retain expiration session who [] h = refl
get-retain expiration session who (e ∷ d) (alone, past, h) =
    let later = get-retain expiration session who d h in
    elim (Bool-cases (who == e.0)) [
      | inl here ↦ elim (Bool-cases (is_recent expiration session e.1)) [
        | inl kept ↦ rw (kept, here, kept) refl
        | inr old ↦
            let missing : get who d ≡ none = ap (λ k. get k d) ((==_iff who e.0).0 here) ∙ alone in
            rw (old, here, old) (rw missing at later)
      ]
      | inr away ↦ elim (Bool-cases (is_recent expiration session e.1)) [
        | inl kept ↦ rw (kept, away) later
        | inr old ↦ rw (old, away) later
      ]
    ]

past_of :
    (session who : ℕ) (v : ValidatorOffenceInfo) (d : Dict ValidatorOffenceInfo)
    → ArePast session d
    → get who d ≡ some v
    → v.latest_offence_session_index ≤ session
past_of session who v [] h e = absurd (cc e)
past_of session who v (x ∷ d) (alone, past, h) e = elim (Bool-cases (who == x.0)) [
  | inl here ↦
      let same : x.1 ≡ v = cc (rw here at e) in
      omega (arith, ap (λ w. w.latest_offence_session_index) same)
  | inr away ↦ past_of session who v d h (rw away at e)
]

-- With no latest offence in the future, `refresh_offences` keeps the entry of a validator as it is
-- until the expiration has passed since its latest offence, and removes it afterwards.
pub refresh_offences-expires :
    {L : Type 0} (session who : ℕ) (s : Storage L) (v : ValidatorOffenceInfo)
    → session < u32_mod
    → ArePast session s.validator_offences
    → get who s.validator_offences ≡ some v
    → get who (refresh_offences session s).validator_offences ≡ (
        if ltb (v.latest_offence_session_index + s.offence_expiration_in_sessions) session
        then none
        else some v)
unfolding refresh_offences
refresh_offences-expires session who s v word h there =
    let expiration = s.offence_expiration_in_sessions in
    let past = past_of session who v s.validator_offences h there in
    let left = get-retain expiration session who s.validator_offences h in
    elim (Bool-cases (ltb (v.latest_offence_session_index + expiration) session)) [
      | inl beyond ↦
          let old : is_recent expiration session v ≡ false = ground arith in
          rw beyond (rw (there, old) at left)
      | inr within ↦
          let kept : is_recent expiration session v ≡ true = ground arith in
          rw within (rw (there, kept) at left)
    ]
