-- ===== src/Offences/Counting.antt =====
-- About `handle_offence` on the offences of one validator in a row.
use bifrost_node.Prelude.{
  ℕ, ◌+◌, ◌-◌, ◌≤◌, ◌<◌, ◌≡◌, refl, sym, ◌∙◌, ap, inl, inr, Bool, true, false, Bool-cases, none,
  List, [], ◌∷◌, ◌++◌, if◌then◌else◌, length, length-append, min, get, insert, Dict, get-insert_eq,
  insert-insert, remove-insert, sum_of, sum_of-append, add32, u32_mod, arith,
}
use mathlib.Core.List.{append_assoc, append-nil}
use mathlib.Core.Path.{subst}
use bifrost_node.Staking.Types.{TierType}
use bifrost_node.Offences.{
  Offence, ValidatorOffenceInfo, Config, Storage, Event, one_perbill, new_info, add_offence,
  maximum_offence_count, is_offence_count_exceeds, try_slash, handle_offence, deposit_event,
}

-- An entry that says of the offences `os`, the latest last: how many, the sum of their fractions
-- up to the whole, and the latest round and session.
pub record Sums (v : ValidatorOffenceInfo) (os : List Offence) : Type 0 where
  pub count : v.offence_count ≡ length os
  pub fraction : v.aggregated_slash_fraction ≡ min (sum_of (λ o. o.slash_fraction) os) one_perbill
  pub all : v.offences ≡ os

-- Each fraction is at most the whole, and the maximum is one that a `u32` can pass.
abbrev pub IsFraction : Offence → Type 0
IsFraction o = o.slash_fraction ≤ one_perbill

new_info-Sums : (o : Offence) → IsFraction o → Sums (new_info o) (o ∷ [])
new_info-Sums o h = record { count = refl; fraction = omega arith; all = refl }

add_offence-Sums :
    (v : ValidatorOffenceInfo) (os : List Offence) (o : Offence)
    → Sums v os
    → IsFraction o
    → length os + 1 < u32_mod
    → Sums (add_offence o v) (os ++ o ∷ [])
add_offence-Sums v os o h fraction room = record {
  count = omega (arith, h.count, length-append os (o ∷ []));
  fraction = omega (arith, h.fraction, sum_of-append (λ x. x.slash_fraction) os (o ∷ []));
  all = ap (λ l. l ++ o ∷ []) h.all;
}

maximum-frame :
    {L : Type 0} (tier : TierType) (s : Storage L) (d : Dict ValidatorOffenceInfo)
    → maximum_offence_count tier (record s { validator_offences = d })
      ≡ maximum_offence_count tier s
maximum-frame TierType.full s d = refl
maximum-frame TierType.basic s d = refl
maximum-frame TierType.all s d = refl

abbrev pub AreFractions : List Offence → Type 0
AreFractions [] = Unit
AreFractions (o ∷ os) = IsFraction o × AreFractions os

module _ {L : Type 0} (c : Config L) (who stash : ℕ) (tier : TierType) where
  -- The offences of one validator in a row, each handled on what the one before left.
  abbrev pub handle_all : List Offence → Storage L → Storage L
  handle_all [] s = s
  handle_all (o ∷ os) s = handle_all os ((handle_offence c who stash tier o s).2)

  -- Each of these offences is answered by `false` and no slash.
  abbrev pub AreTolerated : List Offence → Storage L → Type 0
  AreTolerated [] s = Unit
  AreTolerated (o ∷ os) s =
      ((handle_offence c who stash tier o s).0 ≡ false)
      × ((handle_offence c who stash tier o s).1 ≡ 0)
      × AreTolerated os ((handle_offence c who stash tier o s).2)

  abbrev pub noted : ValidatorOffenceInfo → Storage L → Storage L
  noted v s = record s { validator_offences = insert who v s.validator_offences }

  -- `s` is `start` with an entry of the validator that says `os`, and differs in nothing else.
  pub record Holds (start s : Storage L) (os : List Offence) : Type 0 where
    pub info : ValidatorOffenceInfo
    pub same : s ≡ noted info start
    pub sums : Sums info os

  handle_offence-first :
      (o : Offence) (s : Storage L)
      → get who s.validator_offences ≡ none
      → handle_offence c who stash tier o s ≡ (false, 0, noted (new_info o) s)
  unfolding handle_offence
  handle_offence-first o s fresh = rw (fresh, handle_offence) refl

  handle_offence-more :
      (v : ValidatorOffenceInfo) (o : Offence) (s : Storage L)
      → v.offence_count + 1 ≤ maximum_offence_count tier s
      → maximum_offence_count tier s < u32_mod
      → handle_offence c who stash tier o (noted v s) ≡ (false, 0, noted (add_offence o v) s)
  unfolding handle_offence
  handle_offence-more v o s room word =
      let known = get-insert_eq who v s.validator_offences in
      let within : is_offence_count_exceeds (add32 v.offence_count 1) tier (noted v s) ≡ false =
        ground (arith, maximum-frame tier s (insert who v s.validator_offences)) in
      rw (known, within, insert-insert who (add_offence o v) v s.validator_offences, handle_offence)
        refl

  tolerated :
      (os more : List Offence) (v : ValidatorOffenceInfo) (start : Storage L)
      → Sums v os
      → AreFractions more
      → length os + length more ≤ maximum_offence_count tier start
      → maximum_offence_count tier start < u32_mod
      → AreTolerated more (noted v start)
        × Holds start (handle_all more (noted v start)) (os ++ more)
  tolerated os [] v start h fractions room word =
      (tt, record { info = v; same = refl; sums = subst (Sums v) (sym (append-nil os)) h })
  tolerated os (o ∷ more) v start h (fraction, fractions) room word =
      let e = handle_offence-more v o start (omega (arith, h.count)) word in
      let (rest, final) =
        tolerated (os ++ o ∷ []) more (add_offence o v) start
          (add_offence-Sums v os o h fraction (omega arith)) fractions
          (omega (arith, length-append os (o ∷ []))) word in
      rw e (
        (refl, refl, rest),
        subst (Holds start (handle_all more (noted (add_offence o v) start)))
            (append_assoc os (o ∷ []) more) final,
      )

  -- The answer to the offence too many, and the storage that it leaves.
  abbrev pub reported : ℕ → Storage L → Bool × ℕ × Storage L
  reported amount s =
      if s.is_slash_active
      then (
        true,
        amount,
        deposit_event (Event.slashed who amount)
            (record s { ledger = c.slash_reserved stash amount s.ledger }),
      )
      else (true, 0, s)

  handle_offence-last :
      (v : ValidatorOffenceInfo) (o : Offence) (s : Storage L)
      → get who s.validator_offences ≡ none
      → v.offence_count ≡ maximum_offence_count tier s
      → maximum_offence_count tier s < u32_mod - 1
      → handle_offence c who stash tier o (noted v s)
        ≡ reported (c.part_of v.aggregated_slash_fraction o.self_bond) s
  unfolding handle_offence try_slash
  handle_offence-last v o s fresh full word =
      let known = get-insert_eq who v s.validator_offences in
      let beyond : is_offence_count_exceeds (add32 v.offence_count 1) tier (noted v s) ≡ true =
        ground (arith, maximum-frame tier s (insert who v s.validator_offences)) in
      let gone = remove-insert who v s.validator_offences fresh in
      elim (Bool-cases s.is_slash_active) [
        | inl active ↦ rw (known, beyond, active, gone, handle_offence, try_slash) refl
        | inr passive ↦ rw (known, beyond, passive, gone, handle_offence, try_slash) refl
      ]

  -- For a validator without an entry, offences whose fractions are at most the whole, as many as its
  -- tier allows (at least one, and below the greatest u32), are each answered by false and no slash.
  -- The next one is reported: if slashing is active, the ledger is slashed, and the event deposited,
  -- by the part of the last offence's self-bond that is the sum of the fractions of the offences
  -- before, at most the whole, and without the last one's. The validator then has no entry, and the
  -- storage is otherwise that before all of them.
  pub handle_offence-slashes :
      (first : Offence) (more : List Offence) (last : Offence) (s : Storage L)
      → get who s.validator_offences ≡ none
      → AreFractions (first ∷ more)
      → length (first ∷ more) ≡ maximum_offence_count tier s
      → maximum_offence_count tier s < u32_mod - 1
      → AreTolerated (first ∷ more) s
        × (handle_offence c who stash tier last (handle_all (first ∷ more) s)
            ≡ reported
                (c.part_of
                  (min (sum_of (λ x. x.slash_fraction) (first ∷ more)) one_perbill)
                  last.self_bond)
                s)
  handle_offence-slashes first more last s fresh (fraction, fractions) full word =
      let e = handle_offence-first first s fresh in
      let (rest, final) =
        tolerated (first ∷ []) more (new_info first) s (new_info-Sums first fraction) fractions
          (omega (arith, full)) (omega arith) in
      let answer =
        handle_offence-last final.info last s fresh (omega (arith, final.sums.count, full)) word in
      rw e (
        (refl, refl, rest),
        ap (handle_offence c who stash tier last) final.same
            ∙ answer
            ∙ ap (λ f. reported (c.part_of f last.self_bond) s) final.sums.fraction,
      )
