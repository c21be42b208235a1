-- ===== src/Blaze/Coins/Split.antt =====
-- The first phase of the knapsack solver: which entry of the pool goes where.
use mathlib.Core.Path.{subst}
use mathlib.Core.List.{append_assoc, append-nil}
use mathlib.Core.List.Sublistᴰ
use bifrost_node.Prelude.{
  ℕ, ◌≤◌, ◌<◌, ◌≡◌, ◌⊎◌, inl, inr, refl, sym, ap, ◌∙◌, Bool, true, false, ◌&&◌, not, none, some,
  List, [], ◌∷◌, ◌++◌, ltb, leb, retain, Bool-cases, Sublistᴰ, add64, arith,
}
use bifrost_node.Blaze.Coins.{
  ScoredUtxo, Categories, categorize_one, categorize, improves, input_vbytes,
}

pub retain-append :
    (p : ScoredUtxo → Bool) (x : ScoredUtxo) (xs : List ScoredUtxo)
    → retain p (x ∷ []) ++ retain p xs ≡ retain p (x ∷ xs)
retain-append p x xs = elim (Bool-cases (p x)) [ inl e ↦ rw e refl | inr e ↦ rw e refl ]

pub retain-Sublist : (p : ScoredUtxo → Bool) (xs : List ScoredUtxo) → Sublistᴰ (retain p xs) xs
retain-Sublist p [] = Sublistᴰ.slnil
retain-Sublist p (x ∷ xs) = elim (Bool-cases (p x)) [
  | inl e ↦ rw e (Sublistᴰ.cons-cons refl (retain-Sublist p xs))
  | inr e ↦ rw e (Sublistᴰ.cons (retain-Sublist p xs))
]

retain-more :
    (p : ScoredUtxo → Bool) (x : ScoredUtxo) (xs : List ScoredUtxo)
    → Sublistᴰ (retain p xs) (retain p (x ∷ xs))
retain-more p x xs = elim (Bool-cases (p x)) [
  | inl e ↦ rw e (Sublistᴰ.cons (Sublistᴰ.refl (retain p xs)))
  | inr e ↦ rw e (Sublistᴰ.refl (retain p xs))
]

retain-cons :
    (p : ScoredUtxo → Bool) (x : ScoredUtxo) (xs others : List ScoredUtxo)
    → p x ≡ true
    → Sublistᴰ others (retain p xs)
    → Sublistᴰ (x ∷ others) (retain p (x ∷ xs))
retain-cons p x xs others e part = rw e (Sublistᴰ.cons-cons refl part)

module _ (target change_target max_weight : ℕ) where
  -- an entry that covers the target by itself, within the change that is acceptable
  abbrev pub is_exact : ScoredUtxo → Bool
  is_exact x =
      leb target x.effective_value
      && leb x.effective_value (add64 target change_target)
      && leb (input_vbytes x) max_weight

  abbrev pub is_applicable : ScoredUtxo → Bool
  is_applicable x = not (is_exact x) && ltb x.effective_value (add64 target change_target)

  abbrev pub sorted_out : List ScoredUtxo → Categories → Categories
  sorted_out xs c = categorize target change_target max_weight xs c

  categorize_one-applicable :
      (x : ScoredUtxo) (c : Categories)
      → (categorize_one target change_target max_weight x c).applicable
        ≡ c.applicable ++ retain is_applicable (x ∷ [])
  unfolding categorize_one
  categorize_one-applicable x c = elim (Bool-cases (is_exact x)) [
    | inl e ↦ elim (Bool-cases (improves x c.best_exact)) [
      | inl b ↦ rw (e, b) (sym (append-nil c.applicable))
      | inr b ↦ rw (e, b) (sym (append-nil c.applicable))
    ]
    | inr e ↦ elim (Bool-cases (ltb x.effective_value (add64 target change_target))) [
      | inl f ↦ rw (e, f) refl
      | inr f ↦ elim (Bool-cases (improves x c.lowest_larger)) [
        | inl b ↦ rw (e, f, b) (sym (append-nil c.applicable))
        | inr b ↦ rw (e, f, b) (sym (append-nil c.applicable))
      ]
    ]
  ]

  pub categorize-applicable :
      (xs : List ScoredUtxo) (c : Categories)
      → (sorted_out xs c).applicable ≡ c.applicable ++ retain is_applicable xs
  unfolding categorize
  categorize-applicable [] c = sym (append-nil c.applicable)
  categorize-applicable (x ∷ xs) c =
      let rest = categorize-applicable xs (categorize_one target change_target max_weight x c) in
      let assoc =
        append_assoc c.applicable (retain is_applicable (x ∷ [])) (retain is_applicable xs) in
      rest
      ∙ ap (λ l. l ++ retain is_applicable xs) (categorize_one-applicable x c)
      ∙ assoc
      ∙ ap (λ l. c.applicable ++ l) (retain-append is_applicable x xs)

  one-lowest_larger :
      (x : ScoredUtxo) (c : Categories) (y : ScoredUtxo)
      → (categorize_one target change_target max_weight x c).lowest_larger ≡ some y
      → (c.lowest_larger ≡ some y) ⊎ ((x ≡ y) × (add64 target change_target ≤ x.effective_value))
  unfolding categorize_one
  one-lowest_larger x c y e = ground arith

  one-best_exact :
      (x : ScoredUtxo) (c : Categories) (y : ScoredUtxo)
      → (categorize_one target change_target max_weight x c).best_exact ≡ some y
      → (c.best_exact ≡ some y) ⊎ ((x ≡ y) × (is_exact x ≡ true))
  unfolding categorize_one
  one-best_exact x c y e = ground arith

  one-no_exact :
      (x : ScoredUtxo) (c : Categories)
      → (categorize_one target change_target max_weight x c).best_exact ≡ none
      → (is_exact x ≡ false) × (c.best_exact ≡ none)
  unfolding categorize_one
  one-no_exact x c e = ground arith

  -- The single entries that the phase keeps are entries of the pool, or were there before.
  pub categorize-lowest_larger :
      (xs : List ScoredUtxo) (c : Categories) (y : ScoredUtxo)
      → (sorted_out xs c).lowest_larger ≡ some y
      → (c.lowest_larger ≡ some y)
        ⊎ (Sublistᴰ (y ∷ []) xs × (add64 target change_target ≤ y.effective_value))
  unfolding categorize
  categorize-lowest_larger [] c y e = inl e
  categorize-lowest_larger (x ∷ xs) c y e =
      elim (categorize-lowest_larger xs (categorize_one target change_target max_weight x c) y e) [
        | inr (inside, large) ↦ inr (Sublistᴰ.cons inside, large)
        | inl here ↦ elim (one-lowest_larger x c y here) [
          | inl before ↦ inl before
          | inr (same, large) ↦ inr (
            Sublistᴰ.cons-cons (sym same) (Sublistᴰ.nil-sublist xs),
            subst (λ z. add64 target change_target ≤ z.effective_value) same large,
          )
        ]
      ]

  pub categorize-best_exact :
      (xs : List ScoredUtxo) (c : Categories) (y : ScoredUtxo)
      → (sorted_out xs c).best_exact ≡ some y
      → (c.best_exact ≡ some y) ⊎ (Sublistᴰ (y ∷ []) xs × (is_exact y ≡ true))
  unfolding categorize
  categorize-best_exact [] c y e = inl e
  categorize-best_exact (x ∷ xs) c y e =
      elim (categorize-best_exact xs (categorize_one target change_target max_weight x c) y e) [
        | inr (inside, exact) ↦ inr (Sublistᴰ.cons inside, exact)
        | inl here ↦ elim (one-best_exact x c y here) [
          | inl before ↦ inl before
          | inr (same, exact) ↦ inr (
            Sublistᴰ.cons-cons (sym same) (Sublistᴰ.nil-sublist xs),
            subst (λ z. is_exact z ≡ true) same exact,
          )
        ]
      ]

  -- Without an exact match, every entry below the bound is applicable.
  pub categorize-no_exact :
      (xs : List ScoredUtxo) (c : Categories)
      → (sorted_out xs c).best_exact ≡ none
      → (c.best_exact ≡ none)
        × ((sel : List ScoredUtxo)
            → Sublistᴰ sel xs
            → ((x : ScoredUtxo)
                → Sublistᴰ (x ∷ []) sel
                → x.effective_value < add64 target change_target)
            → Sublistᴰ sel (retain is_applicable xs))
  unfolding categorize
  categorize-no_exact [] c e = (e, λ sel inside below. inside)
  categorize-no_exact (x ∷ xs) c e =
      let (later, kept) =
        categorize-no_exact xs (categorize_one target change_target max_weight x c) e in
      let (other, before) = one-no_exact x c later in
      (
        before,
        λ sel inside below. elim (Sublistᴰ.cases_cons inside) [
          | inl skipped ↦ Sublistᴰ.trans (kept sel skipped below) (retain-more is_applicable x xs)
          | inr (others, same, taken) ↦
              let own = below x (
                subst (λ l. Sublistᴰ (x ∷ []) l) (sym same)
                  (Sublistᴰ.cons-cons refl (Sublistᴰ.nil-sublist others))) in
              let rest = kept others taken (λ z part.
                below z (subst (λ l. Sublistᴰ (z ∷ []) l) (sym same) (Sublistᴰ.cons part))) in
              rw same (retain-cons is_applicable x xs others (rw other (ground arith)) rest)
        ],
      )
