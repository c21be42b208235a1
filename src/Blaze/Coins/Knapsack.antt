-- ===== src/Blaze/Coins/Knapsack.antt =====
-- What `select_coins_knapsack` returns.
use mathlib.Core.Path.{subst}
use mathlib.Core.List.Sublistᴰ
use mathlib.Core.List.Permᴰ
use bifrost_node.Prelude.{
  ℕ, ◌+◌, ◌≤◌, ◌<◌, ◌≡◌, refl, sym, ◌⊎◌, inl, inr, ◌&&◌, Bool-cases, Option-cases, Option, none,
  some, List, [], ◌∷◌, map, retain, ltb, leb, sort_by, sort_by-perm, Permᴰ, Sublistᴰ, u64_mod,
  arith,
}
use bifrost_node.Blaze.Coins.{
  ScoredUtxo, UtxoInfoWithSize, SelectionStrategy, SearchState, Selected, Categories, by_value,
  knapsack_problem, single, larger_alone, best_or_larger, search_applicable, select_coins_knapsack,
  input_vbytes, search, sum64,
}
use bifrost_node.Blaze.Coins.Sound.{value_of, weight_of, IsBest, Fits, search-IsBest}
use bifrost_node.Blaze.Coins.Parts.{IsPartOf, IsPartOf-trans, IsPartOf-le, IsPartOf-sublist}
use bifrost_node.Blaze.Coins.Split.{
  is_applicable, sorted_out, retain-Sublist, categorize-applicable, categorize-lowest_larger,
  categorize-best_exact,
}

abbrev pub uncategorized : Categories
uncategorized = record { applicable = []; lowest_larger = none; best_exact = none }

-- A part of the pool that covers the target and is not too heavy.
pub record IsCovering (pool : List ScoredUtxo) (target max_weight : ℕ) (sel : List ScoredUtxo)
    : Type 0 where
  pub part : IsPartOf sel pool
  pub reaches : target ≤ value_of sel
  pub light : weight_of sel ≤ max_weight

module _ (pool : List ScoredUtxo) (target max_weight : ℕ) where
  -- A result, where there is one, is such a part.
  abbrev pub Covers : Option Selected → Type 0
  Covers none = Unit
  Covers (some (utxos, strategy)) =
      (sel : List ScoredUtxo) × (utxos ≡ map (λ x. x.utxo) sel)
      × (strategy ≡ SelectionStrategy.knapsack)
      × IsCovering pool target max_weight sel

  single-Covers :
      (x : ScoredUtxo)
      → Sublistᴰ (x ∷ []) pool
      → target ≤ x.effective_value
      → input_vbytes x ≤ max_weight
      → Covers (single x)
  single-Covers x inside reaches light = (
    x ∷ [],
    refl,
    refl,
    record { part = IsPartOf-sublist inside; reaches = omega arith; light = omega arith },
  )

  larger_alone-Covers :
      (larger : Option ScoredUtxo)
      → ((x : ScoredUtxo) → larger ≡ some x → Sublistᴰ (x ∷ []) pool × (target ≤ x.effective_value))
      → Covers (larger_alone max_weight larger)
  larger_alone-Covers none h = tt
  larger_alone-Covers (some x) h = elim (Bool-cases (leb (input_vbytes x) max_weight)) [
    | inl fits ↦ rw fits (single-Covers x (h x refl).0 (h x refl).1 (ground arith))
    | inr heavy ↦ rw heavy tt
  ]

  best_or_larger-Covers :
      (larger : Option ScoredUtxo) (utxos : List UtxoInfoWithSize) (total : ℕ)
      → ((x : ScoredUtxo) → larger ≡ some x → Sublistᴰ (x ∷ []) pool × (target ≤ x.effective_value))
      → (((sel : List ScoredUtxo) × (utxos ≡ map (λ x. x.utxo) sel)
            × IsCovering pool target max_weight sel)
          ⊎ (utxos ≡ []))
      → Covers (best_or_larger max_weight larger utxos total)
  best_or_larger-Covers larger [] total h found = larger_alone-Covers larger h
  best_or_larger-Covers larger (u ∷ us) total h (inr e) = absurd (cc e)
  best_or_larger-Covers none (u ∷ us) total h (inl (sel, e, covering)) = (sel, e, refl, covering)
  best_or_larger-Covers (some x) (u ∷ us) total h (inl (sel, e, covering)) =
      elim (Bool-cases (leb (input_vbytes x) max_weight && leb x.effective_value total)) [
        | inl take ↦ rw take (single-Covers x (h x refl).0 (h x refl).1 (ground arith))
        | inr leave ↦ rw leave (sel, e, refl, covering)
      ]

-- The entries that the first phase leaves to the search, in the order it sorts them.
abbrev pub lower : List ScoredUtxo → ℕ → ℕ → ℕ → List ScoredUtxo
lower pool target change_target max_weight =
    sort_by by_value (sorted_out target change_target max_weight pool uncategorized).applicable

module _ (pool : List ScoredUtxo) (target change_target max_weight : ℕ) where
  abbrev pub phase_one : Categories
  phase_one = sorted_out target change_target max_weight pool uncategorized

  pub applicable-IsPartOf : IsPartOf (lower pool target change_target max_weight) pool
  applicable-IsPartOf =
      let (left, p) =
        Sublistᴰ.exists_perm_append
          (retain-Sublist (is_applicable target change_target max_weight) pool) in
      let kept = categorize-applicable target change_target max_weight pool uncategorized in
      record {
        left = left;
        arranged =
            Permᴰ.trans
              (Permᴰ.append_right left (
                Permᴰ.trans (sort_by-perm by_value phase_one.applicable) (
                  subst (λ l. Permᴰ l (retain (is_applicable target change_target max_weight) pool))
                    (sym kept) (Permᴰ.refl _))))
              (Permᴰ.symm p);
      }

  pub lower-Fits : Fits pool → Fits (lower pool target change_target max_weight)
  lower-Fits fits = record {
    values = omega (arith, fits.values, IsPartOf-le (λ x. x.effective_value) applicable-IsPartOf);
    weights = omega (arith, fits.weights, IsPartOf-le input_vbytes applicable-IsPartOf);
  }

  abbrev pub lower_search : SearchState
  lower_search =
      search (knapsack_problem target max_weight) (lower pool target change_target max_weight)

  pub lower-IsBest :
      Fits pool
      → IsBest
          (knapsack_problem target max_weight)
          (lower pool target change_target max_weight)
          lower_search
  lower-IsBest fits = search-IsBest (lower-Fits fits) _

  lower_search-Covering :
      Fits pool
      → ((sel : List ScoredUtxo) × (lower_search.best_selection ≡ map (λ x. x.utxo) sel)
          × IsCovering pool target max_weight sel)
        ⊎ (lower_search.best_selection ≡ [])
  lower_search-Covering fits = elim (lower-IsBest fits) [
    | IsBest.untouched e c ↦ inr e
    | IsBest.found sel inside a e c ↦ inl (
      sel,
      e,
      record {
        part = IsPartOf-trans (IsPartOf-sublist inside) applicable-IsPartOf;
        reaches = a.reaches;
        light = a.light;
      },
    )
  ]

  larger_fits :
      target + change_target < u64_mod
      → (x : ScoredUtxo) → phase_one.lowest_larger ≡ some x
      → Sublistᴰ (x ∷ []) pool × (target ≤ x.effective_value)
  larger_fits no_wrap x e =
      elim (categorize-lowest_larger target change_target max_weight pool uncategorized x e) [
        | inl before ↦ absurd (cc before)
        | inr (inside, large) ↦ (inside, ground arith)
      ]

  search_applicable-Covers :
      Fits pool
      → target + change_target < u64_mod
      → Covers pool target max_weight (search_applicable target max_weight phase_one)
  unfolding search_applicable
  search_applicable-Covers fits no_wrap =
      elim (Bool-cases (ltb (sum64 (λ x. x.effective_value) phase_one.applicable) target)) [
        | inl short ↦
            rw (short, search_applicable)
              (larger_alone-Covers pool target max_weight phase_one.lowest_larger
                (larger_fits no_wrap))
        | inr enough ↦
            rw (enough, search_applicable)
              (best_or_larger-Covers pool target max_weight phase_one.lowest_larger
                lower_search.best_selection lower_search.best_cost (larger_fits no_wrap)
                (lower_search-Covering fits))
      ]

  -- Whatever `select_coins_knapsack` returns covers the target within the weight.
  pub select_coins_knapsack-Covers :
      Fits pool
      → target + change_target < u64_mod
      → Covers pool target max_weight (select_coins_knapsack pool target change_target max_weight)
  unfolding select_coins_knapsack
  select_coins_knapsack-Covers fits no_wrap = elim (Option-cases phase_one.best_exact) [
    | inr (x, exact) ↦
        elim (categorize-best_exact target change_target max_weight pool uncategorized x exact) [
          | inl before ↦ absurd (cc before)
          | inr (inside, meets) ↦
              rw (exact, select_coins_knapsack)
                (single-Covers pool target max_weight x inside (ground arith) (ground arith))
        ]
    | inl none_exact ↦
        rw (none_exact, select_coins_knapsack) (search_applicable-Covers fits no_wrap)
  ]
