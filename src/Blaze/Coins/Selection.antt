-- ===== src/Blaze/Coins/Selection.antt =====
-- When `select_coins_knapsack` returns nothing, and what `select_coins` returns.
use Prim.Native.Nat.{◌^◌}
use native.Mathlib.Nat.{pow-le-pow_right}
use mathlib.Core.Path.{subst}
use mathlib.Core.List.Permᴰ
use bifrost_node.Prelude.{
  ℕ, suc, ◌+◌, ◌≤◌, ◌<◌, ◌≡◌, refl, sym, inl, inr, false, Option-cases, Option, none, some, List,
  [], ◌∷◌, map, length, ltb, sort_by-perm, sum_of-append, sum_of-sublist, sum_of-perm, length-perm,
  Permᴰ, Sublistᴰ, add64, u64_mod, arith,
}
use bifrost_node.Blaze.Coins.{
  ScoredUtxo, UtxoInfoWithSize, Selected, by_value, knapsack_problem, best_or_larger,
  search_applicable, select_coins_bnb, select_coins_knapsack, select_coins, input_vbytes, sum64,
  u64_max,
}
use bifrost_node.Blaze.Coins.Sound.{value_of, IsAdmissible, IsBest, Fits}
use bifrost_node.Blaze.Coins.Least.{Grows, search-Least}
use bifrost_node.Blaze.Coins.Parts.{
  IsPartOf, IsPartOf-le, IsPartOf-length-le, IsPartOf-ordered, sum64-exact,
}
use bifrost_node.Blaze.Coins.Split.{categorize-applicable, categorize-no_exact}
use bifrost_node.Blaze.Coins.Branch.{IsBounded, IsBounded-Fits}
use bifrost_node.Blaze.Coins.Waste.{select_coins_bnb-IsExchange}
use bifrost_node.Blaze.Coins.Knapsack.{
  IsCovering, Covers, lower, uncategorized, phase_one, lower_search, lower-IsBest, lower-Fits,
  applicable-IsPartOf, select_coins_knapsack-Covers,
}

best_or_larger-some :
    (max_weight : ℕ) (larger : Option ScoredUtxo) (u : UtxoInfoWithSize)
    (us : List UtxoInfoWithSize) (total : ℕ)
    → best_or_larger max_weight larger (u ∷ us) total ≡ none
    → ⊥
best_or_larger-some max_weight larger u us total e = ground arith

one_below :
    (sel : List ScoredUtxo) (bound : ℕ)
    → ((x : ScoredUtxo) → Sublistᴰ (x ∷ []) sel → x.effective_value < bound)
    → (xs : List ScoredUtxo) → Sublistᴰ xs sel
    → length xs ≡ 1
    → value_of xs < bound
one_below sel bound below [] inside e = absurd (omega arith)
one_below sel bound below (x ∷ []) inside e = omega (arith, below x inside)
one_below sel bound below (x ∷ y ∷ xs) inside e = absurd (omega arith)

module _ (pool : List ScoredUtxo) (target change_target max_weight : ℕ) where
  lower-Grows :
      Grows (knapsack_problem target max_weight) (lower pool target change_target max_weight)
  lower-Grows = record {
    costs =
        λ curr more inside reaches. omega (arith, sum_of-append (λ x. x.effective_value) curr more);
    floor = λ sel inside reaches. reaches;
    bound = λ a b le within. refl;
  }

  -- A part of the pool whose entries are all below the bound, seen in the sorted list.
  lower-Ordered :
      (sel : List ScoredUtxo)
      → IsPartOf sel pool
      → ((x : ScoredUtxo) → Sublistᴰ (x ∷ []) sel → x.effective_value < add64 target change_target)
      → (phase_one pool target change_target max_weight).best_exact ≡ none
      → (ordered : List ScoredUtxo) × Permᴰ ordered sel
        × Sublistᴰ ordered (lower pool target change_target max_weight)
  lower-Ordered sel part below e =
      let (ordered, same, inside) = IsPartOf-ordered part in
      let kept =
        (categorize-no_exact target change_target max_weight pool uncategorized e).1 ordered inside
          (λ x one.
            let (xs, same_x, one_sel) = Permᴰ.exists_sublist same one in
            let weighed = sum_of-perm (λ y. y.effective_value) same_x in
            let alone =
              one_below sel (add64 target change_target) below xs one_sel (length-perm same_x) in
            ground arith) in
      let applicable : Sublistᴰ ordered
          (phase_one pool target change_target max_weight).applicable =
        subst (λ l. Sublistᴰ ordered l)
          (sym (categorize-applicable target change_target max_weight pool uncategorized)) kept in
      let (final, again, sorted) =
        Permᴰ.exists_sublist (Permᴰ.symm (sort_by-perm by_value _)) applicable in
      (final, Permᴰ.trans again same, sorted)

  -- A search of at most 15 entries has tries enough, and records something when it can.
  lower_search-Finds :
      Fits pool
      → (sel : List ScoredUtxo) → Sublistᴰ sel (lower pool target change_target max_weight)
      → IsAdmissible (knapsack_problem target max_weight) sel
      → 0 < target
      → length pool ≤ 15
      → value_of pool < u64_max
      → (u : UtxoInfoWithSize) × (us : List UtxoInfoWithSize) × ((lower_search pool target
            change_target max_weight).best_selection
          ≡ u ∷ us)
  lower_search-Finds fits sel inside a asked small total =
      let part = applicable-IsPartOf pool target change_target max_weight in
      let sizes = IsPartOf-length-le part in
      let values = IsPartOf-le (λ x. x.effective_value) part in
      let own = sum_of-sublist (λ x. x.effective_value) inside in
      let room : 2 ^ suc (length (lower pool target change_target max_weight)) ≤ 2 ^ 16 =
        pow-le-pow_right (omega arith) {j = 16} (omega arith) in
      let least =
        search-Least (lower-Fits pool target change_target max_weight fits) lower-Grows sel inside a
          (omega arith) in
      elim (lower-IsBest pool target change_target max_weight fits) [
        | IsBest.untouched e c ↦ absurd (omega arith)
        | IsBest.found [] part_found b e c ↦ absurd (omega (arith, b.reaches))
        | IsBest.found (x ∷ xs) part_found b e c ↦ (x.utxo, map (λ y. y.utxo) xs, e)
      ]

  -- On a pool of at most 15 entries, nothing returned means that no part of the pool whose
  -- entries are all below `target + change_target` covers the target within the weight.
  pub select_coins_knapsack-none :
      Fits pool
      → 0 < target
      → length pool ≤ 15
      → value_of pool < u64_max
      → select_coins_knapsack pool target change_target max_weight ≡ none
      → (sel : List ScoredUtxo)
      → ((x : ScoredUtxo) → Sublistᴰ (x ∷ []) sel → x.effective_value < add64 target change_target)
      → ¬ IsCovering pool target max_weight sel
  unfolding select_coins_knapsack search_applicable
  select_coins_knapsack-none fits asked small total e sel below covering =
      elim (Option-cases (phase_one pool target change_target max_weight).best_exact) [
        | inr (x, exact) ↦ absurd (cc (rw (exact, select_coins_knapsack) at e))
        | inl none_exact ↦
            let (ordered, same, inside) = lower-Ordered sel covering.part below none_exact in
            let values = sum_of-perm (λ x. x.effective_value) same in
            let weights = sum_of-perm input_vbytes same in
            let a : IsAdmissible (knapsack_problem target max_weight) ordered = record {
              reaches = omega (arith, covering.reaches);
              within = refl;
              light = omega (arith, covering.light);
            } in
            let (u, us, found) = lower_search-Finds fits ordered inside a asked small total in
            let own = sum_of-sublist (λ x. x.effective_value) inside in
            let sorted =
              sum_of-perm (λ x. x.effective_value)
                (sort_by-perm by_value
                  (phase_one pool target change_target max_weight).applicable) in
            let bounded =
              IsPartOf-le (λ x. x.effective_value)
                (applicable-IsPartOf pool target change_target max_weight) in
            let exact =
              sum64-exact (λ x. x.effective_value)
                (phase_one pool target change_target max_weight).applicable (omega arith) in
            let enough : ltb
                  (sum64 (λ x. x.effective_value)
                    (phase_one pool target change_target max_weight).applicable)
                  target
                ≡ false =
              rw exact (ground (arith, covering.reaches)) in
            best_or_larger-some max_weight _ u us _
              (rw (none_exact, enough, found, select_coins_knapsack, search_applicable) at e)
      ]

  -- What either search may return.
  abbrev pub Covered : Option Selected → Type 0
  Covered none = Unit
  Covered (some (utxos, strategy)) =
      (sel : List ScoredUtxo) × (utxos ≡ map (λ x. x.utxo) sel)
      × IsCovering pool target max_weight sel

  Covers-Covered : (o : Option Selected) → Covers pool target max_weight o → Covered o
  Covers-Covered none h = tt
  Covers-Covered (some (utxos, strategy)) (sel, e, _, covering) = (sel, e, covering)

  -- Whatever `select_coins` returns is a part of the pool that covers the target within the
  -- weight, whichever search it comes from and however few tries that had.
  pub select_coins-Covered :
      (cost_of_change max_tries : ℕ)
      → IsBounded pool
      → 0 < target
      → target + cost_of_change < u64_mod
      → target + change_target < u64_mod
      → Covered (select_coins pool target cost_of_change max_weight max_tries change_target)
  unfolding select_coins
  select_coins-Covered cost_of_change max_tries bounded asked no_wrap no_wrap_change =
      elim (Option-cases (select_coins_bnb pool target cost_of_change max_weight max_tries)) [
        | inl failed ↦
            rw (failed, select_coins)
              (Covers-Covered _ (
                select_coins_knapsack-Covers pool target change_target max_weight
                  (IsBounded-Fits bounded) no_wrap_change))
        | inr ((us, st), found) ↦
            let (sel, same, exchange) =
              select_coins_bnb-IsExchange pool target cost_of_change max_weight max_tries bounded
                no_wrap asked us st found in
            rw (found, select_coins)
              (
                sel,
                same,
                record { part = exchange.part; reaches = exchange.reaches; light = exchange.light },
              )
      ]
