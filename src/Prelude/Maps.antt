-- ===== src/Prelude/Maps.antt =====
-- Maps keyed by account numbers: a storage map as a function, a `BTreeMap` as an association list.
use Prim.Native.Nat.{ℕ}
use mathlib.Core.Path.{◌≡◌, refl}
use mathlib.Core.Logic.{◌≢◌}
use mathlib.Core.Bool.{Bool, true, false}
use mathlib.Core.List.{List, [], ◌∷◌}
use mathlib.Core.Option.{Option, none, some}
use native.Mathlib.Omega.{arith}
use bifrost_node.Prelude.Tests.{◌==◌, if◌then◌else◌}

-- `StorageMap::insert` and, with `none`, `StorageMap::remove`.
abbrev pub update {ℓ} : {A : Type ℓ} → (ℕ → A) → ℕ → A → ℕ → A
update f k v j = if j == k then v else f j

abbrev pub Dict {ℓ} : Type ℓ → Type ℓ
Dict V = List (ℕ × V)

module _ {ℓ} {V : Type ℓ} where
  -- `BTreeMap::get`
  abbrev pub get : ℕ → Dict V → Option V
  get k [] = none
  get k ((j, v) ∷ d) = if k == j then some v else get k d

  abbrev pub contains_key : ℕ → Dict V → Bool
  contains_key k d = elim (get k d) [ none ↦ false | some _ ↦ true ]

  -- `BTreeMap::insert`
  abbrev pub insert : ℕ → V → Dict V → Dict V
  insert key value [] = (key, value) ∷ []
  insert key value ((j, w) ∷ rest) =
      if key == j then (j, value) ∷ rest else (j, w) ∷ insert key value rest

  -- `BTreeMap::remove`, less the value that it returns: that is `get` before.
  abbrev pub remove : ℕ → Dict V → Dict V
  remove key [] = []
  remove key ((j, w) ∷ rest) = if key == j then rest else (j, w) ∷ remove key rest

  -- A write through `get_mut`, where the key is there.
  abbrev pub put_existing : ℕ → V → Dict V → Dict V
  put_existing k v [] = []
  put_existing k v (e ∷ d) = if k == e.0 then (k, v) ∷ d else e ∷ put_existing k v d

  pub get-insert :
      (j k : ℕ) (v : V) (d : Dict V) → get j (insert k v d) ≡ (if j == k then some v else get j d)
  get-insert j k v [] = ground arith
  get-insert j k v (e ∷ d) = ground (arith, get-insert j k v d)

  pub get-insert_eq : (k : ℕ) (v : V) (d : Dict V) → get k (insert k v d) ≡ some v
  get-insert_eq k v [] = ground arith
  get-insert_eq k v (e ∷ d) = ground (arith, get-insert_eq k v d)

  pub get-put_existing :
      (j k : ℕ) (v : V) (d : Dict V)
      → get j (put_existing k v d)
        ≡ (if j == k then (if contains_key k d then some v else none) else get j d)
  get-put_existing j k v [] = ground arith
  get-put_existing j k v (e ∷ d) = ground (arith, get-put_existing j k v d)

  pub insert-insert : (k : ℕ) (v w : V) (d : Dict V) → insert k v (insert k w d) ≡ insert k v d
  insert-insert k v w [] = ground arith
  insert-insert k v w (e ∷ d) = ground (arith, insert-insert k v w d)

  pub remove-insert : (k : ℕ) (v : V) (d : Dict V) → get k d ≡ none → remove k (insert k v d) ≡ d
  remove-insert k v [] fresh = ground arith
  remove-insert k v (e ∷ d) fresh = ground (arith, remove-insert k v d)

  pub get-remove_ne : (j k : ℕ) (d : Dict V) → j ≢ k → get j (remove k d) ≡ get j d
  get-remove_ne j k [] h = refl
  get-remove_ne j k (e ∷ d) h = ground (arith, get-remove_ne j k d h)
