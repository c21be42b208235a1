-- ===== src/Staking/Nominations.antt =====
-- pallets/bfc-staking/src/lib.rs: `Bond`, `Nominations` and `CapacityStatus`, the sorted list of
-- the bonds behind a candidate with its stored total.
pub mod Search
pub mod Order
pub mod Bounds
pub mod Ceiling
pub mod Owners
pub mod Stakes
pub mod Part
use bifrost_node.Prelude.{
  ℕ, zero, suc, ◌+◌, ◌-◌, ◌/◌, ◌++◌, Bool, true, false, not, Option, none, some, List, [], ◌∷◌, map,
  compare, Ordering, ltb, leb, ◌==◌, if◌then◌else◌, length, get_elem?, take, drop, first?, last?,
  sat_add, sat_sub, add32, u32_mod, ◌%◌,
}

pub record Bond : Type 0 where
  pub owner : ℕ
  pub amount : ℕ

pub record Nominations : Type 0 where
  pub nominations : List Bond
  pub total : ℕ

-- `Default for Nominations`
abbrev pub no_nominations : Nominations
no_nominations = record { nominations = []; total = 0 }

pub data CapacityStatus : Type 0 where
  full empty partial : CapacityStatus

pub nominators : Nominations → List ℕ
nominators n = map (λ b. b.owner) n.nominations

unfoldable pub count : Nominations → ℕ
count n = length n.nominations % u32_mod

-- `[T]::sort_by` is stable. It sorts by falling amount here; a bond goes before the later ones of
-- its own amount.
insert_before_equals : Bond → List Bond → List Bond
insert_before_equals b [] = b ∷ []
insert_before_equals b (x ∷ xs) =
    let rest = insert_before_equals b xs in if leb x.amount b.amount then b ∷ x ∷ xs else x ∷ rest

unfoldable pub sort_by_amount : List Bond → List Bond
unfolding insert_before_equals
sort_by_amount [] = []
sort_by_amount (b ∷ bs) = insert_before_equals b (sort_by_amount bs)

unfoldable pub sort_greatest_to_least : Nominations → Nominations
unfolding sort_by_amount
sort_greatest_to_least n = record n { nominations = sort_by_amount n.nominations }

-- The result of `[T]::binary_search_by`: `Ok(i)` or `Err(i)`.
pub data Found : Type 0 where
  ok_at err_at : ℕ → Found

-- The comparison at an index. The index is in bounds wherever the search asks.
abbrev probe : (Bond → Ordering) → List Bond → ℕ → Ordering
probe f xs i = elim (get_elem? xs i) [ none ↦ Ordering.gt | some x ↦ f x ]

-- The window's new start once the element `half` above the old one is compared.
abbrev next_base : (Bond → Ordering) → List Bond → ℕ → ℕ → ℕ
next_base f xs base half = elim (probe f xs (base + half)) [ Ordering.gt ↦ base | _ ↦ base + half ]

-- The halving loop of `[T]::binary_search_by`, on fuel; it ends with one element left.
unfoldable pub bisect : (Bond → Ordering) → List Bond → ℕ → ℕ → ℕ → ℕ
bisect f xs zero size base = base
bisect f xs (suc fuel) size base =
    let half = size / 2 in
    let rest = bisect f xs fuel (size - half) (next_base f xs base half) in
    if ltb 1 size then rest else base

abbrev ended : Ordering → ℕ → Found
ended Ordering.eq base = ok_at base
ended Ordering.lt base = err_at (base + 1)
ended Ordering.gt base = err_at base

unfoldable pub binary_search_by : (Bond → Ordering) → List Bond → Found
binary_search_by f [] = err_at 0
binary_search_by f (x ∷ xs) =
    let base = bisect f (x ∷ xs) (length (x ∷ xs)) (length (x ∷ xs)) 0 in
    ended (probe f (x ∷ xs) base) base

-- `iter().position(..)`
unfoldable pub position : (Bond → Bool) → List Bond → Option ℕ
position p [] = none
position p (x ∷ xs) =
    let rest = position p xs in
    if p x then some 0 else elim rest [ none ↦ none | some i ↦ some (suc i) ]

unfoldable pub differs : ℕ → Bond → Bool
differs amount x = not (x.amount == amount)

-- The next index where the amount is not that of the nomination.
unfoldable pub skip_equals : ℕ → List Bond → ℕ → ℕ
skip_equals amount xs i = elim (position (differs amount) (drop i xs)) [
  | none ↦ length xs
  | some offset ↦ i + offset
]

-- The closure that `insert_sorted_greatest_to_least` searches with.
unfoldable pub against : ℕ → Bond → Ordering
against amount x = compare amount x.amount

unfoldable pub insertion_index : ℕ → List Bond → ℕ
insertion_index amount xs = elim (binary_search_by (against amount) xs) [
  | ok_at i ↦ skip_equals amount xs i
  | err_at i ↦ i
]

unfoldable pub insert_sorted_greatest_to_least : Nominations → Bond → Nominations
insert_sorted_greatest_to_least n nomination =
    let i = insertion_index nomination.amount n.nominations in
    record {
      nominations = take i n.nominations ++ nomination ∷ drop i n.nominations;
      total = sat_add n.total nomination.amount;
    }

abbrev pub capacity : ℕ → List Bond → CapacityStatus
capacity limit [] = if leb limit 0 then full else empty
capacity limit (x ∷ xs) = if leb limit (length (x ∷ xs) % u32_mod) then full else partial

unfoldable pub top_capacity : ℕ → Nominations → CapacityStatus
top_capacity max_top n = capacity max_top n.nominations

unfoldable pub bottom_capacity : ℕ → Nominations → CapacityStatus
bottom_capacity max_bottom n = capacity max_bottom n.nominations

abbrev pub amount_or_zero : Option Bond → ℕ
amount_or_zero none = 0
amount_or_zero (some b) = b.amount

unfoldable pub lowest_nomination_amount : Nominations → ℕ
lowest_nomination_amount n = amount_or_zero (last? n.nominations)

unfoldable pub highest_nomination_amount : Nominations → ℕ
highest_nomination_amount n = amount_or_zero (first? n.nominations)

-- The loop of `slash_nomination_amount`: the list after it, and whether the nominator was found.
slash_first : ℕ → ℕ → List Bond → List Bond × Bool
slash_first nominator value [] = ([], false)
slash_first nominator value (b ∷ bs) =
    let (rest, hit) = slash_first nominator value bs in
    if b.owner == nominator
    then (record b { amount = sat_sub b.amount value } ∷ bs, true)
    else (b ∷ rest, hit)

unfoldable pub slash_nomination_amount : Nominations → ℕ → ℕ → Nominations × Bool
unfolding slash_first
slash_nomination_amount n nominator value =
    let (bonds, hit) = slash_first nominator value n.nominations in
    if hit
    then (record { nominations = bonds; total = sat_sub n.total value }, true)
    else (n, false)
