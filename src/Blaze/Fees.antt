-- ===== src/Blaze/Fees.antt =====
-- pallets/blaze: the fee rates of the relayers, and the median that a transaction is built with.
pub mod Median
pub mod Rates
use bifrost_node.Prelude.{
  ℕ, ◌/◌, ◌+◌, Bool, true, false, ◌&&◌, ◌||◌, Option, none, some, List, [], ◌∷◌, map, leb, ltb,
  if◌then◌else◌, length, get_elem?, retain, Dict, insert, contains_key, sort_by, add32, Fallible,
  done, failed, require,
}
use bifrost_node.Blaze.Types.{
  Config, Storage, Error, Event, Dispatch, deposit_event, max_authorities,
}
use bifrost_node.Blaze.Activation.{ensure_activation}

abbrev pub FeeRate : Type 0
FeeRate = ℕ × ℕ × ℕ

-- `BoundedBTreeMap::try_insert`
abbrev pub try_insert : ℕ → FeeRate → Dict FeeRate → Option (Dict FeeRate)
try_insert key value d =
    if ltb (length d) max_authorities || contains_key key d then some (insert key value d) else none

unfoldable pub submit_fee_rate : Config → ℕ → ℕ → ℕ → Storage → Dispatch
submit_fee_rate c authority_id lt_fee_rate fee_rate s = ensure_activation true s (
    require (leb 1 lt_fee_rate && leb lt_fee_rate c.max_fee_rate) Error.out_of_range (
      require (leb 1 fee_rate && leb fee_rate c.max_fee_rate) Error.out_of_range
        (elim (try_insert authority_id
          (lt_fee_rate, fee_rate, add32 s.block_number c.fee_rate_expiration) s.fee_rates) [
            | none ↦ failed Error.out_of_range
            | some fee_rates ↦ done (
                deposit_event (Event.fee_rate_submitted authority_id lt_fee_rate fee_rate)
                  (record s { fee_rates = fee_rates }))
          ])))

unfoldable pub clear_fee_rates : Storage → Storage
clear_fee_rates s = record s { fee_rates = [] }

abbrev pub live : ℕ → Dict FeeRate → Dict FeeRate
live n d = retain (λ e. leb n (e.1).2) d

-- `sort` and the element at the middle; `none` is the panic of an index out of range.
unfoldable pub median : List ℕ → Option ℕ
median xs = get_elem? (sort_by leb xs) (length xs / 2)

abbrev pub ordered_rates : ℕ → ℕ → Option (ℕ × ℕ)
ordered_rates lt_fee_rate fee_rate =
    if leb lt_fee_rate fee_rate then some (lt_fee_rate, fee_rate) else none

-- The outer `none` is a panic, the inner one the `None` that the function returns.
unfoldable pub finalized : Config → Dict FeeRate → Option (Option (ℕ × ℕ))
finalized c d =
    if leb c.majority (length d)
    then elim (median (map (λ e. (e.1).1) d)) [
      | none ↦ none
      | some fee_rate ↦ elim (median (map (λ e. (e.1).0) d)) [
        | none ↦ none
        | some lt_fee_rate ↦ some (ordered_rates lt_fee_rate fee_rate)
      ]
    ]
    else some none

unfoldable pub try_fee_rate_finalization : Config → ℕ → Storage → Option (Storage × Option (ℕ × ℕ))
try_fee_rate_finalization c n s =
    let left = live n s.fee_rates in
    elim (finalized c left) [
      | none ↦ none
      | some rates ↦ some (record s { fee_rates = left }, rates)
    ]
