-- ===== src/Blaze/Fees/Rates.antt =====
-- About the range of the rates that the pallet holds, and about `try_fee_rate_finalization`.
use bifrost_node.Prelude.{
  ℕ, ◌≤◌, ◌<◌, ◌≡◌, ◌⊎◌, refl, inl, inr, Bool-cases, Option, none, some, List, [], ◌∷◌, map, leb,
  ◌==◌, length, Dict, insert, add32, done, arith,
}
use bifrost_node.Blaze.Types.{Config, Storage}
use bifrost_node.Blaze.Activation.{ensure_activation}
use bifrost_node.Blaze.Fees.{
  FeeRate, submit_fee_rate, live, ordered_rates, finalized, try_fee_rate_finalization,
}
use bifrost_node.Blaze.Fees.Median.{IsMiddle, median-IsMiddle, median-some}

abbrev pub InRange : ℕ → FeeRate → Type 0
InRange top rate = (1 ≤ rate.0) × (rate.0 ≤ top) × (1 ≤ rate.1) × (rate.1 ≤ top)

-- Every rate is between 1 and `top`.
abbrev pub AreInRange : ℕ → Dict FeeRate → Type 0
AreInRange top [] = Unit
AreInRange top (e ∷ d) = InRange top (e.1) × AreInRange top d

pub insert-AreInRange :
    (top k : ℕ) (rate : FeeRate) (d : Dict FeeRate)
    → InRange top rate
    → AreInRange top d
    → AreInRange top (insert k rate d)
insert-AreInRange top k rate [] h hs = (h, tt)
insert-AreInRange top k rate (e ∷ d) h (g, hs) = elim (Bool-cases (k == e.0)) [
  | inl same ↦ rw same (h, hs)
  | inr other ↦ rw other (g, insert-AreInRange top k rate d h hs)
]

pub live-AreInRange : (top n : ℕ) (d : Dict FeeRate) → AreInRange top d → AreInRange top (live n d)
live-AreInRange top n [] hs = tt
live-AreInRange top n (e ∷ d) (h, hs) = elim (Bool-cases (leb n (e.1).2)) [
  | inl kept ↦ rw kept (h, live-AreInRange top n d hs)
  | inr expired ↦ rw expired (live-AreInRange top n d hs)
]

-- `submit_fee_rate` lets no rate in that is out of range, whatever larger range the others have.
pub submit_fee_rate-AreInRange :
    (c : Config) (top who lt_fee_rate fee_rate : ℕ) (s s' : Storage)
    → submit_fee_rate c who lt_fee_rate fee_rate s ≡ done s'
    → c.max_fee_rate ≤ top
    → AreInRange top s.fee_rates
    → AreInRange top s'.fee_rates
unfolding submit_fee_rate ensure_activation
submit_fee_rate-AreInRange c top who lt_fee_rate fee_rate s s' e below hs =
    let inserted =
      insert-AreInRange top who (lt_fee_rate, fee_rate, add32 s.block_number c.fee_rate_expiration)
        s.fee_rates in
    ground arith

abbrev pub long_terms : Dict FeeRate → List ℕ
long_terms d = map (λ e. (e.1).0) d

abbrev pub short_terms : Dict FeeRate → List ℕ
short_terms d = map (λ e. (e.1).1) d

length-map : (f : ℕ × FeeRate → ℕ) (d : Dict FeeRate) → length (map f d) ≡ length d
length-map f [] = refl
length-map f (e ∷ d) = omega (arith, length-map f d)

-- Two medians of `d`, in the order of a result, or the other way round.
abbrev pub Ordered : Dict FeeRate → ℕ → ℕ → Type 0
Ordered d lt_fee_rate fee_rate =
    (lt_fee_rate ≤ fee_rate)
    × IsMiddle (long_terms d) lt_fee_rate
    × IsMiddle (short_terms d) fee_rate

abbrev pub Crossed : Dict FeeRate → Type 0
Crossed d =
    (lt_fee_rate : ℕ) × (fee_rate : ℕ) × (fee_rate < lt_fee_rate)
    × IsMiddle (long_terms d) lt_fee_rate
    × IsMiddle (short_terms d) fee_rate

-- What the relayers have agreed on by the rates `d`. Where they have not, they are fewer than the
-- majority, or the medians are the wrong way round.
abbrev pub Agreed : Config → Dict FeeRate → Option (ℕ × ℕ) → Type 0
Agreed c d none = (length d < c.majority) ⊎ Crossed d
Agreed c d (some (lt_fee_rate, fee_rate)) = (c.majority ≤ length d) × Ordered d lt_fee_rate fee_rate

-- The second map is the first without the rates whose last block is before `n`.
pub data Unexpired (n : ℕ) : Dict FeeRate → Dict FeeRate → Type 0 where
  nothing : Unexpired n [] []
  kept :
      {e : ℕ × FeeRate} {d d' : Dict FeeRate}
      → n ≤ (e.1).2
      → Unexpired n d d'
      → Unexpired n (e ∷ d) (e ∷ d')
  dropped :
      {e : ℕ × FeeRate} {d d' : Dict FeeRate}
      → (e.1).2 < n
      → Unexpired n d d'
      → Unexpired n (e ∷ d) d'

live-Unexpired : (n : ℕ) (d : Dict FeeRate) → Unexpired n d (live n d)
live-Unexpired n [] = Unexpired.nothing
live-Unexpired n (e ∷ d) = elim (Bool-cases (leb n (e.1).2)) [
  | inl there ↦ rw there (Unexpired.kept (ground arith) (live-Unexpired n d))
  | inr late ↦ rw late (Unexpired.dropped (ground arith) (live-Unexpired n d))
]

ordered_rates-Agreed :
    (c : Config) (d : Dict FeeRate) (lt_fee_rate fee_rate : ℕ)
    → c.majority ≤ length d
    → IsMiddle (long_terms d) lt_fee_rate
    → IsMiddle (short_terms d) fee_rate
    → Agreed c d (ordered_rates lt_fee_rate fee_rate)
ordered_rates-Agreed c d lt_fee_rate fee_rate enough long short =
    elim (Bool-cases (leb lt_fee_rate fee_rate)) [
      | inl e ↦ rw e (enough, (ground arith, long, short))
      | inr e ↦ rw e (inr (lt_fee_rate, fee_rate, ground arith, long, short))
    ]

finalized-Agreed :
    (c : Config) (d : Dict FeeRate)
    → 0 < c.majority
    → (rates : Option (ℕ × ℕ)) × (finalized c d ≡ some rates) × Agreed c d rates
unfolding finalized
finalized-Agreed c d positive = elim (Bool-cases (leb c.majority (length d))) [
  | inr few ↦ (none, rw few refl, inl (ground arith))
  | inl enough ↦
      let many : c.majority ≤ length d = ground arith in
      let (fee_rate, e) =
        median-some (short_terms d) (omega (arith, length-map (λ e. (e.1).1) d)) in
      let (lt_fee_rate, e') =
        median-some (long_terms d) (omega (arith, length-map (λ e. (e.1).0) d)) in
      (
        ordered_rates lt_fee_rate fee_rate,
        rw (enough, e, e') refl,
        ordered_rates-Agreed c d lt_fee_rate fee_rate many
            (median-IsMiddle (long_terms d) lt_fee_rate e')
            (median-IsMiddle (short_terms d) fee_rate e),
      )
]

-- With a majority of at least one, the finalization does not panic. It leaves of the rates exactly
-- those whose last block is not before the given one, and nothing else of the storage changes. A
-- result is the medians of at least as many of these rates as the majority: more than half of them
-- are at most the median and at least half at least that, and the long term one is not above the
-- other. There is no result only when the rates are fewer than the majority, or the long term
-- median is above the other.
pub try_fee_rate_finalization-Agreed :
    (c : Config) (n : ℕ) (s : Storage)
    → 0 < c.majority
    → (d : Dict FeeRate) × (rates : Option (ℕ × ℕ)) × Unexpired n s.fee_rates d
      × (try_fee_rate_finalization c n s ≡ some (record s { fee_rates = d }, rates))
      × Agreed c d rates
unfolding try_fee_rate_finalization
try_fee_rate_finalization-Agreed c n s positive =
    let d = live n s.fee_rates in
    let (rates, e, agreed) = finalized-Agreed c d positive in
    (d, rates, live-Unexpired n s.fee_rates, rw (e, try_fee_rate_finalization) refl, agreed)
