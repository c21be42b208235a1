-- ===== src/Staking/Candidate/Valid.antt =====
-- What holds of a candidate's fields and its two lists between the pallet's calls.
use bifrost_node.Prelude.{
  refl, ℕ, Bool, true, false, ◌+◌, ◌≤◌, ◌<◌, ◌≡◌, ◌⊎◌, List, [], ◌∷◌, some, arith, leb, ◌==◌,
  length, u32_mod, u128_mod,
}
use bifrost_node.Staking.Nominations.{
  Bond, Nominations, capacity, top_capacity, bottom_capacity, lowest_nomination_amount,
  highest_nomination_amount,
}
use bifrost_node.Staking.Nominations.Order.{IsSorted, sum}
use bifrost_node.Staking.Nominations.Bounds.{IsAbove}
use bifrost_node.Staking.Nominations.Owners.{holds}
use bifrost_node.Staking.Types.{CandidateMetadata}
use bifrost_node.Staking.Storage.{Config, Storage, Error, Result, ok, err, ensure, ◌>>=◌, ◌>>◌}
use bifrost_node.Staking.Candidate.Metadata.{is_capacity_full, is_capacity_empty}

-- The limits on the two lists are not zero, and a `u32` holds their sum.
pub record HasRoom {L : Type 0} (c : Config L) : Type 0 where
  pub top_room : 1 ≤ c.max_top_nominations_per_candidate
  pub bottom_room : 1 ≤ c.max_bottom_nominations_per_candidate
  pub in_u32 :
      c.max_top_nominations_per_candidate + c.max_bottom_nominations_per_candidate + 1 < u32_mod

module _ {L : Type 0} (c : Config L) where
  -- Both lists fall, no bottom amount is above a top one, the bottom is empty unless the top is
  -- full, nobody nominates twice, and the candidate's fields say what the lists say. The stored
  -- total of the bottom is only known to cover the sum.
  pub record IsValid (m : CandidateMetadata) (top bottom : Nominations) : Type 0 where
    pub top_sorted : IsSorted top.nominations
    pub bottom_sorted : IsSorted bottom.nominations
    pub above : IsAbove (highest_nomination_amount bottom) top.nominations
    pub top_total : top.total ≡ sum top.nominations
    pub bottom_total : sum bottom.nominations ≤ bottom.total
    pub top_length : length top.nominations ≤ c.max_top_nominations_per_candidate
    pub bottom_length : length bottom.nominations ≤ c.max_bottom_nominations_per_candidate
    pub filled :
        (bottom.nominations ≡ []) ⊎ (length top.nominations ≡ c.max_top_nominations_per_candidate)
    pub lowest_top : m.lowest_top_nomination_amount ≡ lowest_nomination_amount top
    pub highest_bottom : m.highest_bottom_nomination_amount ≡ highest_nomination_amount bottom
    pub lowest_bottom : m.lowest_bottom_nomination_amount ≡ lowest_nomination_amount bottom
    pub top_status : m.top_capacity ≡ top_capacity c.max_top_nominations_per_candidate top
    pub bottom_status :
        m.bottom_capacity ≡ bottom_capacity c.max_bottom_nominations_per_candidate bottom
    pub power : m.voting_power ≡ m.bond + sum top.nominations
    pub counted : m.nomination_count ≡ length top.nominations + length bottom.nominations
    pub fits : m.bond + sum top.nominations + sum bottom.nominations < u128_mod
    pub unique : (o : ℕ) → holds o top.nominations + holds o bottom.nominations ≤ 1

  -- The same of what the storage holds for the candidate.
  pub record IsBacked (candidate : ℕ) (m : CandidateMetadata) (s : Storage L)
      (top bottom : Nominations) : Type 0 where
    pub stored_top : s.top_nominations candidate ≡ some top
    pub stored_bottom : s.bottom_nominations candidate ≡ some bottom
    pub valid : IsValid m top bottom

  -- What an operation leaves: some lists that are stored and valid.
  abbrev pub Outcome : ℕ → CandidateMetadata → Storage L → Type 0
  Outcome k m s = (top : Nominations) × (bottom : Nominations) × IsBacked k m s top bottom

  -- A call that fails is rolled back by its caller; one that succeeds leaves an `Outcome`.
  abbrev pub Leaves : {X : Type 0} → ℕ → Result (X × CandidateMetadata × Storage L) → Type 0
  Leaves k (ok (x, m, s)) = Outcome k m s
  Leaves k (err e) = Unit {0}

  pub Leaves-ensure :
      {X : Type 0} (k : ℕ) (test : Bool) (e : Error)
      (r : Result (X × CandidateMetadata × Storage L))
      → Leaves k r
      → Leaves k (ensure test e >> r)
  Leaves-ensure k true e r h = h
  Leaves-ensure k false e r h = tt

  pub Leaves->>= :
      {X Y : Type 0} (k : ℕ) (r : Result (X × CandidateMetadata × Storage L))
      (g : X → CandidateMetadata → Y)
      → Leaves k r
      → Leaves k (r >>= λ x. ok (g x.0 x.1, x.1, x.2))
  Leaves->>= k (ok (x, m, s)) g h = h
  Leaves->>= k (err e) g h = tt

pub no_bonds : (xs : List Bond) → length xs ≡ 0 → xs ≡ []
no_bonds [] h = refl
no_bonds (x ∷ xs) h = absurd (omega arith)

-- The capacity says whether the list is at its limit, and whether it is empty.
capacity-status :
    (limit : ℕ) (xs : List Bond)
    → 1 ≤ limit
    → length xs < u32_mod
    → (is_capacity_full (capacity limit xs) ≡ leb limit (length xs))
      × (is_capacity_empty (capacity limit xs) ≡ length xs == 0)
capacity-status limit [] h k = ground arith
capacity-status limit (x ∷ xs) h k = ground arith

pub top_capacity-status :
    (limit : ℕ) (n : Nominations)
    → 1 ≤ limit
    → length n.nominations < u32_mod
    → (is_capacity_full (top_capacity limit n) ≡ leb limit (length n.nominations))
      × (is_capacity_empty (top_capacity limit n) ≡ length n.nominations == 0)
unfolding top_capacity
top_capacity-status limit n h k = capacity-status limit n.nominations h k

pub bottom_capacity-status :
    (limit : ℕ) (n : Nominations)
    → 1 ≤ limit
    → length n.nominations < u32_mod
    → (is_capacity_full (bottom_capacity limit n) ≡ leb limit (length n.nominations))
      × (is_capacity_empty (bottom_capacity limit n) ≡ length n.nominations == 0)
unfolding bottom_capacity
bottom_capacity-status limit n h k = capacity-status limit n.nominations h k
