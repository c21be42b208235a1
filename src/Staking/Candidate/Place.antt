-- ===== src/Staking/Candidate/Place.antt =====
-- In which list a nomination of a valid candidate is, by its amount.
use bifrost_node.Prelude.{
  Option-cases, Bool-cases, List, [], ◌∷◌, refl, inl, inr, ◌==◌, ◌+◌, ℕ, ◌≤◌, ◌≡◌, ◌⊎◌, true, none,
  some, arith, length,
}
use bifrost_node.Staking.Nominations.{
  Bond, Nominations, lowest_nomination_amount, highest_nomination_amount,
}
use bifrost_node.Staking.Nominations.Bounds.{
  IsAbove-zero, lowest-IsAbove, IsSorted-highest, le-lowest,
}
use bifrost_node.Staking.Nominations.Owners.{holds}
use bifrost_node.Staking.Nominations.Stakes.{stake}
use bifrost_node.Staking.Candidate.Restake.{stake-last_of, stake_absent}
use bifrost_node.Staking.Types.{CandidateMetadata}
use bifrost_node.Staking.Storage.{Config}
use bifrost_node.Staking.Candidate.Metadata.{is_capacity_full, last_of}
use bifrost_node.Staking.Candidate.Selection.{without-last_of, last_of-le, without_absent}
use bifrost_node.Staking.Candidate.Valid.{HasRoom, IsValid, top_capacity-status}

-- The nomination is in one of the lists, at the amount that the nominator has for it.
abbrev pub IsNominated : ℕ → ℕ → Nominations → Nominations → Type 0
IsNominated o amount top bottom =
    ((b : Bond) × (last_of o top.nominations ≡ some b) × (b.amount ≡ amount))
    ⊎ ((b : Bond) × (last_of o bottom.nominations ≡ some b) × (b.amount ≡ amount))

module _ {L : Type 0} (c : Config L) where
  pub in_top_amount :
      (o : ℕ) (b : Bond) (top bottom : Nominations) (m : CandidateMetadata)
      → IsValid c m top bottom
      → last_of o top.nominations ≡ some b
      → m.lowest_top_nomination_amount ≤ b.amount
  unfolding lowest_nomination_amount
  in_top_amount o b top bottom m v e = omega (
    arith,
    without-last_of o _ top.nominations b (omega (arith, v.unique o))
        (lowest-IsAbove top.nominations v.top_sorted) e,
  )

module _ {L : Type 0} (c : Config L) (room : HasRoom c) where
  pub in_bottom_amount :
      (o : ℕ) (b : Bond) (top bottom : Nominations) (m : CandidateMetadata)
      → IsValid c m top bottom
      → last_of o bottom.nominations ≡ some b
      → (length top.nominations ≡ c.max_top_nominations_per_candidate)
        × (b.amount ≤ m.highest_bottom_nomination_amount)
        × (m.highest_bottom_nomination_amount ≤ m.lowest_top_nomination_amount)
        × (last_of o top.nominations ≡ none)
  unfolding lowest_nomination_amount highest_nomination_amount
  in_bottom_amount o b top bottom m v e =
      let parts =
        without-last_of o 0 bottom.nominations b (omega (arith, v.unique o))
          (IsAbove-zero bottom.nominations) e in
      let full : length top.nominations ≡ c.max_top_nominations_per_candidate =
        ground (arith, v.filled, parts.1) in
      (
        full,
        omega (
          arith,
          v.highest_bottom,
          last_of-le o _ bottom.nominations b (IsSorted-highest bottom.nominations v.bottom_sorted)
              e,
        ),
        ground (
          arith,
          v.highest_bottom,
          v.lowest_top,
          room.top_room,
          full,
          le-lowest _ top.nominations v.above,
        ),
        (without_absent o top.nominations (omega (arith, parts.4, v.unique o))).2,
      )

  pub full_status :
      (top bottom : Nominations) (m : CandidateMetadata)
      → IsValid c m top bottom
      → length top.nominations ≡ c.max_top_nominations_per_candidate
      → is_capacity_full m.top_capacity ≡ true
  full_status top bottom m v full = ground (
    arith,
    v.top_status,
    room.in_u32,
    top_capacity-status c.max_top_nominations_per_candidate top room.top_room,
  )

-- A nominator with one bond has a last one.
held : (o : ℕ) (xs : List Bond) → holds o xs ≡ 1 → (b : Bond) × (last_of o xs ≡ some b)
unfolding last_of
held o [] h = absurd (omega arith)
held o (x ∷ xs) h = elim (Option-cases (last_of o xs)) [
  | inl e ↦ elim (Bool-cases (x.owner == o)) [
    | inl q ↦ (x, rw (e, q) refl)
    | inr q ↦ let (b, f) = held o xs (ground (arith, q)) in (b, rw f refl)
  ]
  | inr (b, e) ↦ (b, rw e refl)
]

one_of_two : (a b : ℕ) → a + b ≡ 1 → ((a ≡ 1) × (b ≡ 0)) ⊎ ((a ≡ 0) × (b ≡ 1))
one_of_two a b h = ground arith

-- Where a nominator's one bond is, its amount is the nominator's stake.
pub stake-IsNominated :
    (o : ℕ) (top bottom : Nominations)
    → holds o top.nominations + holds o bottom.nominations ≡ 1
    → IsNominated o (stake o top.nominations + stake o bottom.nominations) top bottom
stake-IsNominated o top bottom h =
    elim (one_of_two (holds o top.nominations) (holds o bottom.nominations) h) [
      | inl (a, z) ↦
          let (b, e) = held o top.nominations a in
          inl (
            b,
            e,
            omega (
              arith,
              stake-last_of o top.nominations b (omega arith) e,
              stake_absent o bottom.nominations z,
            ),
          )
      | inr (z, a) ↦
          let (b, e) = held o bottom.nominations a in
          inr (
            b,
            e,
            omega (
              arith,
              stake-last_of o bottom.nominations b (omega arith) e,
              stake_absent o top.nominations z,
            ),
          )
    ]

-- A nomination is the nominator's one bond.
pub IsNominated-holds :
    {L : Type 0} (c : Config L) (o amount : ℕ) (m : CandidateMetadata) (top bottom : Nominations)
    → IsValid c m top bottom
    → IsNominated o amount top bottom
    → holds o top.nominations + holds o bottom.nominations ≡ 1
IsNominated-holds c o amount m top bottom v (inl (b, e, q)) = omega (
  arith,
  v.unique o,
  without-last_of o 0 top.nominations b (omega (arith, v.unique o)) (IsAbove-zero _) e,
)
IsNominated-holds c o amount m top bottom v (inr (b, e, q)) = omega (
  arith,
  v.unique o,
  without-last_of o 0 bottom.nominations b (omega (arith, v.unique o)) (IsAbove-zero _) e,
)
