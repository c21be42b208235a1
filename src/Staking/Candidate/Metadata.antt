-- ===== src/Staking/Candidate/Metadata.antt =====
-- `CandidateMetadata`: the fields that repeat what the top and bottom lists say, and the list
-- operations that all methods on nominations share.
use bifrost_node.Prelude.{
  sat_add, update, ℕ, Bool, true, false, not, Option, none, some, List, [], ◌∷◌, ◌==◌, ◌||◌,
  if◌then◌else◌, retain, last?, first?, but_last, tail, sat_sub, add128,
}
use bifrost_node.Staking.Nominations.{
  Bond, Nominations, CapacityStatus, top_capacity, bottom_capacity, lowest_nomination_amount,
  highest_nomination_amount,
}
use bifrost_node.Staking.Types.{CandidateMetadata}
use bifrost_node.Staking.Storage.{
  Config, Storage, Result, ok, Error, panic, ◌>>=◌, ok_or, update_active,
}

abbrev pub is_capacity_full : CapacityStatus → Bool
is_capacity_full CapacityStatus.full = true
is_capacity_full CapacityStatus.empty = false
is_capacity_full CapacityStatus.partial = false

abbrev pub is_capacity_empty : CapacityStatus → Bool
is_capacity_empty CapacityStatus.full = false
is_capacity_empty CapacityStatus.empty = true
is_capacity_empty CapacityStatus.partial = false

module _ {L : Type 0} (c : Config L) where
  -- The candidate's fields after `reset_top_data`.
  unfoldable pub top_data : Nominations → CandidateMetadata → CandidateMetadata
  top_data top m = record m {
    lowest_top_nomination_amount = lowest_nomination_amount top;
    top_capacity = top_capacity c.max_top_nominations_per_candidate top;
    voting_power = add128 m.bond top.total;
  }

  unfoldable pub reset_top_data :
      ℕ → Nominations → CandidateMetadata → Storage L → CandidateMetadata × Storage L
  unfolding top_data
  reset_top_data candidate top m s =
      let m' = top_data top m in
      (
        m',
        if m.voting_power == m'.voting_power then s else update_active candidate m'.voting_power s,
      )

  unfoldable pub reset_bottom_data : Nominations → CandidateMetadata → CandidateMetadata
  reset_bottom_data bottom m = record m {
    lowest_bottom_nomination_amount = lowest_nomination_amount bottom;
    highest_bottom_nomination_amount = highest_nomination_amount bottom;
    bottom_capacity = bottom_capacity c.max_bottom_nominations_per_candidate bottom;
  }

-- A changed list goes back to the storage, behind its metadata. With the flag that the caller
-- returns.
module _ {L : Type 0} (c : Config L) where
  unfoldable pub put_top :
      Bool → ℕ → Nominations → CandidateMetadata → Storage L → Bool × CandidateMetadata × Storage L
  put_top flag candidate top m s =
      let (m', s') = reset_top_data c candidate top m s in
      (flag, m', record s' { top_nominations = update s'.top_nominations candidate (some top) })

  unfoldable pub put_bottom :
      Bool → ℕ → Nominations → CandidateMetadata → Storage L → Bool × CandidateMetadata × Storage L
  put_bottom flag candidate bottom m s = (
    flag,
    reset_bottom_data c bottom m,
    record s { bottom_nominations = update s.bottom_nominations candidate (some bottom) },
  )

-- The closures of the maps over the amounts.
unfoldable pub added : ℕ → ℕ → ℕ
added more amount = sat_add amount more

unfoldable pub lowered : ℕ → ℕ → ℕ
lowered less amount = sat_sub amount less

-- `nominations.pop()`, with the total lowered.
unfoldable pub pop_lowest : Error → Nominations → Result (Bond × Nominations)
pop_lowest e n = do
  b ← ok_or (last? n.nominations) e
  ok (b, record { nominations = but_last n.nominations; total = sat_sub n.total b.amount })

-- `nominations.remove(0)`, with the total lowered.
unfoldable pub take_highest : Nominations → Result (Bond × Nominations)
take_highest n = do
  b ← ok_or (first? n.nominations) panic
  ok (b, record { nominations = tail n.nominations; total = sat_sub n.total b.amount })

-- The filter that takes a nominator's bonds out, and what it notes of the last one that it drops.
unfoldable pub without : ℕ → List Bond → List Bond
without nominator = retain (λ b. not (b.owner == nominator))

abbrev pub left : ℕ → ℕ → Nominations → Nominations
left nominator amount n = record {
  nominations = without nominator n.nominations;
  total = sat_sub n.total amount;
}

unfoldable pub last_of : ℕ → List Bond → Option Bond
last_of nominator [] = none
last_of nominator (b ∷ bs) = elim (last_of nominator bs) [
  | none ↦ if b.owner == nominator then some b else none
  | some x ↦ some x
]

-- The map that changes the amount of a nominator's bonds, and whether it met one.
unfoldable pub change_amount : ℕ → (ℕ → ℕ) → List Bond → List Bond
change_amount nominator f [] = []
change_amount nominator f (b ∷ bs) =
    (if b.owner == nominator then record b { amount = f b.amount } else b)
    ∷ change_amount nominator f bs

unfoldable pub occurs : ℕ → List Bond → Bool
occurs nominator [] = false
occurs nominator (b ∷ bs) = b.owner == nominator || occurs nominator bs
