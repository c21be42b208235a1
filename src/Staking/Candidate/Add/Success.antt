-- ===== src/Staking/Candidate/Add/Success.antt =====
-- When `add_nomination` succeeds.
use bifrost_node.Prelude.{
  ℕ, ◌+◌, ◌<◌, ◌%◌, ◌≡◌, refl, ◌⊎◌, inl, inr, Bool, true, false, Option, some, Bool-cases, arith,
  ◌==◌, ltb, if◌then◌else◌, length, last?, u32_mod, u128_mod,
}
use bifrost_node.Staking.Nominations.{Bond, Nominations, lowest_nomination_amount}
use bifrost_node.Staking.Nominations.Order.{sum}
use bifrost_node.Staking.Nominations.Owners.{holds}
use bifrost_node.Staking.Nominations.Bounds.{last?-some}
use bifrost_node.Staking.Types.{CandidateMetadata, Nominator, NominatorAdded}
use bifrost_node.Staking.Storage.{Config, Storage, Result, ok, ◌>>=◌}
use bifrost_node.Staking.Candidate.Metadata.{is_capacity_full}
use bifrost_node.Staking.Candidate.Add.{
  kick, add_bottom_nomination, add_top_nomination, add_nomination,
}
use bifrost_node.Staking.Candidate.Add.Steps.{
  add_bottom_nomination-full, add_bottom_nomination-partial, add_top_nomination-full,
  add_top_nomination-partial,
}
use bifrost_node.Staking.Candidate.Add.Backing.{add_nomination-Leaves}
use bifrost_node.Staking.Candidate.Valid.{
  HasRoom, IsBacked, Outcome, Leaves, bottom_capacity-status,
}

-- The nominator of the lowest bottom bond, the one that a kick would take, is known.
abbrev pub IsKickable : {L : Type 0} → Nominations → Storage L → Type 0
IsKickable bottom s =
    (l : Bond)
    → last? bottom.nominations ≡ some l
    → (n : Nominator) × (s.nominator_state l.owner ≡ some n)

module _ {L : Type 0} (c : Config L) (room : HasRoom c) where
  abbrev Succeeds : {X : Type 0} → Result X → Type 0
  Succeeds {X} r = (x : X) × (r ≡ ok x)

  kick-Succeeds :
      (k : ℕ) (l : Bond) (n : Nominator) (s : Storage L)
      → s.nominator_state l.owner ≡ some n
      → Succeeds (kick c k l s)
  unfolding kick
  kick-Succeeds k l n s e = rw (e, ◌>>=◌) (_, refl)

  add_bottom_nomination-Succeeds :
      (bumped : Bool) (k : ℕ) (b : Bond) (m : CandidateMetadata) (s : Storage L)
      (top bottom : Nominations)
      → IsBacked c k m s top bottom
      → IsKickable bottom s
      → Succeeds (add_bottom_nomination c bumped k b m s)
  add_bottom_nomination-Succeeds bumped k b m s top bottom back known =
      elim (Bool-cases
        (length bottom.nominations % u32_mod == c.max_bottom_nominations_per_candidate)) [
          | inl full ↦
              let (l, e) = last?-some bottom.nominations (ground (arith, room.bottom_room)) in
              let (n, kn) = known l e in
              let (t, kicked) = kick-Succeeds k l n s kn in
              rw
                (
                  add_bottom_nomination-full c room bumped k b l m s bottom back.stored_bottom full
                      e,
                  kicked,
                )
                (_, refl)
          | inr partial ↦ (
            _,
            add_bottom_nomination-partial c room bumped k b m s bottom back.stored_bottom partial,
          )
        ]

  add_top_nomination-Succeeds :
      (k : ℕ) (b : Bond) (m : CandidateMetadata) (s : Storage L) (top bottom : Nominations)
      → IsBacked c k m s top bottom
      → IsKickable bottom s
      → Succeeds (add_top_nomination c k b m s)
  add_top_nomination-Succeeds k b m s top bottom back known =
      elim (Bool-cases (length top.nominations % u32_mod == c.max_top_nominations_per_candidate)) [
        | inl full ↦
            let (l, e) = last?-some top.nominations (ground (arith, room.top_room)) in
            let (x, done) = add_bottom_nomination-Succeeds true k l m s top bottom back known in
            rw (add_top_nomination-full c room k b l m s top back.stored_top full e, done) (_, refl)
        | inr partial ↦ (_, add_top_nomination-partial c room k b m s top back.stored_top partial)
      ]

  add_nomination-Succeeds :
      (k : ℕ) (b : Bond) (m : CandidateMetadata) (s : Storage L) (top bottom : Nominations)
      → IsBacked c k m s top bottom
      → IsKickable bottom s
      → (length bottom.nominations < c.max_bottom_nominations_per_candidate)
        ⊎ (lowest_nomination_amount bottom < b.amount)
      → Succeeds (add_nomination c k b m s)
  unfolding add_nomination
  add_nomination-Succeeds k b m s top bottom back known accepted =
      let v = back.valid in
      let status =
        bottom_capacity-status c.max_bottom_nominations_per_candidate bottom room.bottom_room
          (omega (arith, room.in_u32, v.bottom_length)) in
      let (x, done) = add_top_nomination-Succeeds k b m s top bottom back known in
      let (y, below) = add_bottom_nomination-Succeeds false k b m s top bottom back known in
      let test : (if is_capacity_full m.bottom_capacity
            then ltb m.lowest_bottom_nomination_amount b.amount
            else true)
          ≡ true =
        ground (arith, status, accepted, v.bottom_status, v.lowest_bottom) in
      elim (Bool-cases (is_capacity_full m.top_capacity)) [
        | inr room_left ↦ rw (room_left, done) (_, refl)
        | inl full ↦ elim (Bool-cases (ltb m.lowest_top_nomination_amount b.amount)) [
          | inl higher ↦ rw (full, higher, done) (_, refl)
          | inr lower ↦ rw (full, lower, test, below) (_, refl)
        ]
      ]

  Leaves-eq :
      {X : Type 0} (k : ℕ) (r r' : Result (X × CandidateMetadata × Storage L))
      → r ≡ r'
      → Leaves c k r
      → Leaves c k r'
  Leaves-eq k r r' e h = rw⁻¹ e h

  -- An account that does not back a valid candidate yet nominates it. If 128 bits hold the sum with
  -- the new amount, the bottom has room or the amount is above its lowest, and the nominator of the
  -- lowest bottom bond is known, the call succeeds and leaves a candidate that is valid with the
  -- lists that are stored then.
  pub add_nomination-Outcome :
      (k : ℕ) (b : Bond) (m : CandidateMetadata) (s : Storage L) (top bottom : Nominations)
      → IsBacked c k m s top bottom
      → m.bond + sum top.nominations + sum bottom.nominations + b.amount < u128_mod
      → holds b.owner top.nominations + holds b.owner bottom.nominations ≡ 0
      → IsKickable bottom s
      → (length bottom.nominations < c.max_bottom_nominations_per_candidate)
        ⊎ (lowest_nomination_amount bottom < b.amount)
      → (x : NominatorAdded × Option ℕ) × (m' : CandidateMetadata) × (s' : Storage L)
        × (add_nomination c k b m s ≡ ok (x, m', s'))
        × Outcome c k m' s'
  add_nomination-Outcome k b m s top bottom back fits free known accepted =
      let ((x, m', s'), done) = add_nomination-Succeeds k b m s top bottom back known accepted in
      let left = add_nomination-Leaves c room k b m s top bottom back fits free in
      (x, m', s', done, Leaves-eq k (add_nomination c k b m s) (ok (x, m', s')) done left)
