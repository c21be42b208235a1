-- ===== src/Staking/Candidate/Add/Steps.antt =====
-- What each step of `add_nomination` writes, in terms of the lists before it.
use bifrost_node.Prelude.{
  ℕ, ◌+◌, ◌≤◌, ◌<◌, ◌%◌, ◌≡◌, refl, ap, sym, ◌∙◌, ◌⊎◌, inl, inr, Bool, true, false, not, Option,
  none, some, Bool-cases, arith, ◌==◌, if◌then◌else◌, length, last?, u32_mod,
}
use bifrost_node.Staking.Nominations.{Bond, Nominations, insert_sorted_greatest_to_least}
use bifrost_node.Staking.Nominations.Order.{IsSorted, sum}
use bifrost_node.Staking.Nominations.Bounds.{last?-parts, last?-some}
use bifrost_node.Staking.Types.{CandidateMetadata}
use bifrost_node.Staking.Storage.{Config, Storage, ok, ◌>>=◌, first_ok, update_active}
use bifrost_node.Staking.Candidate.Metadata.{is_capacity_full, reset_top_data, pop_lowest}
use bifrost_node.Staking.Candidate.Add.{
  kick, store_bottom, add_bottom_nomination, store_top, add_top_nomination,
}
use bifrost_node.Staking.Candidate.Valid.{HasRoom, IsValid, Outcome, bottom_capacity-status}
use bifrost_node.Staking.Nominations.Part.{IsPart, without_last, but_last-IsPart, whole-IsPart}
use bifrost_node.Staking.Candidate.Add.Validity.{Counts}

module _ {L : Type 0} (c : Config L) (room : HasRoom c) where
  -- Kicking a nominator touches no list of nominations.
  pub kick-nominations :
      (k : ℕ) (b : Bond) (s t : Storage L)
      → kick c k b s ≡ ok t
      → (t.top_nominations ≡ s.top_nominations) × (t.bottom_nominations ≡ s.bottom_nominations)
  unfolding kick
  kick-nominations k b s t h = ground arith

  pub add_bottom_nomination-full :
      (bumped : Bool) (k : ℕ) (b l : Bond) (m : CandidateMetadata) (s : Storage L)
      (bottom : Nominations)
      → s.bottom_nominations k ≡ some bottom
      → (length bottom.nominations % u32_mod == c.max_bottom_nominations_per_candidate) ≡ true
      → last? bottom.nominations ≡ some l
      → add_bottom_nomination c bumped k b m s
        ≡ (kick c k l s >>= λ t. ok (store_bottom c false k b (without_last bottom l) m t))
  unfolding add_bottom_nomination pop_lowest
  add_bottom_nomination-full bumped k b l m s bottom stored test e =
      rw (stored, ◌>>=◌, test, e) refl

  pub add_bottom_nomination-partial :
      (bumped : Bool) (k : ℕ) (b : Bond) (m : CandidateMetadata) (s : Storage L)
      (bottom : Nominations)
      → s.bottom_nominations k ≡ some bottom
      → (length bottom.nominations % u32_mod == c.max_bottom_nominations_per_candidate) ≡ false
      → add_bottom_nomination c bumped k b m s ≡ ok (store_bottom c (not bumped) k b bottom m s)
  unfolding add_bottom_nomination
  add_bottom_nomination-partial bumped k b m s bottom stored test = rw (stored, ◌>>=◌, test) refl

  -- What `add_bottom_nomination` stores, in both of its branches.
  pub record BottomStep (bumped : Bool) (k : ℕ) (b : Bond) (m : CandidateMetadata) (s : Storage L)
      (bottom : Nominations) (m' : CandidateMetadata) (s' : Storage L) : Type 0 where
    pub part : Nominations
    pub grows : Bool
    pub t : Storage L
    pub is_part : IsPart part bottom
    pub space : length part.nominations < c.max_bottom_nominations_per_candidate
    pub stored : (m', s') ≡ store_bottom c grows k b part m t
    pub same_top : t.top_nominations ≡ s.top_nominations
    pub branch :
        ((length part.nominations + 1 ≡ length bottom.nominations)
          × (grows ≡ false)
          × (length bottom.nominations ≡ c.max_bottom_nominations_per_candidate))
        ⊎ ((length part.nominations ≡ length bottom.nominations)
            × (grows ≡ not bumped)
            × (length bottom.nominations < c.max_bottom_nominations_per_candidate))

  pub add_bottom_nomination-BottomStep :
      (bumped : Bool) (k : ℕ) (b : Bond) (m m' : CandidateMetadata) (s s' : Storage L)
      (bottom : Nominations)
      → IsSorted bottom.nominations
      → sum bottom.nominations ≤ bottom.total
      → length bottom.nominations ≤ c.max_bottom_nominations_per_candidate
      → s.bottom_nominations k ≡ some bottom
      → add_bottom_nomination c bumped k b m s ≡ ok (m', s')
      → BottomStep bumped k b m s bottom m' s'
  add_bottom_nomination-BottomStep bumped k b m m' s s' bottom sorted covered len stored h =
      elim (Bool-cases
        (length bottom.nominations % u32_mod == c.max_bottom_nominations_per_candidate)) [
          | inl full ↦
              let (l, e) = last?-some bottom.nominations (ground (arith, room.bottom_room)) in
              let (t, kicked, out) =
                first_ok (kick c k l s)
                  (λ t. ok (store_bottom c false k b (without_last bottom l) m t))
                  (sym (add_bottom_nomination-full bumped k b l m s bottom stored full e) ∙ h) in
              record {
                part = without_last bottom l;
                grows = false;
                t = t;
                is_part = but_last-IsPart bottom l sorted covered e;
                space = ground (arith, last?-parts bottom.nominations l e);
                stored = cc out;
                same_top = (kick-nominations k l s t kicked).0;
                branch = inl (ground (arith, room.in_u32, last?-parts bottom.nominations l e));
              }
          | inr partial ↦ record {
            part = bottom;
            grows = not bumped;
            t = s;
            is_part = whole-IsPart bottom sorted covered;
            space = ground (arith, room.in_u32);
            stored = cc (add_bottom_nomination-partial bumped k b m s bottom stored partial);
            same_top = refl;
            branch = inr (ground (arith, room.in_u32));
          }
        ]

  -- The storage after `store_top`: a valid candidate is backed by the list that it stores.
  pub store_top-IsBacked :
      (less : Option ℕ) (k : ℕ) (b : Bond) (rest bottom : Nominations) (m : CandidateMetadata)
      (s : Storage L)
      → s.bottom_nominations k ≡ some bottom
      → IsValid c (store_top c less k b rest m s).1 (insert_sorted_greatest_to_least rest b) bottom
      → Outcome c k (store_top c less k b rest m s).1 (store_top c less k b rest m s).2
  unfolding store_top reset_top_data update_active
  store_top-IsBacked less k b rest bottom m s stored v = (
    insert_sorted_greatest_to_least rest b,
    bottom,
    record { stored_top = ground arith; stored_bottom = ground arith; valid = v },
  )

  pub add_top_nomination-partial :
      (k : ℕ) (b : Bond) (m : CandidateMetadata) (s : Storage L) (top : Nominations)
      → s.top_nominations k ≡ some top
      → (length top.nominations % u32_mod == c.max_top_nominations_per_candidate) ≡ false
      → add_top_nomination c k b m s ≡ ok (store_top c none k b top m s)
  unfolding add_top_nomination
  add_top_nomination-partial k b m s top stored test = rw (stored, ◌>>=◌, test) refl

  abbrev pub bumped_out : CandidateMetadata → Option ℕ
  bumped_out m =
      if is_capacity_full m.bottom_capacity then some m.lowest_bottom_nomination_amount else none

  pub add_top_nomination-full :
      (k : ℕ) (b l : Bond) (m : CandidateMetadata) (s : Storage L) (top : Nominations)
      → s.top_nominations k ≡ some top
      → (length top.nominations % u32_mod == c.max_top_nominations_per_candidate) ≡ true
      → last? top.nominations ≡ some l
      → add_top_nomination c k b m s ≡ (
          add_bottom_nomination c true k l m s >>= λ x.
          ok (store_top c (bumped_out m) k b (without_last top l) x.0 x.1))
  unfolding add_top_nomination pop_lowest
  add_top_nomination-full k b l m s top stored test e = rw (stored, ◌>>=◌, test, e) refl

  pub store_bottom-stored :
      (grows : Bool) (k : ℕ) (b : Bond) (part : Nominations) (m : CandidateMetadata) (t : Storage L)
      → ((store_bottom c grows k b part m t).1.bottom_nominations k
          ≡ some (insert_sorted_greatest_to_least part b))
        × ((store_bottom c grows k b part m t).1.top_nominations ≡ t.top_nominations)
  unfolding store_bottom
  store_bottom-stored grows k b part m t = (ground arith, refl)

  pub BottomStep-stored :
      {bumped : Bool} {k : ℕ} {b : Bond} {m m' : CandidateMetadata} {s s' : Storage L}
      {bottom : Nominations} (st : BottomStep bumped k b m s bottom m' s')
      → s'.bottom_nominations k ≡ some (insert_sorted_greatest_to_least st.part b)
  BottomStep-stored {k} {b} {m} st =
      rw (ap (λ x. x.1.bottom_nominations k) st.stored)
        ((store_bottom-stored st.grows k b st.part m st.t).0)

  -- The count of the nominations rises unless the bottom was full.
  pub bumped_out-Counts :
      (m : CandidateMetadata) (top bottom : Nominations) {grows : Bool} {part : ℕ}
      → IsValid c m top bottom
      → ((part + 1 ≡ length bottom.nominations)
          × (grows ≡ false)
          × (length bottom.nominations ≡ c.max_bottom_nominations_per_candidate))
        ⊎ ((part ≡ length bottom.nominations)
            × (grows ≡ not true)
            × (length bottom.nominations < c.max_bottom_nominations_per_candidate))
      → Counts c room (bumped_out m) part (length bottom.nominations)
  bumped_out-Counts m top bottom v branch = ground (
    arith,
    room.bottom_room,
    room.in_u32,
    bottom_capacity-status c.max_bottom_nominations_per_candidate bottom,
  )
