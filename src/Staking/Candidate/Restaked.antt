-- ===== src/Staking/Candidate/Restaked.antt =====
-- A change of one nominator's stake in a candidate, as a call stores it.
use bifrost_node.Prelude.{refl, ℕ, ◌+◌, ◌≡◌, Bool, true, false, ◌==◌, if◌then◌else◌}
use bifrost_node.Staking.Nominations.{Nominations}
use bifrost_node.Staking.Nominations.Owners.{holds}
use bifrost_node.Staking.Nominations.Stakes.{stake}
use bifrost_node.Staking.Types.{CandidateMetadata}
use bifrost_node.Staking.Storage.{Config, Storage, Result, ok, err}
use bifrost_node.Staking.Candidate.Metadata.{top_data, reset_bottom_data, put_top, put_bottom}
use bifrost_node.Staking.Candidate.Increase.{store_raised}
use bifrost_node.Staking.Candidate.Decrease.{store_swapped}
use bifrost_node.Staking.Candidate.Remove.{or_if_dne}
use bifrost_node.Staking.Candidate.Valid.{IsBacked}
use bifrost_node.Staking.Candidate.Relist.{
  AreRelisted, relist_both, relist_top, relist_bottom, put_top-stored, put_bottom-stored,
}

-- The nominator's stake is `amount` and in the top if the flag says so; all others keep theirs.
pub record AreRestaked (in_top : Bool) (o amount : ℕ) (top bottom top' bottom' : Nominations)
    : Type 0 where
  pub place : holds o top'.nominations ≡ (if in_top then 1 else 0)
  pub own : stake o top'.nominations + stake o bottom'.nominations ≡ amount
  pub others :
      (p : ℕ)
      → (p == o) ≡ false
      → stake p top'.nominations + stake p bottom'.nominations
        ≡ stake p top.nominations + stake p bottom.nominations

module _ {L : Type 0} (c : Config L) where
  -- The call succeeds, and leaves a valid candidate and the changed stake.
  abbrev pub Restakes :
      ℕ → ℕ → ℕ → Nominations → Nominations → Result (Bool × CandidateMetadata × Storage L) → Type 0
  Restakes k o amount top bottom (err e) = ⊥
  Restakes k o amount top bottom (ok (in_top, m, s)) =
      (top' : Nominations) × (bottom' : Nominations) × IsBacked c k m s top' bottom'
      × AreRestaked in_top o amount top bottom top' bottom'
      × (holds o top'.nominations + holds o bottom'.nominations
          ≡ holds o top.nominations + holds o bottom.nominations)

  pub Restakes-ok :
      (k o amount : ℕ) (top bottom : Nominations)
      (r : Result (Bool × CandidateMetadata × Storage L))
      → Restakes k o amount top bottom r
      → (in_top : Bool) × (m : CandidateMetadata) × (s : Storage L) × (r ≡ ok (in_top, m, s))
        × Restakes k o amount top bottom (ok (in_top, m, s))
  Restakes-ok k o amount top bottom (ok (in_top, m, s)) h = (in_top, m, s, refl, h)
  Restakes-ok k o amount top bottom (err e) h = elim h [ ]

  pub Restakes-or_if_dne :
      (k o amount : ℕ) (top bottom : Nominations)
      (r r' : Result (Bool × CandidateMetadata × Storage L))
      → Restakes k o amount top bottom r
      → Restakes k o amount top bottom (or_if_dne r r')
  Restakes-or_if_dne k o amount top bottom (ok x) r' h = h
  Restakes-or_if_dne k o amount top bottom (err e) r' h = elim h [ ]

  module _ (flag : Bool) (k o amount : ℕ) {m : CandidateMetadata} {s : Storage L}
      {top bottom : Nominations} (back : IsBacked c k m s top bottom) where
    pub Restakes-put_top :
        (top' : Nominations)
        → AreRelisted m.bond top bottom top' bottom
        → AreRestaked flag o amount top bottom top' bottom
        → Restakes k o amount top bottom (ok (put_top c flag k top' m s))
    Restakes-put_top top' r changed =
        let stored = put_top-stored c flag k top' m s in
        (
          top',
          bottom,
          record {
            stored_top = stored.0;
            stored_bottom = rw stored.1 back.stored_bottom;
            valid = rw stored.2 (relist_top c back.valid r);
          },
          rw stored.3 changed,
          r.owned o,
        )

    pub Restakes-put_bottom :
        (bottom' : Nominations)
        → AreRelisted m.bond top bottom top bottom'
        → AreRestaked flag o amount top bottom top bottom'
        → Restakes k o amount top bottom (ok (put_bottom c flag k bottom' m s))
    Restakes-put_bottom bottom' r changed =
        let stored = put_bottom-stored c flag k bottom' m s in
        (
          top,
          bottom',
          record {
            stored_top = rw stored.1 back.stored_top;
            stored_bottom = stored.0;
            valid = rw stored.2 (relist_bottom c back.valid r);
          },
          rw stored.3 changed,
          r.owned o,
        )

  module _ (k o amount : ℕ) {m : CandidateMetadata} {s : Storage L} {top bottom : Nominations}
      (back : IsBacked c k m s top bottom) where
    pub Restakes-store_raised :
        (top' bottom' : Nominations)
        → AreRelisted m.bond top bottom top' bottom'
        → AreRestaked true o amount top bottom top' bottom'
        → Restakes k o amount top bottom (ok (store_raised c k top' bottom' m s))
    unfolding store_raised
    Restakes-store_raised top' bottom' r changed =
        let (flag', m', s') = put_top c true k top' m s in
        let stored = put_top-stored c true k top' m s in
        let below = put_bottom-stored c flag' k bottom' m' s' in
        (
          top',
          bottom',
          record {
            stored_top = rw below.1 stored.0;
            stored_bottom = below.0;
            valid = rw (below.2, stored.2) (relist_both c back.valid r);
          },
          rw (below.3, stored.3) changed,
          r.owned o,
        )

    pub Restakes-store_swapped :
        (top' bottom' : Nominations)
        → AreRelisted m.bond top bottom top' bottom'
        → AreRestaked false o amount top bottom top' bottom'
        → Restakes k o amount top bottom (ok (store_swapped c k top' bottom' m s))
    unfolding store_swapped top_data reset_bottom_data
    Restakes-store_swapped top' bottom' r changed =
        let (flag', m', s') = put_bottom c false k bottom' m s in
        let below = put_bottom-stored c false k bottom' m s in
        let stored = put_top-stored c flag' k top' m' s' in
        (
          top',
          bottom',
          record {
            stored_top = stored.0;
            stored_bottom = rw stored.1 below.0;
            valid = rw (stored.2, below.2) (relist_both c back.valid r);
          },
          rw (stored.3, below.3) changed,
          r.owned o,
        )
