-- ===== src/Staking/Candidate/Bonding/Delay.antt =====
-- A decrease of the self-bond from its schedule to its execution or its cancellation.
use bifrost_node.Prelude.{
  ℕ, ◌+◌, ◌≤◌, ◌<◌, ◌≡◌, refl, ap, sym, true, none, some, arith, leb, sat_sub, sub128,
}
use bifrost_node.Staking.Nominations.{Nominations}
use bifrost_node.Staking.Types.{CandidateMetadata}
use bifrost_node.Staking.Storage.{
  Config, Storage, ok, now, update_active, deposit_event, cancelled_candidate_bond_less,
}
use bifrost_node.Staking.Candidate.Bonding.{
  min_stk, schedule_bond_less, execute_bond_less, cancel_bond_less,
}
use bifrost_node.Staking.Candidate.Valid.{IsValid, IsBacked}

module _ {L : Type 0} (c : Config L) where
  -- The candidate with a request to lower its bond.
  abbrev requesting : ℕ → ℕ → CandidateMetadata → CandidateMetadata
  requesting less when m = record m {
    request = some (record { amount = less; when_executable = when });
  }

  schedule-parts :
      (less when : ℕ) (m m' : CandidateMetadata) (s : Storage L)
      → schedule_bond_less c less m s ≡ ok (when, m')
      → (m.request ≡ none)
        × (less < m.bond)
        × (min_stk c m ≤ sub128 m.bond less)
        × (m' ≡ requesting less when m)
  unfolding schedule_bond_less
  schedule-parts less when m m' s h = ground arith

  -- Cancelling a decrease that was just scheduled gives the candidate back.
  pub cancel-schedule :
      (who less when : ℕ) (m m' : CandidateMetadata) (s t : Storage L)
      → schedule_bond_less c less m s ≡ ok (when, m')
      → (t' : Storage L) × (cancel_bond_less c who m' t ≡ ok (m, t'))
  unfolding cancel_bond_less
  cancel-schedule who less when m m' s t h =
      let parts = schedule-parts less when m m' s h in
      let t' = deposit_event (cancelled_candidate_bond_less who less when) t in
      rw parts.3 (t', ap (λ r. ok (record m { request = r }, t')) (sym parts.0))

  execute-eq :
      (stash k less when : ℕ) (m : CandidateMetadata) (t : Storage L)
      → leb when (now t) ≡ true
      → (t' : Storage L) × (execute_bond_less c stash k (requesting less when m) t
          ≡ ok (
            record m {
              bond = sat_sub m.bond less;
              voting_power = sat_sub m.voting_power less;
              request = none;
            },
            t',
          ))
        × (t'.top_nominations ≡ t.top_nominations)
        × (t'.bottom_nominations ≡ t.bottom_nominations)
        × (t'.total ≡ sat_sub t.total less)
        × (t'.ledger ≡ c.unreserve stash less t.ledger)
  unfolding execute_bond_less update_active
  execute-eq stash k less when m t due = rw due (_, refl, refl, refl, refl, refl)

  lower_bond-IsValid :
      (less : ℕ) (m : CandidateMetadata) (top bottom : Nominations)
      → IsValid c m top bottom
      → less ≤ m.bond
      → IsValid c
          (record m {
            bond = sat_sub m.bond less;
            voting_power = sat_sub m.voting_power less;
            request = none;
          })
          top
          bottom
  lower_bond-IsValid less m top bottom v enough = record {
    top_sorted = v.top_sorted;
    bottom_sorted = v.bottom_sorted;
    above = v.above;
    top_total = v.top_total;
    bottom_total = v.bottom_total;
    top_length = v.top_length;
    bottom_length = v.bottom_length;
    filled = v.filled;
    lowest_top = v.lowest_top;
    highest_bottom = v.highest_bottom;
    lowest_bottom = v.lowest_bottom;
    top_status = v.top_status;
    bottom_status = v.bottom_status;
    power = omega (arith, v.power);
    counted = v.counted;
    fits = omega (arith, v.fits);
    unique = v.unique;
  }

  -- What the execution of a decrease leaves.
  pub record HasLowered (stash k less : ℕ) (m m' : CandidateMetadata) (t t' : Storage L)
      (top bottom : Nominations) : Type 0 where
    pub back : IsBacked c k m' t' top bottom
    pub lower : m'.bond + less ≡ m.bond
    pub at_least : min_stk c m ≤ m'.bond
    pub done : m'.request ≡ none
    pub all_total : t'.total ≡ sat_sub t.total less
    pub unreserved : t'.ledger ≡ c.unreserve stash less t.ledger

  -- A decrease that was scheduled for a valid candidate and is due succeeds: the self-bond falls by
  -- the amount, stays at the minimum of the tier or above it, and the candidate stays valid.
  pub execute-schedule :
      (stash k less when : ℕ) (m m' : CandidateMetadata) (s t : Storage L)
      (top bottom : Nominations)
      → IsBacked c k m t top bottom
      → schedule_bond_less c less m s ≡ ok (when, m')
      → when ≤ now t
      → (m'' : CandidateMetadata) × (t' : Storage L) × (execute_bond_less c stash k m' t
          ≡ ok (m'', t'))
        × HasLowered stash k less m m'' t t' top bottom
  execute-schedule stash k less when m m' s t top bottom back h due =
      let parts = schedule-parts less when m m' s h in
      let (t', e, same_top, same_bottom, total, ledger) =
        execute-eq stash k less when m t (ground arith) in
      rw parts.3 (
        _,
        t',
        e,
        record {
          back = record {
            stored_top = rw same_top back.stored_top;
            stored_bottom = rw same_bottom back.stored_bottom;
            valid = lower_bond-IsValid less m top bottom back.valid (omega (arith, parts.1));
          };
          lower = omega (arith, parts.1);
          at_least = ground (arith, parts.1, parts.2, back.valid.fits);
          done = refl;
          all_total = total;
          unreserved = ledger;
        },
      )
