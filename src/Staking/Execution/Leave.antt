-- ===== src/Staking/Execution/Leave.antt =====
-- `nominator_leaves_candidate`: the candidate's lists, the total and the ledger when a nominator
-- goes.
use bifrost_node.Prelude.{ℕ, ◌+◌, ◌≡◌, refl, Bool, false, some, update, arith, sat_sub, ◌==◌}
use bifrost_node.Staking.Nominations.{Nominations}
use bifrost_node.Staking.Nominations.Order.{sum}
use bifrost_node.Staking.Nominations.Owners.{holds}
use bifrost_node.Staking.Nominations.Stakes.{stake}
use bifrost_node.Staking.Types.{CandidateMetadata}
use bifrost_node.Staking.Storage.{Config, Storage, Result, ok, err}
use bifrost_node.Staking.Candidate.Place.{IsNominated}
use bifrost_node.Staking.Candidate.Remove.{rm_nomination_if_exists}
use bifrost_node.Staking.Candidate.Remove.Cases.{Removes}
use bifrost_node.Staking.Candidate.Remove.Removal.{rm_nomination_if_exists-Removes}
use bifrost_node.Staking.Candidate.Valid.{HasRoom, IsBacked}
use bifrost_node.Staking.Execution.{nominator_leaves_candidate}
use bifrost_node.Staking.Execution.Frame.{rm_nomination_if_exists-IsFramed}

module _ {L : Type 0} (c : Config L) where
  Removes-ok :
      (k o amount : ℕ) (top bottom : Nominations)
      (r : Result (Bool × CandidateMetadata × Storage L))
      → Removes c k o amount top bottom r
      → (flag : Bool) × (m : CandidateMetadata) × (s : Storage L) × (r ≡ ok (flag, m, s))
        × Removes c k o amount top bottom (ok (flag, m, s))
  Removes-ok k o amount top bottom (ok (flag, m, s)) h = (flag, m, s, refl, h)
  Removes-ok k o amount top bottom (err e) h = elim h [ ]

  nominator_leaves_candidate-eq :
      (k o amount : ℕ) (m m' : CandidateMetadata) (s s₁ : Storage L) (flag : Bool)
      → s.candidate_info k ≡ some m
      → rm_nomination_if_exists c k o amount m s ≡ ok (flag, m', s₁)
      → (s' : Storage L) × (nominator_leaves_candidate c k o amount s ≡ ok s')
        × (s'.candidate_info ≡ update s₁.candidate_info k (some m'))
        × (s'.top_nominations ≡ s₁.top_nominations)
        × (s'.bottom_nominations ≡ s₁.bottom_nominations)
        × (s'.total ≡ sat_sub s₁.total amount)
        × (s'.ledger ≡ c.unreserve o amount s₁.ledger)
  unfolding nominator_leaves_candidate
  nominator_leaves_candidate-eq k o amount m m' s s₁ flag i h =
      rw (i, h) (_, refl, refl, refl, refl, refl, refl)

  -- What is left when the nominator has gone with its amount.
  pub record HasLeft (k o amount : ℕ) (top bottom : Nominations) (s s' : Storage L) : Type 0 where
    pub m : CandidateMetadata
    pub top' : Nominations
    pub bottom' : Nominations
    pub info : s'.candidate_info k ≡ some m
    pub back : IsBacked c k m s' top' bottom'
    pub gone : holds o top'.nominations + holds o bottom'.nominations ≡ 0
    pub less :
        sum top'.nominations + sum bottom'.nominations + amount
        ≡ sum top.nominations + sum bottom.nominations
    pub others :
        (p : ℕ)
        → (p == o) ≡ false
        → stake p top'.nominations + stake p bottom'.nominations
          ≡ stake p top.nominations + stake p bottom.nominations
    pub all_total : s'.total ≡ sat_sub s.total amount
    pub unreserved : s'.ledger ≡ c.unreserve o amount s.ledger

module _ {L : Type 0} (c : Config L) (room : HasRoom c) where
  -- A nominator leaves a valid candidate in whose lists it has the amount: the call succeeds, the
  -- lists lose exactly that nomination and stay valid, the total falls by the amount and the
  -- ledger unreserves it for the nominator.
  pub nominator_leaves_candidate-HasLeft :
      (k o amount : ℕ) (m : CandidateMetadata) (s : Storage L) (top bottom : Nominations)
      → s.candidate_info k ≡ some m
      → IsBacked c k m s top bottom
      → IsNominated o amount top bottom
      → (s' : Storage L) × (nominator_leaves_candidate c k o amount s ≡ ok s')
        × HasLeft c k o amount top bottom s s'
  nominator_leaves_candidate-HasLeft k o amount m s top bottom info back nom =
      let (flag, m', s₁, done, h) =
        Removes-ok c k o amount top bottom _
          (rm_nomination_if_exists-Removes c room k o amount m s top bottom back nom) in
      let frame = rm_nomination_if_exists-IsFramed c k o amount m m' s s₁ flag done in
      let (s', eq, w₀, w₁, w₂, w₃, w₄) =
        nominator_leaves_candidate-eq c k o amount m m' s s₁ flag info done in
      (
        s',
        eq,
        record {
          m = m';
          top' = h.0;
          bottom' = h.1;
          info = rw w₀ (ground arith);
          back = record {
            stored_top = rw w₁ h.2.stored_top;
            stored_bottom = rw w₂ h.2.stored_bottom;
            valid = h.2.valid;
          };
          gone = h.3;
          less = h.4;
          others = h.5;
          all_total = ground (arith, w₃, frame.1);
          unreserved = rw (w₄, frame.0) refl;
        },
      )
