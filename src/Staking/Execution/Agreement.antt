-- ===== src/Staking/Execution/Agreement.antt =====
-- A nominator's own record against the lists of its candidate, when the methods of `Nominator`
-- change both.
use bifrost_node.Prelude.{update, ℕ, ◌+◌, ◌≤◌, ◌≡◌, refl, ◌∙◌, inl, inr, Bool, some, get, arith}
use bifrost_node.Staking.Nominations.{Nominations}
use bifrost_node.Staking.Nominations.Order.{sum}
use bifrost_node.Staking.Nominations.Bounds.{IsAbove-zero}
use bifrost_node.Staking.Types.{CandidateMetadata, Nominator}
use bifrost_node.Staking.Storage.{Config, Storage, ok}
use bifrost_node.Staking.Candidate.Place.{IsNominated, stake-IsNominated, IsNominated-holds}
use bifrost_node.Staking.Candidate.Selection.{without-last_of}
use bifrost_node.Staking.Candidate.Restaked.{Restakes}
use bifrost_node.Staking.Candidate.Valid.{IsValid, IsBacked}

module _ {L : Type 0} (c : Config L) where
  -- The storage holds a valid candidate, and its lists and the nominator name the same amount.
  pub record IsServed (k amount : ℕ) (n : Nominator) (s : Storage L) : Type 0 where
    pub m : CandidateMetadata
    pub top : Nominations
    pub bottom : Nominations
    pub info : s.candidate_info k ≡ some m
    pub back : IsBacked c k m s top bottom
    pub noted : get k n.nominations ≡ some amount
    pub nominated : IsNominated n.id amount top bottom

  -- The nominator is stored with a new total, the pallet and the ledger have theirs.
  pub record IsSettled (k amount own all : ℕ) (ledger : L) (n : Nominator) (s : Storage L)
      : Type 0 where
    pub served : IsServed k amount n s
    pub stored : s.nominator_state n.id ≡ some n
    pub own_total : n.total ≡ own
    pub all_total : s.total ≡ all
    pub reserved : s.ledger ≡ ledger

  -- The lists after a change still have the nominator, at its new stake.
  pub Restakes-IsNominated :
      (k o before amount : ℕ) (m m' : CandidateMetadata) (s' : Storage L) (top bottom : Nominations)
      (in_top : Bool)
      → IsValid c m top bottom
      → IsNominated o before top bottom
      → (h : Restakes c k o amount top bottom (ok (in_top, m', s'))) → IsNominated o amount h.0 h.1
  Restakes-IsNominated k o before amount m m' s' top bottom in_top v nom
        (top', bottom', back, changed, same) =
      rw (← changed.own)
        (stake-IsNominated o top' bottom' (same ∙ IsNominated-holds c o before m top bottom v nom))

  pub amount-le :
      (o amount : ℕ) (m : CandidateMetadata) (top bottom : Nominations)
      → IsValid c m top bottom
      → IsNominated o amount top bottom
      → amount ≤ sum top.nominations + sum bottom.nominations
  amount-le o amount m top bottom v (inl (b, e, q)) = omega (
    arith,
    q,
    without-last_of o 0 top.nominations b (omega (arith, v.unique o)) (IsAbove-zero _) e,
  )
  amount-le o amount m top bottom v (inr (b, e, q)) = omega (
    arith,
    q,
    without-last_of o 0 bottom.nominations b (omega (arith, v.unique o)) (IsAbove-zero _) e,
  )

  -- What a call writes behind the one on the candidate.
  abbrev pub WritesBack : ℕ → CandidateMetadata → Nominator → ℕ → Storage L → Storage L → Type 0
  WritesBack k m n total s s' =
      (s'.candidate_info ≡ update s.candidate_info k (some m))
      × (s'.nominator_state ≡ update s.nominator_state n.id (some n))
      × (s'.top_nominations ≡ s.top_nominations)
      × (s'.bottom_nominations ≡ s.bottom_nominations)
      × (s'.total ≡ total)
      × (s'.ledger ≡ s.ledger)

  pub settle :
      (k o before amount : ℕ) (m m' : CandidateMetadata) (n : Nominator) (total : ℕ)
      (s₁ s' : Storage L) (top bottom : Nominations) (in_top : Bool)
      → IsValid c m top bottom
      → IsNominated o before top bottom
      → Restakes c k o amount top bottom (ok (in_top, m', s₁))
      → WritesBack k m' n total s₁ s'
      → n.id ≡ o
      → get k n.nominations ≡ some amount
      → IsSettled k amount n.total total s₁.ledger n s'
  settle k o before amount m m' n total s₁ s' top bottom in_top v nom h w same noted = record {
    served = record {
      m = m';
      top = h.0;
      bottom = h.1;
      info = rw w.0 (ground arith);
      back = record {
        stored_top = rw w.2 h.2.stored_top;
        stored_bottom = rw w.3 h.2.stored_bottom;
        valid = h.2.valid;
      };
      noted = noted;
      nominated =
          rw same (Restakes-IsNominated k o before amount m m' s₁ top bottom in_top v nom h);
    };
    stored = rw w.1 (ground arith);
    own_total = refl;
    all_total = w.4;
    reserved = w.5;
  }
