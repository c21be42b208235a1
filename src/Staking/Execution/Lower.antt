-- ===== src/Staking/Execution/Lower.antt =====
-- `Nominator::execute_pending_request` on a scheduled decrease, through the nominator, its
-- candidate and the ledger.
use bifrost_node.Prelude.{
  ℕ, ◌+◌, ◌-◌, ◌≤◌, ◌<◌, ◌≡◌, refl, ◌∙◌, Bool, true, some, get, get-insert, arith, sat_sub, ltb,
  leb,
}
use bifrost_node.Staking.Types.{CandidateMetadata, Nominator, NominationRequest, NominationChange}
use bifrost_node.Staking.Storage.{Config, Storage, ok, ◌>>=◌, now}
use bifrost_node.Staking.Candidate.Restaked.{Restakes-ok}
use bifrost_node.Staking.Candidate.Valid.{HasRoom, IsBacked}
use bifrost_node.Staking.Candidate.Decrease.{decrease_nomination}
use bifrost_node.Staking.Candidate.Decrease.Lowering.{decrease_nomination-Restakes}
use bifrost_node.Staking.Execution.{
  with_amount, put_changed, without_request, execute_decrease, execute_pending_request,
}
use bifrost_node.Staking.Execution.Frame.{decrease_nomination-IsFramed}
use bifrost_node.Staking.Execution.Agreement.{IsServed, IsSettled, WritesBack, settle}

-- The nominator after the decrease.
abbrev lowered_nominator : ℕ → ℕ → NominationRequest → Nominator → Nominator
lowered_nominator k before r n =
    with_amount k (sat_sub before r.amount) (sat_sub n.total r.amount) (without_request k r n)

decrease_branch {ℓ} :
    {X : Type ℓ} (a : NominationChange) (x y : X)
    → a ≡ NominationChange.decrease
    → (elim a [ NominationChange.revoke ↦ x | NominationChange.decrease ↦ y ]) ≡ y
decrease_branch a x y e = rw e refl

module _ {L : Type 0} (c : Config L) where
  execute_pending_request-decrease :
      (k : ℕ) (r : NominationRequest) (n : Nominator) (s : Storage L)
      → get k n.requests.requests ≡ some r
      → r.action ≡ NominationChange.decrease
      → r.when_executable ≤ now s
      → execute_pending_request c k n s ≡ execute_decrease c k r n s
  unfolding execute_pending_request
  execute_pending_request-decrease k r n s e a due =
      let test : leb r.when_executable (now s) ≡ true = ground arith in
      rw (e, ◌>>=◌, test) (decrease_branch r.action _ _ a)

  execute_decrease-eq :
      (k before : ℕ) (r : NominationRequest) (n : Nominator) (m m' : CandidateMetadata)
      (s s₁ : Storage L) (in_top : Bool)
      → get k n.nominations ≡ some before
      → ltb r.amount before ≡ true
      → leb c.min_nomination (sat_sub n.total r.amount) ≡ true
      → leb c.min_nominator_stk (sat_sub n.total r.amount) ≡ true
      → s.candidate_info k ≡ some m
      → decrease_nomination c k n.id before r.amount m
          (record s { ledger = c.unreserve n.id r.amount s.ledger })
        ≡ ok (in_top, m', s₁)
      → (s' : Storage L) × (execute_decrease c k r n s ≡ ok (lowered_nominator k before r n, s'))
        × WritesBack c k m' (lowered_nominator k before r n) (sat_sub s₁.total r.amount) s₁ s'
  unfolding execute_decrease put_changed
  execute_decrease-eq k before r n m m' s s₁ in_top e a b d i h =
      rw (e, a, b, d, i, h) (_, refl, (refl, refl, refl, refl, refl, refl))

module _ {L : Type 0} (c : Config L) (room : HasRoom c) where
  -- A decrease that is due, leaves some of the nomination and keeps the nominator's total at the
  -- minima succeeds: the candidate is valid, its lists and the nominator's own record name the
  -- lowered amount, and the nominator's total, the pallet's and the ledger are as they should be.
  pub execute_pending_request-IsSettled :
      (k before : ℕ) (r : NominationRequest) (n : Nominator) (s : Storage L)
      → (v : IsServed c k before n s) → get k n.requests.requests ≡ some r
      → r.action ≡ NominationChange.decrease
      → r.when_executable ≤ now s
      → r.amount < before
      → c.min_nomination + r.amount ≤ n.total
      → c.min_nominator_stk + r.amount ≤ n.total
      → (n' : Nominator) × (s' : Storage L) × (execute_pending_request c k n s ≡ ok (n', s'))
        × IsSettled c k
            (before - r.amount)
            (n.total - r.amount)
            (sat_sub s.total r.amount)
            (c.unreserve n.id r.amount s.ledger)
            n'
            s'
  execute_pending_request-IsSettled k before r n s v e a due some_left min₁ min₂ =
      let t : Storage L = record s { ledger = c.unreserve n.id r.amount s.ledger } in
      let back : IsBacked c k v.m t v.top v.bottom = record {
        stored_top = v.back.stored_top;
        stored_bottom = v.back.stored_bottom;
        valid = v.back.valid;
      } in
      let (in_top, m', s₁, done, h) = Restakes-ok c k n.id (before - r.amount) v.top v.bottom _ (
        decrease_nomination-Restakes c room k n.id before r.amount v.m t v.top v.bottom back
          v.nominated (omega arith)) in
      let frame = decrease_nomination-IsFramed c k n.id before r.amount v.m m' t s₁ in_top done in
      let (s', eq, w) =
        execute_decrease-eq c k before r n v.m m' s s₁ in_top v.noted (ground arith) (ground arith)
          (ground arith) v.info done in
      let n' = lowered_nominator k before r n in
      let settled =
        settle c k n.id before (before - r.amount) v.m m' n' (sat_sub s₁.total r.amount) s₁ s' v.top
          v.bottom in_top v.back.valid v.nominated h w refl
          (get-insert k k (sat_sub before r.amount) n.nominations ∙ (ground arith)) in
      (
        n',
        s',
        execute_pending_request-decrease c k r n s e a due ∙ eq,
        record {
          served = settled.served;
          stored = settled.stored;
          own_total = ground arith;
          all_total = ground (arith, settled.all_total, frame.1);
          reserved = settled.reserved ∙ frame.0;
        },
      )
