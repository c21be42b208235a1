-- ===== src/Staking/Execution/Raise.antt =====
-- `Nominator::increase_nomination`, through the nominator, its candidate and the ledger.
use bifrost_node.Prelude.{
  ℕ, ◌+◌, ◌<◌, ◌≡◌, refl, ◌∙◌, Bool, some, get, get-insert, arith, sat_add, add128, u128_mod,
}
use bifrost_node.Staking.Nominations.Order.{sum}
use bifrost_node.Staking.Types.{CandidateMetadata, Nominator}
use bifrost_node.Staking.Storage.{Config, Storage, ok, update_active}
use bifrost_node.Staking.Candidate.Restaked.{Restakes-ok}
use bifrost_node.Staking.Candidate.Valid.{HasRoom, IsBacked}
use bifrost_node.Staking.Candidate.Increase
use bifrost_node.Staking.Candidate.Increase.Raising.{increase_nomination-Restakes}
use bifrost_node.Staking.Execution.{increase_nomination, with_amount, put_changed}
use bifrost_node.Staking.Execution.Frame.{increase_nomination-IsFramed}
use bifrost_node.Staking.Execution.Agreement.{IsServed, IsSettled, WritesBack, settle, amount-le}

module _ {L : Type 0} (c : Config L) where
  increase_nomination-eq :
      (k before more : ℕ) (n : Nominator) (m m' : CandidateMetadata) (l : L) (s s₁ : Storage L)
      (in_top : Bool)
      → get k n.nominations ≡ some before
      → s.candidate_info k ≡ some m
      → c.reserve n.id more s.ledger ≡ some l
      → Increase.increase_nomination c k n.id before more m (record s { ledger = l })
        ≡ ok (in_top, m', s₁)
      → let n' = with_amount k (add128 before more) (add128 n.total more) n in
        (s' : Storage L) × (increase_nomination c k more n s ≡ ok (n', s'))
        × WritesBack c k m' n' (sat_add s₁.total more) s₁ s'
  unfolding increase_nomination put_changed update_active
  increase_nomination-eq k before more n m m' l s s₁ in_top e i r h =
      rw (e, i, r, h) (_, refl, (refl, refl, refl, refl, refl, refl))

module _ {L : Type 0} (c : Config L) (room : HasRoom c) where
  -- If the ledger reserves the amount and 128 bits hold what the candidate and the nominator have
  -- with it, the call succeeds: the candidate is valid, its lists and the nominator's own record
  -- name the raised amount, and the nominator's total, the pallet's and the ledger are as they
  -- should be.
  pub increase_nomination-IsSettled :
      (k before more : ℕ) (n : Nominator) (l : L) (s : Storage L)
      → (v : IsServed c k before n s) → c.reserve n.id more s.ledger ≡ some l
      → v.m.bond + sum v.top.nominations + sum v.bottom.nominations + more < u128_mod
      → n.total + more < u128_mod
      → (n' : Nominator) × (s' : Storage L) × (increase_nomination c k more n s ≡ ok (n', s'))
        × IsSettled c k (before + more) (n.total + more) (sat_add s.total more) l n' s'
  increase_nomination-IsSettled k before more n l s v r fits own =
      let back : IsBacked c k v.m (record s { ledger = l }) v.top v.bottom = record {
        stored_top = v.back.stored_top;
        stored_bottom = v.back.stored_bottom;
        valid = v.back.valid;
      } in
      let (in_top, m', s₁, done, h) = Restakes-ok c k n.id (before + more) v.top v.bottom _ (
        increase_nomination-Restakes c room k n.id before more v.m (record s { ledger = l }) v.top
          v.bottom back v.nominated fits) in
      let frame =
        increase_nomination-IsFramed c k n.id before more v.m m' (record s { ledger = l }) s₁ in_top
          done in
      let (s', e, w) =
        increase_nomination-eq c k before more n v.m m' l s s₁ in_top v.noted v.info r done in
      let low = amount-le c n.id before v.m v.top v.bottom v.back.valid v.nominated in
      let n' = with_amount k (add128 before more) (add128 n.total more) n in
      let settled =
        settle c k n.id before (before + more) v.m m' n' (sat_add s₁.total more) s₁ s' v.top
          v.bottom in_top v.back.valid v.nominated h w refl
          (get-insert k k (add128 before more) n.nominations ∙ (ground arith)) in
      (
        n',
        s',
        e,
        record {
          served = settled.served;
          stored = settled.stored;
          own_total = ground arith;
          all_total = ground (arith, settled.all_total, frame.1);
          reserved = settled.reserved ∙ frame.0;
        },
      )
