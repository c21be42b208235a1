-- ===== src/Staking/Requests/Sums.antt =====
-- The stored totals of the pending requests against the requests themselves.
use bifrost_node.Prelude.{
  ℕ, ◌+◌, ◌<◌, ◌≡◌, inl, inr, none, some, Option-cases, [], ◌∷◌, Dict, get, insert, remove, arith,
  u128_mod, u32_mod,
}
use bifrost_node.Staking.Types.{NominationChange, NominationRequest, PendingNominationRequests}
use bifrost_node.Staking.Storage.{ok}
use bifrost_node.Staking.Requests.{remove_request, bond_less, revoke, cancel}

abbrev pub less_sum : Dict NominationRequest → ℕ
less_sum [] = 0
less_sum ((_, r) ∷ d) = r.amount + less_sum d

abbrev pub as_revocation : NominationChange → ℕ
as_revocation NominationChange.revoke = 1
as_revocation NominationChange.decrease = 0

abbrev pub revocations : Dict NominationRequest → ℕ
revocations [] = 0
revocations ((_, r) ∷ d) = as_revocation r.action + revocations d

-- The stored sum and count are those of the requests that are pending.
pub record IsConsistent (p : PendingNominationRequests) : Type 0 where
  pub less : p.less_total ≡ less_sum p.requests
  pub revoked : p.revocations_count ≡ revocations p.requests

sum-insert :
    (k : ℕ) (r : NominationRequest) (d : Dict NominationRequest)
    → get k d ≡ none
    → (less_sum (insert k r d) ≡ less_sum d + r.amount)
      × (revocations (insert k r d) ≡ revocations d + as_revocation r.action)
sum-insert k r [] h = omega arith
sum-insert k r (e ∷ d) h = ground (arith, sum-insert k r d)

sum-remove :
    (k : ℕ) (r : NominationRequest) (d : Dict NominationRequest)
    → get k d ≡ some r
    → (less_sum d ≡ less_sum (remove k d) + r.amount)
      × (revocations d ≡ revocations (remove k d) + as_revocation r.action)
sum-remove k r [] h = cc
sum-remove k r (e ∷ d) h = ground (arith, sum-remove k r d)

remove-insert :
    (k : ℕ) (r : NominationRequest) (d : Dict NominationRequest)
    → get k d ≡ none
    → remove k (insert k r d) ≡ d
remove-insert k r [] h = ground arith
remove-insert k r (e ∷ d) h = ground (arith, remove-insert k r d)

get-insert_self :
    (k : ℕ) (r : NominationRequest) (d : Dict NominationRequest) → get k (insert k r d) ≡ some r
get-insert_self k r [] = ground arith
get-insert_self k r (e ∷ d) = ground (arith, get-insert_self k r d)

-- Dropping a request, or finding none to drop, keeps the stored sum and count right.
pub remove_request-IsConsistent :
    (k : ℕ) (p : PendingNominationRequests) → IsConsistent p → IsConsistent (remove_request k p)
unfolding remove_request
remove_request-IsConsistent k p c = elim (Option-cases (get k p.requests)) [
  | inl e ↦ ground arith
  | inr (r, e) ↦ ground (arith, sum-remove k r p.requests)
]

-- A new decrease keeps them right as long as the sum stays below 2 ^ 128.
pub bond_less-IsConsistent :
    (k amount when : ℕ) (p q : PendingNominationRequests)
    → IsConsistent p
    → p.less_total + amount < u128_mod
    → bond_less k amount when p ≡ ok q
    → IsConsistent q
unfolding bond_less
bond_less-IsConsistent k amount when p q c b e = ground (
  arith,
  sum-insert k
      (record {
        validator = k;
        amount = amount;
        when_executable = when;
        action = NominationChange.decrease;
      })
      p.requests,
)

-- A new revocation keeps them right as long as the sum and the count do not overflow.
pub revoke-IsConsistent :
    (k amount when : ℕ) (p q : PendingNominationRequests)
    → IsConsistent p
    → p.less_total + amount < u128_mod
    → p.revocations_count + 1 < u32_mod
    → revoke k amount when p ≡ ok q
    → IsConsistent q
unfolding revoke
revoke-IsConsistent k amount when p q c b n e = ground (
  arith,
  sum-insert k
      (record {
        validator = k;
        amount = amount;
        when_executable = when;
        action = NominationChange.revoke;
      })
      p.requests,
)

-- Cancelling a request keeps the stored sum and count right.
pub cancel-IsConsistent :
    (k : ℕ) (p q : PendingNominationRequests) (r : NominationRequest)
    → IsConsistent p
    → cancel k p ≡ ok (r, q)
    → IsConsistent q
unfolding cancel
cancel-IsConsistent k p q r c e = ground (arith, sum-remove k r p.requests)

-- Cancelling a revocation that was just scheduled gives the requests back as they were, if
-- scheduling it overflowed neither the sum nor the count.
pub cancel-revoke :
    (k amount when : ℕ) (p q : PendingNominationRequests)
    → p.less_total + amount < u128_mod
    → p.revocations_count + 1 < u32_mod
    → revoke k amount when p ≡ ok q
    → cancel k q
      ≡ ok (
        record {
          validator = k;
          amount = amount;
          when_executable = when;
          action = NominationChange.revoke;
        },
        p,
      )
unfolding revoke cancel
cancel-revoke k amount when p q b n e =
    let r : NominationRequest = record {
      validator = k;
      amount = amount;
      when_executable = when;
      action = NominationChange.revoke;
    } in
    ground (arith, get-insert_self k r p.requests, remove-insert k r p.requests)
