-- ===== src/Staking/Election/Elected.antt =====
-- Who is elected by `compute_top_candidates`.
use mathlib.Core.Path.{subst}
use bifrost_node.Prelude.{
  ℕ, ◌≡◌, sym, Bool, ◌&&◌, List, ◌++◌, map, leb, take, drop, length, length-perm, min, retain,
  sort_by, sort_by-perm, Permᴰ, arith,
}
use bifrost_node.Staking.Nominations.{Bond}
use bifrost_node.Staking.Storage.{Config, Storage}
use bifrost_node.Staking.Election.{
  Seats, candidates, by_amount, get_sorted_candidates, get_top_n_candidates, is_full_candidate,
  is_basic_candidate, compute_top_candidates,
}
use bifrost_node.Staking.Election.Ranking.{
  Outranks, sort_by-Falls, retain-Falls, take-Outranks, take-drop, length-take, retain-perm,
  retain-retain,
}

-- `ids` are those of a part of `eligible`, whatever the order: as large as the seats allow, and
-- with no one left out who has more voting power than one of them.
pub record IsElected (eligible : List Bond) (seats : ℕ) (ids : List ℕ) : Type 0 where
  pub chosen : List Bond
  pub others : List Bond
  pub named : Permᴰ ids (map (λ b. b.owner) chosen)
  pub parts : Permᴰ (chosen ++ others) eligible
  pub outranked : Outranks chosen others
  pub filled : length chosen ≡ min seats (length eligible)

-- The candidates that may be elected to the seats of a list.
abbrev pub eligible : (Bond → Bool) → ℕ → List Bond → List Bond
eligible p min_stake bonds = retain (λ b. p b && leb min_stake b.amount) bonds

top_n-IsElected :
    (p : Bond → Bool) (bonds : List Bond) (seats min_stake : ℕ)
    → IsElected
        (eligible p min_stake bonds)
        seats
        (get_top_n_candidates (retain p (sort_by by_amount bonds)) seats min_stake)
unfolding get_top_n_candidates
top_n-IsElected p bonds seats min_stake =
    let ranked = retain (λ b. leb min_stake b.amount) (retain p (sort_by by_amount bonds)) in
    let same : Permᴰ ranked (eligible p min_stake bonds) =
      subst (λ l. Permᴰ l (eligible p min_stake bonds))
        (sym (retain-retain p (λ b. leb min_stake b.amount) (sort_by by_amount bonds)))
        (retain-perm (λ b. p b && leb min_stake b.amount) (sort_by-perm by_amount bonds)) in
    record {
      chosen = take seats ranked;
      others = drop seats ranked;
      named = sort_by-perm leb (map (λ b. b.owner) (take seats ranked));
      parts = subst (λ l. Permᴰ l (eligible p min_stake bonds)) (sym (take-drop seats ranked)) same;
      outranked = take-Outranks seats ranked (
          retain-Falls (λ b. leb min_stake b.amount) (retain p (sort_by by_amount bonds))
            (retain-Falls p (sort_by by_amount bonds) (sort_by-Falls bonds)));
      filled = omega (arith, length-take seats ranked, length-perm same);
    }

-- Each tier elects, of its candidates in the pool with the self-bond and the voting power that it
-- asks for, as many as it has seats for, or all if there are fewer, and nobody left out has more
-- voting power than one elected.
pub compute_top_candidates-IsElected :
    {L : Type 0} (c : Config L) (s : Storage L) (seats : Seats)
    → IsElected
        (eligible
          (is_full_candidate c s)
          seats.min_full_validator_stk
          (candidates s.candidate_pool))
        seats.max_full_selected
        (compute_top_candidates c s seats).0
      × IsElected
          (eligible
            (is_basic_candidate c s)
            seats.min_basic_validator_stk
            (candidates s.candidate_pool))
          seats.max_basic_selected
          (compute_top_candidates c s seats).1
unfolding compute_top_candidates get_sorted_candidates
compute_top_candidates-IsElected c s seats = (
  top_n-IsElected (is_full_candidate c s) (candidates s.candidate_pool) seats.max_full_selected
      seats.min_full_validator_stk,
  top_n-IsElected (is_basic_candidate c s) (candidates s.candidate_pool) seats.max_basic_selected
      seats.min_basic_validator_stk,
)
