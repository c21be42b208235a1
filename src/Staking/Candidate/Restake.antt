-- ===== src/Staking/Candidate/Restake.antt =====
-- Each account's stake under the filter and the map on a nominator's bond.
use bifrost_node.Prelude.{ℕ, ◌+◌, ◌≤◌, ◌≡◌, refl, some, List, [], ◌∷◌, arith}
use bifrost_node.Staking.Nominations.{Bond}
use bifrost_node.Staking.Nominations.Owners.{holds}
use bifrost_node.Staking.Nominations.Stakes.{staked, stake}
use bifrost_node.Staking.Candidate.Metadata.{without, last_of, change_amount}
use bifrost_node.Staking.Candidate.Selection.{without_absent, change_amount_absent}

stake-without_absent :
    (p o : ℕ) (xs : List Bond) → holds o xs ≡ 0 → stake p (without o xs) ≡ stake p xs
unfolding without
stake-without_absent p o [] h = refl
stake-without_absent p o (x ∷ xs) h = ground (arith, stake-without_absent p o xs)

pub stake-without :
    (p o : ℕ) (xs : List Bond) (b : Bond)
    → holds o xs ≤ 1
    → last_of o xs ≡ some b
    → stake p (without o xs) + staked p b ≡ stake p xs
unfolding without last_of
stake-without p o [] b u e = cc
stake-without p o (x ∷ xs) b u e =
    ground (
      arith,
      without_absent o xs,
      stake-without_absent p o xs,
      stake-without p o xs b (omega arith),
    )

pub stake-change_amount :
    (p o : ℕ) (f : ℕ → ℕ) (xs : List Bond) (b : Bond)
    → holds o xs ≤ 1
    → last_of o xs ≡ some b
    → stake p (change_amount o f xs) + staked p b
      ≡ stake p xs + staked p (record b { amount = f b.amount })
unfolding change_amount last_of
stake-change_amount p o f [] b u e = cc
stake-change_amount p o f (x ∷ xs) b u e = ground (
  arith,
  without_absent o xs,
  change_amount_absent o f xs,
  stake-change_amount p o f xs b (omega arith),
)

pub stake_absent : (o : ℕ) (xs : List Bond) → holds o xs ≡ 0 → stake o xs ≡ 0
stake_absent o [] h = refl
stake_absent o (x ∷ xs) h = ground (arith, stake_absent o xs)

pub stake-last_of :
    (o : ℕ) (xs : List Bond) (b : Bond)
    → holds o xs ≤ 1
    → last_of o xs ≡ some b
    → stake o xs ≡ b.amount
unfolding last_of
stake-last_of o [] b u e = cc
stake-last_of o (x ∷ xs) b u e =
    ground (arith, without_absent o xs, stake_absent o xs, stake-last_of o xs b (omega arith))
