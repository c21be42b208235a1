-- ===== src/Staking/Candidate/Selection.antt =====
-- The filter that takes a nominator's bond out of a list, and the map that changes its amount.
use bifrost_node.Prelude.{
  ℕ, ◌+◌, ◌≤◌, ◌≡◌, refl, true, false, none, some, Option-cases, inl, inr, List, [], ◌∷◌, arith,
  length,
}
use bifrost_node.Staking.Nominations.{Bond, Nominations}
use bifrost_node.Staking.Nominations.Order.{IsBelow, IsBelow-mono, IsSorted, IsBelow-IsSorted, sum}
use bifrost_node.Staking.Nominations.Bounds.{IsAbove, IsAbove-zero, highest-le, IsSorted-highest}
use bifrost_node.Staking.Nominations.Part.{IsPart}
use bifrost_node.Staking.Nominations.Ceiling.{IsUnder}
use bifrost_node.Staking.Nominations.Owners.{owns, holds}
use bifrost_node.Staking.Candidate.Metadata.{without, left, last_of, change_amount, occurs}

pub without-IsBelow : (o n : ℕ) (xs : List Bond) → IsBelow n xs → IsBelow n (without o xs)
unfolding without
without-IsBelow o n [] s = tt
without-IsBelow o n (x ∷ xs) s = ground (
  arith,
  without-IsBelow o x.amount xs s.1,
  without-IsBelow o n xs (IsBelow-mono x.amount n xs s.0 s.1),
)

pub without-IsSorted : (o : ℕ) (xs : List Bond) → IsSorted xs → IsSorted (without o xs)
unfolding without
without-IsSorted o [] s = tt
without-IsSorted o (x ∷ xs) s =
    ground (arith, without-IsBelow o x.amount xs s, IsBelow-IsSorted x.amount (without o xs))

pub without-IsAbove : (o n : ℕ) (xs : List Bond) → IsAbove n xs → IsAbove n (without o xs)
unfolding without
without-IsAbove o n [] a = tt
without-IsAbove o n (x ∷ xs) a = ground (arith, without-IsAbove o n xs a.1)

pub holds-without : (o p : ℕ) (xs : List Bond) → holds p (without o xs) ≤ holds p xs
unfolding without
holds-without o p [] = omega arith
holds-without o p (x ∷ xs) = ground (arith, holds-without o p xs)

pub holds-without_self : (o : ℕ) (xs : List Bond) → holds o (without o xs) ≡ 0
unfolding without
holds-without_self o [] = refl
holds-without_self o (x ∷ xs) = ground (arith, holds-without_self o xs)

pub without_absent :
    (o : ℕ) (xs : List Bond)
    → holds o xs ≡ 0
    → (sum (without o xs) ≡ sum xs) × (length (without o xs) ≡ length xs) × (last_of o xs ≡ none)
unfolding without last_of
without_absent o [] h = (refl, refl, refl)
without_absent o (x ∷ xs) h = ground (arith, without_absent o xs)

-- A nominator that owns one bond of the list: the filter drops that one.
pub without-last_of :
    (o n : ℕ) (xs : List Bond) (b : Bond)
    → holds o xs ≤ 1
    → IsAbove n xs
    → last_of o xs ≡ some b
    → (sum (without o xs) + b.amount ≡ sum xs)
      × (length (without o xs) + 1 ≡ length xs)
      × (b.owner ≡ o)
      × (n ≤ b.amount)
      × (holds o xs ≡ 1)
unfolding without last_of
without-last_of o n [] b u a e = cc
without-last_of o n (x ∷ xs) b u a e =
    ground (arith, without_absent o xs, without-last_of o n xs b (omega arith) a.1)

pub occurs_absent : (o : ℕ) (xs : List Bond) → last_of o xs ≡ none → occurs o xs ≡ false
unfolding occurs last_of
occurs_absent o [] e = refl
occurs_absent o (x ∷ xs) e = ground (arith, occurs_absent o xs)

pub length-change_amount :
    (o : ℕ) (f : ℕ → ℕ) (xs : List Bond) → length (change_amount o f xs) ≡ length xs
unfolding change_amount
length-change_amount o f [] = refl
length-change_amount o f (x ∷ xs) = omega (arith, length-change_amount o f xs)

pub holds-change_amount :
    (p o : ℕ) (f : ℕ → ℕ) (xs : List Bond) → holds p (change_amount o f xs) ≡ holds p xs
unfolding change_amount
holds-change_amount p o f [] = refl
holds-change_amount p o f (x ∷ xs) = ground (arith, holds-change_amount p o f xs)

pub change_amount_absent :
    (o : ℕ) (f : ℕ → ℕ) (xs : List Bond) → holds o xs ≡ 0 → change_amount o f xs ≡ xs
unfolding change_amount
change_amount_absent o f [] h = refl
change_amount_absent o f (x ∷ xs) h = ground (arith, change_amount_absent o f xs)

-- The sum moves with the one amount that changes.
pub sum-change_amount :
    (o : ℕ) (f : ℕ → ℕ) (xs : List Bond) (b : Bond)
    → holds o xs ≤ 1
    → last_of o xs ≡ some b
    → sum (change_amount o f xs) + b.amount ≡ sum xs + f b.amount
unfolding change_amount last_of
sum-change_amount o f [] b u e = cc
sum-change_amount o f (x ∷ xs) b u e = ground (
  arith,
  without_absent o xs,
  change_amount_absent o f xs,
  sum-change_amount o f xs b (omega arith),
)

pub change_amount-IsAbove :
    (o n : ℕ) (f : ℕ → ℕ) (xs : List Bond) (b : Bond)
    → holds o xs ≤ 1
    → last_of o xs ≡ some b
    → IsAbove n xs
    → n ≤ f b.amount
    → IsAbove n (change_amount o f xs)
unfolding change_amount last_of
change_amount-IsAbove o n f [] b u e a h = tt
change_amount-IsAbove o n f (x ∷ xs) b u e a h = ground (
  arith,
  without_absent o xs,
  change_amount_absent o f xs,
  change_amount-IsAbove o n f xs b (omega arith),
)

-- What a removal leaves is a part of the list.
pub without-IsPart :
    (o : ℕ) (n : Nominations) (b : Bond)
    → IsSorted n.nominations
    → sum n.nominations ≤ n.total
    → holds o n.nominations ≤ 1
    → last_of o n.nominations ≡ some b
    → IsPart (left o b.amount n) n
without-IsPart o n b s t u e =
    let parts = without-last_of o 0 n.nominations b u (IsAbove-zero n.nominations) e in
    record {
      sorted = without-IsSorted o n.nominations s;
      covered = omega (arith, parts.0);
      shorter = omega (arith, parts.1);
      less = omega (arith, parts.0);
      lower =
          highest-le _ (without o n.nominations)
            (without-IsBelow o _ n.nominations (IsSorted-highest n.nominations s));
      owned = λ p. holds-without o p n.nominations;
    }

pub last_of-le :
    (o n : ℕ) (xs : List Bond) (b : Bond) → IsBelow n xs → last_of o xs ≡ some b → b.amount ≤ n
unfolding last_of
last_of-le o n [] b s e = cc
last_of-le o n (x ∷ xs) b s e = ground (arith, last_of-le o x.amount xs b s.1)

pub change_amount-IsUnder :
    (o n : ℕ) (f : ℕ → ℕ) (xs : List Bond) (b : Bond)
    → holds o xs ≤ 1
    → last_of o xs ≡ some b
    → IsUnder n xs
    → f b.amount ≤ n
    → IsUnder n (change_amount o f xs)
unfolding change_amount last_of
change_amount-IsUnder o n f [] b u e a h = tt
change_amount-IsUnder o n f (x ∷ xs) b u e a h = ground (
  arith,
  without_absent o xs,
  change_amount_absent o f xs,
  change_amount-IsUnder o n f xs b (omega arith),
)

pub last_of-occurs :
    (o : ℕ) (xs : List Bond) (b : Bond) → last_of o xs ≡ some b → occurs o xs ≡ true
unfolding occurs last_of
last_of-occurs o [] b e = cc
last_of-occurs o (x ∷ xs) b e = elim (Option-cases (last_of o xs)) [
  | inl h ↦ ground (arith, h)
  | inr (b', h) ↦ ground (arith, h, last_of-occurs o xs b' h)
]

holds-without_absent :
    (q o : ℕ) (xs : List Bond) → holds o xs ≡ 0 → holds q (without o xs) ≡ holds q xs
unfolding without
holds-without_absent q o [] h = refl
holds-without_absent q o (x ∷ xs) h = ground (arith, holds-without_absent q o xs)

pub holds-without-last_of :
    (q o : ℕ) (xs : List Bond) (b : Bond)
    → holds o xs ≤ 1
    → last_of o xs ≡ some b
    → holds q (without o xs) + owns q b ≡ holds q xs
unfolding without last_of
holds-without-last_of q o [] b u e = cc
holds-without-last_of q o (x ∷ xs) b u e = ground (
  arith,
  without_absent o xs,
  holds-without_absent q o xs,
  holds-without-last_of q o xs b (omega arith),
)
