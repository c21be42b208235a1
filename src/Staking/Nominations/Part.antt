-- ===== src/Staking/Nominations/Part.antt =====
-- What is left of a list of bonds when some are taken out.
use bifrost_node.Prelude.{
  ℕ, ◌+◌, ◌≤◌, ◌≡◌, List, [], ◌∷◌, arith, some, length, last?, first?, but_last, tail, sat_sub,
}
use bifrost_node.Staking.Nominations.{Bond, Nominations, amount_or_zero}
use bifrost_node.Staking.Nominations.Order.{IsSorted, IsBelow-IsSorted, sum, but_last-IsSorted}
use bifrost_node.Staking.Nominations.Bounds.{highest-but_last-le, highest-tail-le, last?-parts}
use bifrost_node.Staking.Nominations.Owners.{holds, holds-but_last, holds-tail}

-- A list that is left when at most some bonds of another are taken out.
pub record IsPart (part whole : Nominations) : Type 0 where
  pub sorted : IsSorted part.nominations
  pub covered : sum part.nominations ≤ part.total
  pub shorter : length part.nominations ≤ length whole.nominations
  pub less : sum part.nominations ≤ sum whole.nominations
  pub lower : amount_or_zero (first? part.nominations) ≤ amount_or_zero (first? whole.nominations)
  pub owned : (o : ℕ) → holds o part.nominations ≤ holds o whole.nominations

pub whole-IsPart :
    (n : Nominations) → IsSorted n.nominations → sum n.nominations ≤ n.total → IsPart n n
whole-IsPart n s t = record {
  sorted = s;
  covered = t;
  shorter = omega arith;
  less = omega arith;
  lower = omega arith;
  owned = λ o. omega arith;
}

abbrev pub without_last : Nominations → Bond → Nominations
without_last n l = record { nominations = but_last n.nominations; total = sat_sub n.total l.amount }

pub but_last-IsPart :
    (n : Nominations) (l : Bond)
    → IsSorted n.nominations
    → sum n.nominations ≤ n.total
    → last? n.nominations ≡ some l
    → IsPart (without_last n l) n
but_last-IsPart n l s t e = record {
  sorted = but_last-IsSorted n.nominations s;
  covered = omega (arith, last?-parts n.nominations l e);
  shorter = omega (arith, last?-parts n.nominations l e);
  less = omega (arith, last?-parts n.nominations l e);
  lower = highest-but_last-le n.nominations;
  owned = λ o. omega (arith, holds-but_last o n.nominations l e);
}

abbrev pub without_first : Nominations → Bond → Nominations
without_first n h = record { nominations = tail n.nominations; total = sat_sub n.total h.amount }

-- The bond that `remove(0)` takes.
pub first?-parts :
    (xs : List Bond) (h : Bond)
    → first? xs ≡ some h
    → (sum (tail xs) + h.amount ≡ sum xs) × (length (tail xs) + 1 ≡ length xs)
first?-parts [] h e = cc
first?-parts (x ∷ xs) h e = ground arith

tail-IsSorted : (xs : List Bond) → IsSorted xs → IsSorted (tail xs)
tail-IsSorted [] s = tt
tail-IsSorted (x ∷ xs) s = IsBelow-IsSorted x.amount xs s

pub tail-IsPart :
    (n : Nominations) (h : Bond)
    → IsSorted n.nominations
    → sum n.nominations ≤ n.total
    → first? n.nominations ≡ some h
    → IsPart (without_first n h) n
tail-IsPart n h s t e = record {
  sorted = tail-IsSorted n.nominations s;
  covered = omega (arith, first?-parts n.nominations h e);
  shorter = omega (arith, first?-parts n.nominations h e);
  less = omega (arith, first?-parts n.nominations h e);
  lower = highest-tail-le n.nominations s;
  owned = λ o. omega (arith, holds-tail o n.nominations h e);
}
