-- ===== src/Blaze/Coins/Search.antt =====
-- A rule for the calls of `dfs`: what every test of a call keeps, the whole walk keeps.
use bifrost_node.Prelude.{ℕ, ◌+◌, ◌≤◌, ◌<◌, ◌≡◌, false, List, arith}
use bifrost_node.Blaze.Coins.{ScoredUtxo, Problem, SearchState, record_best, visit}

abbrev pub tried : SearchState → SearchState
tried s = record s { tries = s.tries + 1 }

-- What a call that goes on to the next index has passed.
pub visit-Keeps {ℓ} :
    (p : Problem) (remaining : ℕ) (curr : List ScoredUtxo) (value weight : ℕ) (s : SearchState)
    (next : SearchState → SearchState) (Q : SearchState → Type ℓ)
    → Q s
    → (s.tries < p.max_tries → Q (tried s))
    → (s.tries < p.max_tries
        → p.target ≤ value
        → p.over value ≡ false
        → weight ≤ p.max_weight
        → Q (record_best p curr value (tried s)))
    → (s.tries < p.max_tries → Q (next (tried s)))
    → Q (visit p remaining curr value weight s next)
unfolding visit
visit-Keeps p remaining curr value weight s next Q stop pruned recorded go_on = ground arith
