-- ===== src/Staking/Tests/Nominations.antt =====
-- Nomination lists at concrete inputs.
use bifrost_node.Prelude.{◌≡◌, refl, [], ◌∷◌, arith, sat_add}
use bifrost_node.Staking.Nominations.{
  Nominations, insert_sorted_greatest_to_least, insertion_index, binary_search_by, bisect,
  skip_equals, position, differs, against,
}
use bifrost_node.Staking.Nominations.Order.{insort}
use bifrost_node.Staking.Nominations.Search.{insert_sorted_greatest_to_least-eq-insort}
use bifrost_node.Staking.Tests.Fixtures.{bond}

abbrev equals : Nominations
equals = record { nominations = bond 1 9 ∷ bond 2 5 ∷ bond 3 5 ∷ bond 4 2 ∷ []; total = 21 }

insert_sorted_greatest_to_least-eq-insort_example :
    insert_sorted_greatest_to_least equals (bond 5 5)
    ≡ record { nominations = insort (bond 5 5) equals.nominations; total = sat_add 21 5 }
insert_sorted_greatest_to_least-eq-insort_example =
    insert_sorted_greatest_to_least-eq-insort equals (bond 5 5) (omega arith)

-- First come, first served: the new bond goes behind those of its amount.
behind_equals :
    insert_sorted_greatest_to_least equals (bond 5 5)
    ≡ record { nominations = bond 1 9 ∷ bond 2 5 ∷ bond 3 5 ∷ bond 5 5 ∷ bond 4 2 ∷ []; total = 26 }
unfolding insert_sorted_greatest_to_least insertion_index binary_search_by bisect skip_equals
    position differs against
behind_equals = refl
