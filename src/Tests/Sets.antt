-- ===== src/Tests/Sets.antt =====
-- The sets of relations of a query with four of them.
use join_operator_software_d.Prelude.{ℕ, ◌+◌, ◌≡◌, arith, List, [], ◌∷◌, length}
use join_operator_software_d.Combinations.{get_combination, numb_of_combs}
use join_operator_software_d.Combinations.Count.{length-get_combination-numb_of_combs}

-- A number below ten in print.
abbrev digit : ℕ → List ℕ
digit n = (48 + n) ∷ []

length-get_combination-numb_of_combs_example :
    length (get_combination digit (7 ∷ 7 ∷ []) 4 2) ≡ numb_of_combs 4 2
length-get_combination-numb_of_combs_example =
    length-get_combination-numb_of_combs digit (7 ∷ 7 ∷ []) 4 2 (omega arith) (omega arith)
