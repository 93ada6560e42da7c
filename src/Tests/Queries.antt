-- ===== src/Tests/Queries.antt =====
-- Two filters of a query, at concrete inputs.
use join_operator_software_d.Prelude.{ℕ, ◌≡◌, refl, List, [], ◌∷◌}
use join_operator_software_d.Query.{Filter, greater}
use join_operator_software_d.Inter.{initialise_head}
use join_operator_software_d.Joint.Selection.{Chooses}
use join_operator_software_d.Joint.Solo.{solo}
use join_operator_software_d.Execution.{perform_filters}
use join_operator_software_d.Execution.Filtering.{AdmitsAll, perform_filters-AdmitsAll}
use join_operator_software_d.Tests.Tables.{small_values, other_column}

abbrev large_values : Filter
large_values = record { participant = other_column; op = greater; value = 5 }

perform_filters-AdmitsAll_example :
    (ks : List ℕ) × Chooses 3 (AdmitsAll (small_values ∷ large_values ∷ [])) ks
    × (perform_filters (small_values ∷ large_values ∷ []) initialise_head ≡ solo 1 ks)
perform_filters-AdmitsAll_example =
    perform_filters-AdmitsAll small_values (large_values ∷ []) ((refl, refl), tt)
