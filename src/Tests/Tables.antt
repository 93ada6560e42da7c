-- ===== src/Tests/Tables.antt =====
-- Intermediates, filters and checksums at concrete inputs.
use native.Mathlib.Omega.{arith}
use join_operator_software_d.Prelude.{
  some, sym, ap, ◌∙◌, ℕ, zero, suc, ◌≡◌, ◌<◌, refl, [], ◌∷◌, ◌++◌, ◌==◌, get_or, set,
}
use join_operator_software_d.ResultList.Contents.{rows}
use join_operator_software_d.Query.{ColRel, Filter, Join, less}
use join_operator_software_d.Inter.{
  Inter, HeadInter, update_inter_self_join, update_inter_from_res, update_inter_and_delete, row_at,
  first_of_row, second_of_row,
}
use join_operator_software_d.Inter.Packages.{
  place_loop, NoPackages, update_inter_and_delete2, update_inter_and_delete2-plain,
}
use join_operator_software_d.Inter.Updates.{
  IsTable, kept, extended, merged, no_row, update_inter_self_join_lem, update_inter_from_res_lem,
}
use join_operator_software_d.Inter.Removal.{update_inter_and_delete_lem}
use join_operator_software_d.Joint.Keeping.{Keeps, Leaves}
use join_operator_software_d.Joint.Places.{FirstColumn, IsPlace}
use join_operator_software_d.Joint.{
  rows_of_rel, worker_f, worker_self, worker_same_node, forge_relationsheep,
}
use join_operator_software_d.Joint.Filters.{
  Admits, worker_f-Leaves, worker_self-Leaves, worker_same_node-Keeps,
}
use join_operator_software_d.Joint.Forge.{
  Numbers, value_of, rows_joined, forge_relationsheep-Numbers,
}
use join_operator_software_d.Checksum.{Checksums, perform_checksums}
use join_operator_software_d.Checksum.Sums.{Word, perform_checksums-total}
use join_operator_software_d.Tests.{one_row, one_row-IsClosed}

-- Relations 0 and 1 joined, with three rows.
abbrev pair_table : Inter
pair_table = record {
  num_of_cols = 2;
  numb_of_rows = 3;
  row_ids = (0 ∷ 1 ∷ 2 ∷ []) ∷ (2 ∷ 0 ∷ 2 ∷ []) ∷ [];
  joined_rels = 0 ∷ 1 ∷ [];
}

-- Relation 2, with three rows.
abbrev single_table : Inter
single_table = record {
  num_of_cols = 1;
  numb_of_rows = 3;
  row_ids = (1 ∷ 2 ∷ 4 ∷ []) ∷ [];
  joined_rels = 2 ∷ [];
}

abbrev two_tables : HeadInter
two_tables = record { num_of_intermediates = 2; nodes = pair_table ∷ single_table ∷ [] }

pair_table-IsTable : IsTable pair_table
pair_table-IsTable = record { cols = refl; rels = refl; even = (refl, (refl, tt)) }

single_table-IsTable : IsTable single_table
single_table-IsTable = record { cols = refl; rels = refl; even = (refl, tt) }

-- A column of relation 1.
abbrev pub column : ColRel
column = record {
  real_rel = 7;
  real_col = 0;
  rel = 1;
  num_col = 0;
  col = 10 ∷ 20 ∷ 30 ∷ [];
  rows = 3;
}

abbrev pub other_column : ColRel
other_column = record {
  real_rel = 7;
  real_col = 1;
  rel = 1;
  num_col = 1;
  col = 10 ∷ 21 ∷ 30 ∷ [];
  rows = 3;
}

abbrev pub small_values : Filter
small_values = record { participant = column; op = less; value = 15 }

abbrev self_join : Join
self_join = record { participant1 = column; participant2 = other_column; distinct_vals = 0 }

update_inter_self_join_lem_example :
    (update_inter_self_join two_tables 0 (0 ∷ 2 ∷ []) 2
      ≡ record two_tables { nodes = set two_tables.nodes 0 (kept pair_table (0 ∷ 2 ∷ [])) })
    × IsTable (kept pair_table (0 ∷ 2 ∷ []))
    × ((i : ℕ)
        → i < 2
        → row_at (kept pair_table (0 ∷ 2 ∷ [])).row_ids i
          ≡ row_at pair_table.row_ids (get_or (0 ∷ 2 ∷ []) i 0))
update_inter_self_join_lem_example =
    update_inter_self_join_lem two_tables 0 (0 ∷ 2 ∷ []) pair_table-IsTable

update_inter_from_res_lem_example :
    (update_inter_from_res two_tables 0 one_row 5 1 ≡ record two_tables {
      nodes = set two_tables.nodes 0 (extended pair_table 5 1 (rows one_row));
    })
    × IsTable (extended pair_table 5 1 (rows one_row))
    × ((i : ℕ)
        → i < 1
        → row_at (extended pair_table 5 1 (rows one_row)).row_ids i
          ≡ row_at pair_table.row_ids (first_of_row 1 (get_or (rows one_row) i no_row))
            ++ second_of_row 1 (get_or (rows one_row) i no_row) ∷ [])
update_inter_from_res_lem_example =
    update_inter_from_res_lem two_tables 0 5 1 one_row pair_table-IsTable one_row-IsClosed

update_inter_and_delete_lem_example :
    (update_inter_and_delete two_tables 0 1 one_row 1 ≡ record {
      num_of_intermediates = 1;
      nodes = merged pair_table single_table 1 (rows one_row) ∷ [];
    })
    × IsTable (merged pair_table single_table 1 (rows one_row))
    × ((i : ℕ)
        → i < 1
        → row_at (merged pair_table single_table 1 (rows one_row)).row_ids i
          ≡ row_at pair_table.row_ids (first_of_row 1 (get_or (rows one_row) i no_row))
            ++ row_at single_table.row_ids (second_of_row 1 (get_or (rows one_row) i no_row)))
update_inter_and_delete_lem_example =
    update_inter_and_delete_lem two_tables 0 1 1 one_row refl (omega arith) (omega arith)
      (omega arith) (λ e. absurd (omega (arith, e))) pair_table-IsTable single_table-IsTable
      one_row-IsClosed

pair_table-NoPackages : NoPackages 3 (2 ∷ 0 ∷ 2 ∷ [])
pair_table-NoPackages zero lt = λ e. absurd (omega (arith, e))
pair_table-NoPackages (suc zero) lt = λ e. absurd (omega (arith, e))
pair_table-NoPackages (suc (suc i)) lt = absurd (omega (arith, lt))

single_table-NoPackages : NoPackages 3 (1 ∷ 2 ∷ 4 ∷ [])
single_table-NoPackages zero lt = λ e. absurd (omega (arith, e))
single_table-NoPackages (suc zero) lt = λ e. absurd (omega (arith, e))
single_table-NoPackages (suc (suc i)) lt = absurd (omega (arith, lt))

update_inter_and_delete2-plain_example :
    update_inter_and_delete2 two_tables 0 1 one_row 1 2 1
    ≡ update_inter_and_delete two_tables 0 1 one_row 1
unfolding place_loop
update_inter_and_delete2-plain_example =
    update_inter_and_delete2-plain two_tables 0 1 1 2 1 one_row pair_table-NoPackages
      single_table-NoPackages one_row-IsClosed

column_one : FirstColumn pair_table 1 1
column_one = record {
  within = omega arith;
  held = omega arith;
  is_rel = refl;
  others = λ j lt e.
      let first : j ≡ 0 = omega (arith, lt) in
      absurd (omega (arith, sym e ∙ ap (λ (k : ℕ). get_or (0 ∷ 1 ∷ []) k 0) first));
}

-- Relation 1 stands in the second column of the first intermediate.
second_column : IsPlace two_tables 1 (some (0, 1))
second_column = record {
  inside = omega arith;
  column = column_one;
  before = λ k lt. absurd (omega (arith, lt));
}

worker_f-Leaves_example :
    Leaves two_tables
      (some (0, 1))
      1
      3
      (λ j. Admits small_values (get_or column.col j 0))
      (worker_f small_values two_tables)
worker_f-Leaves_example =
    worker_f-Leaves small_values two_tables (some (0, 1)) second_column
      (pair_table-IsTable, omega arith)

worker_self-Leaves_example :
    Leaves two_tables
      (some (0, 1))
      1
      3
      (λ j. get_or column.col j 0 ≡ get_or other_column.col j 0)
      (worker_self self_join two_tables)
worker_self-Leaves_example =
    worker_self-Leaves self_join two_tables (some (0, 1)) second_column
      (pair_table-IsTable, omega arith)

worker_same_node-Keeps_example :
    Keeps two_tables 0
      (λ i.
        get_or column.col (get_or (rows_of_rel pair_table 1) i 0) 0
        == get_or other_column.col (get_or (rows_of_rel pair_table 1) i 0) 0)
      (worker_same_node self_join two_tables 0)
worker_same_node-Keeps_example = worker_same_node-Keeps self_join two_tables 0 pair_table-IsTable

forge_relationsheep-Numbers_example :
    Numbers
      (value_of two_tables (some (0, 1)) column)
      (rows_joined two_tables (some (0, 1)) column)
      (forge_relationsheep two_tables column)
forge_relationsheep-Numbers_example =
    forge_relationsheep-Numbers two_tables column (some (0, 1)) second_column

perform_checksums-total_example :
    (result : Checksums) × (perform_checksums (0 ∷ []) (column ∷ []) 1 two_tables ≡ some result)
    × Word pair_table column 0 (some 1) (get_or result.checksums 0 0)
perform_checksums-total_example =
    perform_checksums-total (0 ∷ []) (column ∷ []) two_tables 0 (some 1) (omega arith)
      pair_table-IsTable refl (omega arith) column_one
