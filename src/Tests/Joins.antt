-- ===== src/Tests/Joins.antt =====
-- The reordering and the radix hash join of two small columns.
use native.Mathlib.Omega.{arith}
use join_operator_software_d.Prelude.{
  ℕ, zero, suc, ◌+◌, ◌*◌, ◌/◌, ◌<◌, ◌≡◌, refl, inl, some, List, [], ◌∷◌, replicate,
}
use join_operator_software_d.Structs.{
  Tuple, Relation, HeadResult, first_reordered, available_cache_size, sizeof_tuple,
}
use join_operator_software_d.Index.{no_tuple}
use join_operator_software_d.Hashing.{hash1_range}
use join_operator_software_d.Search.Chain.{join_rows}
use join_operator_software_d.Search.Jobs.{count_from}
use join_operator_software_d.Search.Result.{Lists}
use join_operator_software_d.Reorder.{reorder_relation}
use join_operator_software_d.Reorder.Powers.{IsNextPower}
use join_operator_software_d.Reorder.Ready.{Reorders, Reorderable}
use join_operator_software_d.Reorder.Sorted.{
  reorder_relation-Reorders, reorder_relation_first-Reorders,
}
use join_operator_software_d.Warehouse.{initialise_warehouses}
use join_operator_software_d.Radix.{ColumnRelation, Warehouses, radix_hash_join}
use join_operator_software_d.Radix.Stock.{Stocked}
use join_operator_software_d.Radix.Sides.{Joinable}
use join_operator_software_d.Radix.Plans.{left_of, right_of}
use join_operator_software_d.Radix.History.{
  IsCall, Reached, start, join, radix_hash_join-Lists, Reached-Stocked,
}
use join_operator_software_d.Query.{ColRel, Join}
use join_operator_software_d.Inter.{Inter, HeadInter, row_at}
use join_operator_software_d.Joint.{
  find_node, find_col, rows_of_rel, forge_loop, forge_relationsheep,
}
use join_operator_software_d.Worker.{forge, worker_j}
use join_operator_software_d.Worker.Joined.{worker_j-Holds}
use join_operator_software_d.Worker.Holding.{Holds}

abbrev pub no_margin : ℕ → ℕ
no_margin n = 0

abbrev pub fresh_tuples : Relation → List Tuple
fresh_tuples r = replicate r.size no_tuple

abbrev pub first_to_last : Relation → List ℕ
first_to_last r = count_from 0 r.size

abbrev first_relation : Relation
first_relation = record {
  tuples =
      record { key = 5; payload = 0 }
      ∷ record { key = 2; payload = 1 }
      ∷ record { key = 5; payload = 2 }
      ∷ [];
  size = 3;
}

abbrev second_relation : Relation
second_relation = record {
  tuples = record { key = 7; payload = 0 } ∷ record { key = 5; payload = 1 } ∷ [];
  size = 2;
}

first_relation-Reorderable :
    Reorderable first_relation (fresh_tuples first_relation) (2 ∷ 0 ∷ 1 ∷ [])
first_relation-Reorderable = record {
  size_eq = refl;
  small = omega arith;
  allocated = refl;
  every = λ f. omega arith;
}

reorder_relation-Reorders_example :
    Reorders first_relation 2
      (reorder_relation no_margin (fresh_tuples first_relation) (2 ∷ 0 ∷ 1 ∷ []) first_relation 2)
reorder_relation-Reorders_example =
    reorder_relation-Reorders no_margin first_relation (fresh_tuples first_relation)
      (2 ∷ 0 ∷ 1 ∷ []) first_relation-Reorderable 2 (omega arith)

reorder_relation_first-Reorders_example :
    (e : ℕ) × (e < 64)
    × IsNextPower (no_margin (3 * sizeof_tuple / available_cache_size) + 1) (hash1_range e)
    × Reorders first_relation e (
        reorder_relation no_margin
          (fresh_tuples first_relation)
          (2 ∷ 0 ∷ 1 ∷ [])
          first_relation
          first_reordered)
reorder_relation_first-Reorders_example =
    reorder_relation_first-Reorders no_margin first_relation (fresh_tuples first_relation)
      (2 ∷ 0 ∷ 1 ∷ []) first_relation-Reorderable (omega arith) (omega arith)

-- Column 0 of relation 0 and column 0 of relation 1.
abbrev pub two_columns : ℕ → ℕ → List Tuple
two_columns zero col = first_relation.tuples
two_columns (suc rel) col = second_relation.tuples

abbrev first_column : ColumnRelation
first_column = record { relation = first_relation; real_rel = 0; real_col = 0 }

abbrev second_column : ColumnRelation
second_column = record { relation = second_relation; real_rel = 1; real_col = 0 }

first_column-Joinable : Joinable no_margin fresh_tuples first_to_last first_column
first_column-Joinable = record {
  can = record { size_eq = refl; small = omega arith; allocated = refl; every = λ f. refl };
  few = omega arith;
}

second_column-Joinable : Joinable no_margin fresh_tuples first_to_last second_column
second_column-Joinable = record {
  can = record { size_eq = refl; small = omega arith; allocated = refl; every = λ f. refl };
  few = omega arith;
}

columns-IsCall :
    IsCall two_columns no_margin fresh_tuples first_to_last 0 first_column second_column
columns-IsCall = inl (refl, refl, refl, omega arith, omega arith)

abbrev pub all_jobs : ℕ → List ℕ
all_jobs n = count_from 0 n

abbrev pub no_houses : Warehouses
no_houses = record {
  indexes = (initialise_warehouses (1 ∷ 1 ∷ [])).0;
  reordered = (initialise_warehouses (1 ∷ 1 ∷ [])).1;
}

abbrev joined_houses : Warehouses
joined_houses =
    (radix_hash_join no_margin fresh_tuples first_to_last all_jobs no_houses first_column
      second_column 0).2

joined_houses-Reached :
    Reached two_columns no_margin fresh_tuples first_to_last all_jobs (λ n f. refl) joined_houses
joined_houses-Reached =
    join no_houses first_column second_column 0 (start (1 ∷ 1 ∷ [])) first_column-Joinable
      second_column-Joinable columns-IsCall

Reached-Stocked_example : Stocked two_columns joined_houses
Reached-Stocked_example =
    Reached-Stocked two_columns no_margin fresh_tuples first_to_last all_jobs (λ n f. refl)
      joined_houses joined_houses-Reached

radix_hash_join-Lists_example :
    let out =
      radix_hash_join no_margin fresh_tuples first_to_last all_jobs joined_houses first_column
        second_column 0 in
    (list : HeadResult) × (out.0 ≡ some list)
    × Lists
        (join_rows
          (left_of out.1 first_column second_column).relation.tuples
          (right_of out.1 first_column second_column).relation.tuples)
        list
radix_hash_join-Lists_example =
    radix_hash_join-Lists two_columns no_margin fresh_tuples first_to_last all_jobs (λ n f. refl)
      joined_houses first_column second_column 0
      (Reached-Stocked two_columns no_margin fresh_tuples first_to_last all_jobs (λ n f. refl)
        joined_houses joined_houses-Reached)
      first_column-Joinable second_column-Joinable columns-IsCall

-- Relation 0 of the query, of which two rows are in an intermediate, is joined with relation 1.
abbrev pub kept_part : ColRel
kept_part = record {
  real_rel = 0;
  real_col = 0;
  rel = 0;
  num_col = 0;
  col = 5 ∷ 2 ∷ 5 ∷ [];
  rows = 3;
}

abbrev new_part : ColRel
new_part = record { real_rel = 1; real_col = 0; rel = 1; num_col = 0; col = 7 ∷ 5 ∷ []; rows = 2 }

abbrev pub parts_join : Join
parts_join = record { participant1 = kept_part; participant2 = new_part; distinct_vals = 0 }

abbrev pub one_kept : HeadInter
one_kept = record {
  num_of_intermediates = 1;
  nodes =
      record {
        num_of_cols = 1;
        numb_of_rows = 2;
        row_ids = (0 ∷ 2 ∷ []) ∷ [];
        joined_rels = 0 ∷ [];
      }
      ∷ [];
}

pub kept_part-Joinable : Joinable no_margin fresh_tuples first_to_last (forge one_kept kept_part)
unfolding forge_relationsheep forge_loop find_node rows_of_rel find_col
kept_part-Joinable = record {
  can = record { size_eq = refl; small = omega arith; allocated = refl; every = λ f. refl };
  few = omega arith;
}

pub new_part-Joinable : Joinable no_margin fresh_tuples first_to_last (forge one_kept new_part)
unfolding forge_relationsheep forge_loop find_node
new_part-Joinable = record {
  can = record { size_eq = refl; small = omega arith; allocated = refl; every = λ f. refl };
  few = omega arith;
}

worker_j-Holds_example :
    let out =
      worker_j no_margin fresh_tuples first_to_last all_jobs parts_join one_kept no_houses in
    (it : Inter) × (out.0 ≡ some (record one_kept { nodes = it ∷ [] }))
    × Holds ((0 ∷ 1 ∷ []) ∷ (2 ∷ 1 ∷ []) ∷ []) it
    × Stocked two_columns out.1
unfolding find_node forge_relationsheep forge_loop rows_of_rel find_col row_at
worker_j-Holds_example =
    worker_j-Holds two_columns no_margin fresh_tuples first_to_last all_jobs (λ n f. refl) no_houses
      (Reached-Stocked two_columns no_margin fresh_tuples first_to_last all_jobs (λ n f. refl)
        no_houses (start (1 ∷ 1 ∷ [])))
      parts_join one_kept kept_part-Joinable new_part-Joinable (λ e. absurd (omega (arith, e)))
      (record { cols = refl; rels = refl; even = (refl, tt) }, refl, omega arith)
