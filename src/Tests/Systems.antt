-- ===== src/Tests/Systems.antt =====
-- The queue of jobs, the join graph, the histogram and the warehouses at concrete inputs.
use native.Mathlib.Omega.{arith}
use join_operator_software_d.Prelude.{
  ℕ, ◌≡◌, ◌&&◌, refl, some, none, List, [], ◌∷◌, ◌==◌, if◌then◌else◌, get_or,
}
use join_operator_software_d.Structs.{Relation, IndexArray, ReorderedR, first_reordered}
use join_operator_software_d.Query.{ColRel, Join}
use join_operator_software_d.JobScheduler.{
  System, initialise_scheduler, enter_write, idle, to_insert,
}
use join_operator_software_d.JobScheduler.Phases.{IsOrderly}
use join_operator_software_d.JobScheduler.Runs.{Reachable, starts, goes_on, enters_write, start}
use join_operator_software_d.JobScheduler.Order.{Reachable-IsOrderly}
use join_operator_software_d.Graph.{construct_graph, initialise_graph, connected, no_vertex}
use join_operator_software_d.Graph.Edges.{LeadsTo, edges_of, HasEdges, construct_graph-edges_of}
use join_operator_software_d.Histogram.{do_the_hash}
use join_operator_software_d.Histogram.Counts.{Counts}
use join_operator_software_d.Histogram.Slices.{do_the_hash-Counts}
use join_operator_software_d.Reorder.{find_next_power}
use join_operator_software_d.Reorder.Powers.{IsNextPower, find_next_power-IsNextPower}
use join_operator_software_d.Warehouse.{
  ReWarehouse, fetch_from_index_warehouse, fetch_from_re_warehouse, add_to_index_warehouse,
  add_to_re_warehouse,
}
use join_operator_software_d.Warehouse.Fetches.{
  first_of, fetch_from_index_warehouse-add, fetch_from_re_warehouse-add,
}

-- Two threads, of which one has gone in to write job 7.
abbrev one_writes : System
one_writes = record {
  scheduler = record { writing = 1; reading = 0; shutdown = 0; size = 0; jobs = [] };
  threads = to_insert 7 ∷ idle ∷ [];
  sent = [];
  taken = [];
}

one_writes-Reachable : Reachable 2 one_writes
unfolding initialise_scheduler enter_write
one_writes-Reachable = goes_on {s = start 2} starts (
    enters_write 0 7 (record { writing = 1; reading = 0; shutdown = 0; size = 0; jobs = [] })
      (omega arith) refl refl)

Reachable-IsOrderly_example : IsOrderly one_writes
Reachable-IsOrderly_example = Reachable-IsOrderly 2 one_writes one_writes-Reachable

abbrev left_column : ColRel
left_column = record { real_rel = 3; real_col = 1; rel = 0; num_col = 1; col = []; rows = 0 }

abbrev right_column : ColRel
right_column = record { real_rel = 4; real_col = 2; rel = 1; num_col = 2; col = []; rows = 0 }

abbrev two_joins : List Join
two_joins =
    record { participant1 = left_column; participant2 = right_column; distinct_vals = 0 }
    ∷ record { participant1 = right_column; participant2 = left_column; distinct_vals = 0 }
    ∷ []

construct_graph-edges_of_example :
    HasEdges
      (get_or (construct_graph (initialise_graph 2) two_joins).graph_array 1 no_vertex)
      (edges_of 1 0 two_joins)
    × ((other : ℕ)
        → LeadsTo
            (edges_of 1 0 two_joins)
            other
            (connected (construct_graph (initialise_graph 2) two_joins) 1 other))
construct_graph-edges_of_example = construct_graph-edges_of 2 two_joins 1 (omega arith)

abbrev three_tuples : Relation
three_tuples = record {
  tuples =
      record { key = 5; payload = 0 }
      ∷ record { key = 2; payload = 1 }
      ∷ record { key = 7; payload = 2 }
      ∷ [];
  size = 3;
}

do_the_hash-Counts_example :
    Counts three_tuples.tuples 4 0 3
      ((do_the_hash three_tuples 4 1).hist, (do_the_hash three_tuples 4 1).hash_values)
do_the_hash-Counts_example = do_the_hash-Counts three_tuples 4 1 (omega arith)

abbrev no_indexes : IndexArray
no_indexes = record { indexes = []; size = 0 }

fetch_from_index_warehouse-add_example :
    fetch_from_index_warehouse (add_to_index_warehouse [] 1 2 3 no_indexes) 1 2 ≡ (
      if 1 == 1 && 2 == 2
      then first_of (fetch_from_index_warehouse [] 1 2) (no_indexes, 3)
      else fetch_from_index_warehouse [] 1 2)
fetch_from_index_warehouse-add_example = fetch_from_index_warehouse-add [] 1 2 3 no_indexes 1 2

abbrev empty_array : ReorderedR
empty_array = record {
  p_sum_arr = record { psum = []; psum_size = 0 };
  rel = record { tuples = []; size = 0 };
}

abbrev empty_warehouse : ReWarehouse
empty_warehouse = record { wares = []; best_hash_values = (none ∷ none ∷ []) ∷ [] }

fetch_from_re_warehouse-add_example :
    (fetch_from_re_warehouse
        (add_to_re_warehouse empty_warehouse 0 1 3 empty_array 1)
        0
        1
        first_reordered
      ≡ some empty_array)
    × (fetch_from_re_warehouse (add_to_re_warehouse empty_warehouse 0 1 3 empty_array 1) 0 1 3
        ≡ first_of (fetch_from_re_warehouse empty_warehouse 0 1 3) empty_array)
fetch_from_re_warehouse-add_example =
    fetch_from_re_warehouse-add empty_warehouse 0 1 3 empty_array (omega arith) (omega arith)
      (λ e. absurd (omega (arith, e)))

find_next_power-IsNextPower_example : IsNextPower 5 (find_next_power 5)
find_next_power-IsNextPower_example = find_next_power-IsNextPower 5 (omega arith) (omega arith)
