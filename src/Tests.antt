-- ===== src/Tests.antt =====
-- Runs of the code at concrete inputs, and the theorems applied to them.
mod Tables
mod Systems
mod Joins
mod Threads
mod Statistics
mod Queries
mod Sets
use native.Mathlib.Omega.{arith}
use mathlib.Core.List.{map}
use join_operator_software_d.Prelude.{
  ℕ, ◌≡◌, ◌<◌, refl, some, none, List, [], ◌∷◌, ◌++◌, length, take, drop, replicate,
}
use join_operator_software_d.Structs.{
  Tuple, Relation, PSumTuple, PSumArray, ReorderedR, RowTuple, HeadResult,
}
use join_operator_software_d.Hashing.{hash1_range, hash1_2, hash2_range}
use join_operator_software_d.ResultList.{
  initialise_result_head, initialise_result_head_no_buff, push_result_ver2, clean_list_head,
  connect_result_list, count_size_of_list,
}
use join_operator_software_d.ResultList.Contents.{
  IsOpen, IsClosed, rows, contents, initialise_result_head-IsOpen, push_result_ver2-IsOpen,
  clean_list_head-IsClosed, connect_result_list-IsClosed, count_size_of_list_lem,
}
use join_operator_software_d.Index.{
  initialize_index, build_index, indexing, recompute_sizes, initial_hash2, build_sub_index,
  get_start_of_bucket, log2,
}
use join_operator_software_d.Index.Buckets.{Bucket, all_tuples, Encodes, get_start_of_bucket_lem}
use join_operator_software_d.Index.Chains.{IsIndex, build_index-IsIndex}
use join_operator_software_d.Index.Parts.{Covers, done, build_sub_index-Covers}
use join_operator_software_d.Index.Sizes.{FitsCache, recompute_sizes-FitsCache, one_fits}
use join_operator_software_d.Search.{
  search, search_thread_ver, search_slice, run_jobs, join_bucket, follow_chain, search_key_rec,
}
use join_operator_software_d.Search.Chain.{equi_rows, join_rows}
use join_operator_software_d.Search.Probe.{Gains, follow_chain-Gains, search_key_rec-Gains}
use join_operator_software_d.Search.Slices.{search_slice_lem}
use join_operator_software_d.Search.Jobs.{count_from, run_jobs_lem}
use join_operator_software_d.Search.Result.{Prepared, Lists, search-Lists, search_thread_ver-Lists}

abbrev odd_bucket : Bucket
odd_bucket = record {
  hash = 1;
  tuples = record { key = 5; payload = 0 } ∷ record { key = 3; payload = 1 } ∷ [];
}

abbrev one_bucket : List Bucket
one_bucket = odd_bucket ∷ []

-- A reordered relation of two tuples, both odd.
abbrev odd_relation : ReorderedR
odd_relation = record {
  p_sum_arr = record { psum = record { h1_res = 1; offset = 0 } ∷ []; psum_size = 1 };
  rel = record { tuples = odd_bucket.tuples; size = 2 };
}

abbrev odd_relation-Encodes : Encodes one_bucket odd_relation
odd_relation-Encodes = record {
  psum_eq = refl;
  psum_size_eq = refl;
  tuples_eq = refl;
  size_eq = refl;
}

odd_relation-Prepared : Prepared 1 one_bucket odd_relation
unfolding hash1_range hash1_2
odd_relation-Prepared = record {
  encodes = odd_relation-Encodes;
  increases = (omega arith, tt);
  hashed = ((refl, (refl, tt)), tt);
  below = (omega arith, tt);
  small = omega arith;
}

search-Lists_example :
    Lists
      (join_rows (all_tuples one_bucket) (all_tuples one_bucket))
      (search (indexing odd_relation 1) odd_relation)
search-Lists_example =
    search-Lists 1 one_bucket one_bucket odd_relation odd_relation (omega arith)
      odd_relation-Prepared odd_relation-Prepared

-- One job, which runs.
search_thread_ver-Lists_example :
    (list : HeadResult) × (search_thread_ver (indexing odd_relation 1) odd_relation (0 ∷ [])
      ≡ some list)
    × Lists (join_rows (all_tuples one_bucket) (all_tuples one_bucket)) list
search_thread_ver-Lists_example =
    search_thread_ver-Lists 1 one_bucket one_bucket odd_relation odd_relation (omega arith)
      odd_relation-Prepared odd_relation-Prepared (0 ∷ []) (λ f. refl)

run_jobs_lem_example :
    run_jobs
      (indexing odd_relation 1)
      odd_relation
      (1 ∷ 0 ∷ [])
      (replicate 2 initialise_result_head_no_buff, 0)
    ≡ (map (join_bucket (indexing odd_relation 1) odd_relation) (count_from 0 2), 2)
run_jobs_lem_example =
    run_jobs_lem (indexing odd_relation 1) odd_relation 2 (1 ∷ 0 ∷ []) (λ f. omega arith)

build_index-IsIndex_example : IsIndex odd_bucket.tuples 1 4 2 (
    build_index
      (initialize_index
        (hash2_range 4)
        (some (record { tuples = odd_bucket.tuples; size = 2 }))
        1
        4)
      1
      4)
build_index-IsIndex_example = build_index-IsIndex odd_bucket.tuples 1 4 2 1

follow_chain-Gains_example :
    Gains initialise_result_head (equi_rows odd_bucket.tuples (record { key = 3; payload = 7 })) (
      follow_chain initialise_result_head
        (build_index
          (initialize_index
            (hash2_range 4)
            (some (record { tuples = odd_bucket.tuples; size = 2 }))
            1
            4)
          1
          4)
        (record { tuples = odd_bucket.tuples; size = 2 })
        (record { key = 3; payload = 7 })
        1)
follow_chain-Gains_example =
    follow_chain-Gains odd_bucket.tuples 1 4 2
      (build_index
        (initialize_index (hash2_range 4) (some (record { tuples = odd_bucket.tuples; size = 2 })) 1
          4)
        1 4)
      initialise_result_head (record { key = 3; payload = 7 })
      (build_index-IsIndex odd_bucket.tuples 1 4 2 1) (omega arith) (omega arith)
      initialise_result_head-IsOpen.0

search_key_rec-Gains_example :
    Gains initialise_result_head (join_rows (take 2 (drop 0 odd_bucket.tuples)) odd_bucket.tuples) (
      search_key_rec
        (build_sub_index 2 1 4 2 1 0 odd_bucket.tuples 1)
        initialise_result_head
        odd_bucket.tuples
        1)
search_key_rec-Gains_example =
    search_key_rec-Gains 1 (take 2 (drop 0 odd_bucket.tuples))
      (build_sub_index 2 1 4 2 1 0 odd_bucket.tuples 1) initialise_result_head odd_bucket.tuples
      (build_sub_index-Covers 2 1 4 2 1 0 odd_bucket.tuples 1 (omega arith) (omega arith)
        (omega arith) (omega arith))
      initialise_result_head-IsOpen.0

build_sub_index-Covers_example :
    Covers 1 (take 2 (drop 0 odd_bucket.tuples)) (build_sub_index 2 1 4 2 1 0 odd_bucket.tuples 1)
build_sub_index-Covers_example =
    build_sub_index-Covers 2 1 4 2 1 0 odd_bucket.tuples 1 (omega arith) (omega arith) (omega arith)
      (omega arith)

recompute_sizes-FitsCache_example : FitsCache 8 100000 (recompute_sizes 8 100000)
recompute_sizes-FitsCache_example =
    recompute_sizes-FitsCache 8 100000 (omega arith) (omega arith) (omega arith)

push_result_ver2-IsOpen_example :
    IsOpen (push_result_ver2 initialise_result_head (record { row_r = 1; row_s = 2 }))
    × (contents (push_result_ver2 initialise_result_head (record { row_r = 1; row_s = 2 }))
        ≡ contents initialise_result_head ++ record { row_r = 1; row_s = 2 } ∷ [])
push_result_ver2-IsOpen_example =
    push_result_ver2-IsOpen initialise_result_head (record { row_r = 1; row_s = 2 })
      initialise_result_head-IsOpen.0

-- A list with one row.
abbrev pub one_row : HeadResult
one_row = record {
  nodes = record { tuples = record { row_r = 1; row_s = 2 } ∷ []; size = 1 } ∷ [];
  numb_of_nodes = 1;
  total_size = 1;
  buff_tuple = none;
  buff_size = 0;
}

pub one_row-IsClosed : IsClosed one_row
one_row-IsClosed = record {
  counted = refl;
  filled = ((refl, omega arith, omega arith), tt);
  total = refl;
}

clean_list_head-IsClosed_example :
    IsClosed (clean_list_head initialise_result_head)
    × (rows (clean_list_head initialise_result_head) ≡ contents initialise_result_head)
clean_list_head-IsClosed_example =
    clean_list_head-IsClosed initialise_result_head initialise_result_head-IsOpen.0

connect_result_list-IsClosed_example :
    IsClosed (connect_result_list one_row one_row)
    × (rows (connect_result_list one_row one_row) ≡ rows one_row ++ rows one_row)
connect_result_list-IsClosed_example =
    connect_result_list-IsClosed one_row one_row one_row-IsClosed one_row-IsClosed

count_size_of_list_lem_example : count_size_of_list one_row ≡ 1
count_size_of_list_lem_example = count_size_of_list_lem one_row one_row-IsClosed
