-- ===== src/Search.antt =====
-- src/chainFollower.c: probing an index with the tuples of the other relation, bucket by bucket,
-- in one thread and by jobs.
pub mod Chain
pub mod Probe
pub mod Partition
pub mod Slices
pub mod Jobs
pub mod Result
pub mod Bags
use join_operator_software_d.Prelude.{
  ℕ, zero, suc, ◌+◌, ◌-◌, Option, none, some, List, [], ◌∷◌, if◌then◌else◌, ltb, ◌==◌, sub64,
  u64_mod, get_or, set, take, drop, replicate,
}
use join_operator_software_d.Structs.{
  Tuple, Relation, ReorderedR, RelationIndex, IndexArray, RowTuple, HeadResult,
}
use join_operator_software_d.Hashing.{hashing}
use join_operator_software_d.Index.{no_tuple, no_psum, log2, Entry}
use join_operator_software_d.ResultList.{
  initialise_result_head, initialise_result_head_no_buff, push_result_ver2, clean_list_head,
  connect_result_list,
}

-- `EMPTY_BUCKET` is -1, compared with a `myint_t`.
abbrev pub empty_bucket : ℕ
empty_bucket = u64_mod - 1

-- The row that a tuple of the indexed relation and one of the other make.
abbrev pub row_of : Tuple → Tuple → RowTuple
row_of r t = record { row_r = r.payload; row_s = t.payload }

-- `while(1)`: a round at each position of the chain. The fuel is the number of positions.
pub follow_loop : ℕ → HeadResult → List Tuple → List ℕ → Tuple → ℕ → HeadResult
follow_loop zero list tuples chain t pointer = list
follow_loop (suc fuel) list tuples chain t pointer =
    let r = get_or tuples pointer no_tuple in
    let list' = if r.key == t.key then push_result_ver2 list (row_of r t) else list in
    let next = get_or chain pointer 0 in
    let rest = follow_loop fuel list' tuples chain t (next - 1) in if next == 0 then list' else rest

pub follow_chain : HeadResult → RelationIndex → Relation → Tuple → ℕ → HeadResult
follow_chain list index rel t h1 =
    let hash_res = hashing t.key h1 index.hash2 in
    let pointer = sub64 (get_or index.buckets hash_res 0) 1 in
    if pointer == empty_bucket
    then list
    else follow_loop rel.size list rel.tuples index.chain t pointer

-- The loop over the tuples `checkedTuples[0 .. tuplesNumb)`.
pub follow_all : HeadResult → RelationIndex → Relation → List Tuple → ℕ → HeadResult
follow_all list index rel [] h1 = list
follow_all list index rel (t ∷ ts) h1 =
    follow_all (follow_chain list index rel t h1) index rel ts h1

-- The list holds the index and those that its `next` pointers reach. A `rel` that is `NULL` ends
-- the walk.
pub search_key_rec : List RelationIndex → HeadResult → List Tuple → ℕ → HeadResult
search_key_rec [] list checked h1 = list
search_key_rec (index ∷ next) list checked h1 = elim index.rel [
  | none ↦ list
  | some rel ↦ search_key_rec next (follow_all list index rel checked h1) checked h1
]

-- How many tuples belong to the hash number `which`.
search_size : ReorderedR → ℕ → ℕ
search_size s which =
    let psum = s.p_sum_arr.psum in
    let start = (get_or psum which no_psum).offset in
    if ltb which (s.p_sum_arr.psum_size - 1)
    then (get_or psum (which + 1) no_psum).offset - start
    else s.rel.size - start

-- `startTup` with its `size`.
pub search_slice : ReorderedR → ℕ → List Tuple
unfolding search_size
search_slice s which =
    take (search_size s which) (drop (get_or s.p_sum_arr.psum which no_psum).offset s.rel.tuples)

abbrev pub no_entry : Entry
no_entry = (record { chain = []; buckets = []; rel = none; key = 0; hash2 = 0 }, [])

-- `searchKeyRec` on the tuples of hash number `which`.
pub probe_key : IndexArray → ReorderedR → ℕ → HeadResult → HeadResult
probe_key ind_arr s which list =
    let key1 = (get_or s.p_sum_arr.psum which no_psum).h1_res in
    let entry = get_or ind_arr.indexes key1 no_entry in
    search_key_rec (entry.0 ∷ entry.1) list (search_slice s which) (log2 ind_arr.size)

-- The rounds of `for(whichKey = 0; whichKey < psumSize; whichKey++)` that are left.
search_loop : ℕ → ℕ → IndexArray → ReorderedR → HeadResult → HeadResult
search_loop zero which ind_arr s list = list
search_loop (suc n) which ind_arr s list =
    search_loop n (which + 1) ind_arr s (probe_key ind_arr s which list)

pub search : IndexArray → ReorderedR → HeadResult
unfolding search_loop
search ind_arr s =
    clean_list_head (search_loop s.p_sum_arr.psum_size 0 ind_arr s initialise_result_head)

-- The list that the job number `which` makes.
pub join_bucket : IndexArray → ReorderedR → ℕ → HeadResult
join_bucket ind_arr s which = clean_list_head (probe_key ind_arr s which initialise_result_head)

-- The jobs in the order in which the threads finish them: each writes its own entry of `jobLists`
-- and counts itself in `connectedLists`.
pub run_jobs : IndexArray → ReorderedR → List ℕ → List HeadResult × ℕ → List HeadResult × ℕ
run_jobs ind_arr s [] (job_lists, connected) = (job_lists, connected)
run_jobs ind_arr s (w ∷ schedule) (job_lists, connected) =
    run_jobs ind_arr s schedule (set job_lists w (join_bucket ind_arr s w), connected + 1)

pub connect_all : HeadResult → List HeadResult → HeadResult
connect_all final [] = final
connect_all final (l ∷ job_lists) = connect_all (connect_result_list final l) job_lists

-- `none` is a barrier that waits for ever, since not every job has run.
pub search_thread_ver : IndexArray → ReorderedR → List ℕ → Option HeadResult
search_thread_ver ind_arr s schedule =
    let n = s.p_sum_arr.psum_size in
    let (job_lists, connected) =
      run_jobs ind_arr s schedule (replicate n initialise_result_head_no_buff, 0) in
    if connected == n then some (connect_all initialise_result_head_no_buff job_lists) else none
