-- ===== src/Index.antt =====
-- src/indexManip.c and src/sideFunctions.c: the index of one bucket of the reordered relation, a
-- table of chains over its tuples, and its split into parts that fit the cache.
pub mod Chains
pub mod Buckets
pub mod Sizes
pub mod Parts
pub mod Entries
use join_operator_software_d.Prelude.{
  u64_mod, ◌%◌, ℕ, zero, suc, ◌+◌, ◌-◌, ◌*◌, ◌/◌, ◌&&◌, Option, none, some, List, [], ◌∷◌,
  if◌then◌else◌, leb, ltb, ◌==◌, get_or, set, drop, replicate,
}
use join_operator_software_d.Structs.{
  Tuple, Relation, PSumTuple, ReorderedR, RelationIndex, IndexArray, cache_size,
  available_cache_size, sizeof_tuple, sizeof_myint,
}
use join_operator_software_d.Hashing.{hashing, hash1_range, hash2_range}

-- What a read outside an array of tuples gives.
abbrev pub no_tuple : Tuple
no_tuple = record { key = 0; payload = 0 }

abbrev pub no_psum : PSumTuple
no_psum = record { h1_res = 0; offset = 0 }

-- The two loops fill both arrays with 0.
pub initialize_index : ℕ → Option Relation → ℕ → ℕ → RelationIndex
initialize_index bucket_size none key hash2 = record {
  chain = [];
  buckets = [];
  rel = none;
  key = key;
  hash2 = hash2;
}
initialize_index bucket_size (some rel) key hash2 = record {
  chain = replicate rel.size 0;
  buckets = replicate bucket_size 0;
  rel = some rel;
  key = key;
  hash2 = hash2;
}

-- The new head of the chain points back to the old one; 0 ends a chain.
pub update_chain : List ℕ → List ℕ → ℕ → ℕ → List ℕ × List ℕ
update_chain chain buckets hash2_index i =
    let temp = get_or buckets hash2_index 0 in (set chain i temp, set buckets hash2_index (i + 1))

-- The rounds of `for (i = 0; i < chainSize; i++)` that are left, from round `i` on.
pub build_loop : ℕ → ℕ → List Tuple → ℕ → ℕ → List ℕ × List ℕ → List ℕ × List ℕ
build_loop zero i tuples hash1 hash2 s = s
build_loop (suc n) i tuples hash1 hash2 s =
    build_loop n (i + 1) tuples hash1 hash2
      (update_chain s.0 s.1 (hashing (get_or tuples i no_tuple).key hash1 hash2) i)

build_rel : RelationIndex → Option Relation → ℕ → ℕ → RelationIndex
build_rel one_index none hash1 hash2 = one_index
build_rel one_index (some rel) hash1 hash2 =
    let s = build_loop rel.size 0 rel.tuples hash1 hash2 (one_index.chain, one_index.buckets) in
    record one_index { chain = s.0; buckets = s.1 }

pub build_index : RelationIndex → ℕ → ℕ → RelationIndex
build_index one_index hash1 hash2 = build_rel one_index one_index.rel hash1 hash2

-- A pointer into the middle of the tuples is the rest of the list from there.
pub get_start_of_bucket : ReorderedR → ℕ → Relation
get_start_of_bucket ror which =
    let psum = ror.p_sum_arr.psum in
    let start = (get_or psum which no_psum).offset in
    record {
      tuples = drop start ror.rel.tuples;
      size =
          if which + 1 == ror.p_sum_arr.psum_size
          then ror.rel.size - start
          else (get_or psum (which + 1) no_psum).offset - start;
    }

pub get_start_of_sub_bucket : List Tuple → ℕ → ℕ → Relation
get_start_of_sub_bucket start_of_buck size_indexed each_size = record {
  tuples = drop size_indexed start_of_buck;
  size = each_size;
}

-- `while(sizeAll > 0)`: the indexes behind the first, in the order of their `next` pointers. Each
-- round takes at least one tuple if `each_size` is not 0, so `sizeAll` rounds of fuel are enough.
pub build_sub_index : ℕ → ℕ → ℕ → ℕ → ℕ → ℕ → List Tuple → ℕ → List RelationIndex
build_sub_index zero hash1 hash2 size_all each_size size_indexed start_of_buck i = []
build_sub_index (suc fuel) hash1 hash2 size_all each_size size_indexed start_of_buck i =
    let each = if ltb size_all each_size then size_all else each_size in
    let rel = get_start_of_sub_bucket start_of_buck size_indexed each in
    let index = initialize_index (hash2_range hash2) (some rel) i hash2 in
    let rest =
      build_index index hash1 hash2
      ∷ build_sub_index fuel hash1 hash2 (size_all - each) each (size_indexed + each) start_of_buck
          i in
    if ltb 0 size_all then rest else []

-- The bytes of an index, in a 64-bit word: the word, the tuples with their chain, the buckets.
pub size_of_index : ℕ → ℕ → ℕ
size_of_index size hash2 =
    (sizeof_myint + size * (sizeof_tuple + sizeof_myint) + hash2_range hash2 * sizeof_myint)
    % u64_mod

-- `while (sizeOfIndex > CACHE_SIZE)`: halve the part.
pub shrink : ℕ → ℕ → ℕ → ℕ
shrink zero each hash2 = each
shrink (suc fuel) each hash2 =
    let rest = shrink fuel (each / 2) hash2 in
    if ltb cache_size (size_of_index each hash2) then rest else each

-- `while (sizeOfIndex <= CACHE_SIZE)`: double the bucket array.
pub grow : ℕ → ℕ → ℕ → ℕ
grow zero each hash2 = hash2
grow (suc fuel) each hash2 =
    let rest = grow fuel each (hash2 + 1) in
    if leb (size_of_index each hash2) cache_size then rest else hash2

-- The new part size and second hash. 14 rounds are enough, for `2 ^ 14` buckets do not fit.
pub recompute_sizes : ℕ → ℕ → ℕ × ℕ
recompute_sizes hash2 size_all =
    let each = shrink (size_all / 2 + 1) (size_all / 2) hash2 in (each, grow 14 each hash2 - 1)

-- `(myint_t) log2(n)` of a positive number: how often it can be halved down to 1. 64 rounds are
-- enough for a word.
unfoldable pub log2_loop : ℕ → ℕ → ℕ
log2_loop zero n = 0
log2_loop (suc fuel) n = let rest = log2_loop fuel (n / 2) in if ltb n 2 then 0 else rest + 1

unfoldable pub log2 : ℕ → ℕ
log2 n = log2_loop 64 n

-- The second hash that `indexing` starts from.
pub initial_hash2 : ℕ
initial_hash2 = log2 ((cache_size - available_cache_size) / sizeof_myint)

abbrev pub Entry : Type 0
Entry = RelationIndex × List RelationIndex

pub null_entry : ℕ → Entry
null_entry i = (initialize_index 0 none i 0, [])

-- The index of one bucket, in parts if the whole does not fit the cache.
pub bucket_entry : Relation → ℕ → ℕ → Entry
bucket_entry rel hash1 i =
    if leb (size_of_index rel.size initial_hash2) cache_size
    then (
      build_index (initialize_index (hash2_range initial_hash2) (some rel) i initial_hash2) hash1
          initial_hash2,
      [],
    )
    else (let (each, hash2) = recompute_sizes initial_hash2 rel.size in
        let first = get_start_of_sub_bucket rel.tuples 0 each in
        (
          build_index (initialize_index (hash2_range hash2) (some first) i hash2) hash1 hash2,
          build_sub_index (rel.size - each) hash1 hash2 (rel.size - each) each each rel.tuples i,
        ))

-- The rounds of `for( i = 0; i < sizeOfIndexArray; i++)` that are left, with `whichPsum`.
pub indexing_loop : ℕ → ℕ → ℕ → ReorderedR → ℕ → List Entry
indexing_loop zero i which ror hash1 = []
indexing_loop (suc n) i which ror hash1 =
    let here = get_or ror.p_sum_arr.psum which no_psum in
    let found = ltb which ror.p_sum_arr.psum_size && i == here.h1_res in
    (if found then bucket_entry (get_start_of_bucket ror which) hash1 i else null_entry i)
    ∷ indexing_loop n (i + 1) (if found then which + 1 else which) ror hash1

unfoldable pub indexing : ReorderedR → ℕ → IndexArray
indexing ror hash1 = record {
  indexes = indexing_loop (hash1_range hash1) 0 0 ror hash1;
  size = hash1_range hash1;
}
