-- ===== src/Histogram.antt =====
-- src/functions.c: the histogram and the hash values of a relation, computed by slices, one for each
-- thread, and put together.
pub mod Counts
pub mod Slices
use join_operator_software_d.Prelude.{
  ℕ, zero, suc, ◌+◌, ◌-◌, ◌*◌, ◌/◌, ◌<◌, List, [], ◌++◌, if◌then◌else◌, ◌==◌, ltb, get_or, set,
  store, take, replicate,
}
use join_operator_software_d.Structs.{Tuple, Relation, available_cache_size, sizeof_tuple}
use join_operator_software_d.Hashing.{hash1_2}
use join_operator_software_d.Index.{no_tuple}

abbrev pub numb_of_threads : ℕ
numb_of_threads = 7

-- What a job fills in of its `content`.
pub record Content : Type 0 where
  pub from : ℕ
  pub to : ℕ
  pub hist : List ℕ
  pub hash_values : List ℕ

-- `for (i = from; i < to; i++)`, with `n` rounds left; the pair is `hist` with `hash_values`.
pub histogram_loop : List Tuple → ℕ → ℕ → ℕ → ℕ → List ℕ × List ℕ → List ℕ × List ℕ
histogram_loop t hash1 from zero i s = s
histogram_loop t hash1 from (suc n) i s =
    let value = hash1_2 (get_or t i no_tuple).key hash1 in
    histogram_loop t hash1 from n (i + 1)
      (set s.0 value (get_or s.0 value 0 + 1), store s.1 (i - from) value)

unfoldable pub histogram_job : List Tuple → ℕ → ℕ → ℕ → Content
histogram_job t hash1 from to =
    let s = histogram_loop t hash1 from (to - from) from (replicate hash1 0, []) in
    record { from = from; to = to; hist = s.0; hash_values = s.1 }

-- `for (i = 0; i < hash1; i++) hist[i] += contents[j]->hist[i];` with `n` rounds left.
pub add_loop : ℕ → ℕ → List ℕ → List ℕ → List ℕ
add_loop zero i other hist = hist
add_loop (suc n) i other hist =
    add_loop n (i + 1) other (set hist i (get_or hist i 0 + get_or other i 0))

-- The bounds of the slice of thread `i` of `threads`.
abbrev pub slice_from : ℕ → ℕ → ℕ → ℕ
slice_from threads size i = i * (size / threads)

abbrev pub slice_to : ℕ → ℕ → ℕ → ℕ
slice_to threads size i = if i == threads - 1 then size else (i + 1) * (size / threads)

-- The slices from `j` on are added, `n` of them.
unfoldable pub gather : ℕ → Relation → ℕ → ℕ → ℕ → List ℕ × List ℕ → List ℕ × List ℕ
gather threads r hash1 zero j s = s
gather threads r hash1 (suc n) j s =
    let c =
      histogram_job r.tuples hash1 (slice_from threads r.size j) (slice_to threads r.size j) in
    gather threads r hash1 n (j + 1)
      (add_loop hash1 0 c.hist s.0, s.1 ++ take (c.to - c.from) c.hash_values)

-- The buckets that are too large, with the sum of their sizes.
pub bad_loop : ℕ → List ℕ → ℕ → ℕ → ℕ × ℕ → ℕ × ℕ
bad_loop max_bucket_size hist zero i s = s
bad_loop max_bucket_size hist (suc n) i s =
    let value = get_or hist i 0 in
    bad_loop max_bucket_size hist n (i + 1)
      (if ltb max_bucket_size value then (s.0 + 1, s.1 + value) else s)

pub record Hashed : Type 0 where
  pub hist : List ℕ
  pub hash_values : List ℕ
  pub max : ℕ
  pub bad : ℕ

-- `DoTheHash`: the first slice is copied and the others are added.
unfoldable pub do_the_hash : Relation → ℕ → ℕ → Hashed
do_the_hash r hash1 trivial =
    let c =
      histogram_job r.tuples hash1 (slice_from numb_of_threads r.size 0)
        (slice_to numb_of_threads r.size 0) in
    let s =
      gather numb_of_threads r hash1 (numb_of_threads - 1) 1
        (take hash1 c.hist, take (c.to - c.from) c.hash_values) in
    let b = bad_loop (available_cache_size / sizeof_tuple) s.0 hash1 0 (0, 0) in
    if trivial == 0
    then record { hist = s.0; hash_values = s.1; max = b.1; bad = b.0 }
    else record { hist = s.0; hash_values = s.1; max = 0; bad = 0 }
