-- ===== src/Reorder.antt =====
-- src/H1.c, with `Hash1` and `FindNextPower` of src/functions.c: the relation is laid out by buckets of
-- the first hash. The threads place tuples in any order: a list of tuple numbers is that order.
pub mod Powers
pub mod Offsets
pub mod Layouts
pub mod Segments
pub mod Placing
pub mod Orders
pub mod Buckets
pub mod Ready
pub mod Sorted
use join_operator_software_d.Prelude.{
  ℕ, zero, suc, ◌+◌, ◌-◌, ◌*◌, ◌/◌, ◌^◌, List, [], ◌∷◌, if◌then◌else◌, ◌==◌, ltb, get_or, set,
  replicate, sub64, u64_mod, ◌%◌,
}
use join_operator_software_d.Structs.{
  Tuple, Relation, PSumTuple, ReorderedR, available_cache_size, sizeof_tuple, first_reordered,
}
use join_operator_software_d.Index.{no_tuple, no_psum}
use join_operator_software_d.Histogram.{do_the_hash}

-- `while (power < number) power <<= 1;` with `n` rounds at most.
abbrev pub find_next_power_loop : ℕ → ℕ → ℕ → ℕ
find_next_power_loop zero number power = power
find_next_power_loop (suc n) number power =
    let rest = find_next_power_loop n number ((power * 2) % u64_mod) in
    if ltb power number then rest else power

-- 64 rounds reach every number up to 2^63; beyond that the power becomes 0 and the source's loop has no end.
unfoldable pub find_next_power : ℕ → ℕ
find_next_power number = find_next_power_loop 64 number 1

-- `while (hist[j] == 0) { helpPSum[j] = temp; j++; }` with `n` buckets left; the pair is `j` with
-- `helpPSum`.
pub skip_empty : ℕ → List ℕ → ℕ → ℕ × List ℕ → ℕ × List ℕ
skip_empty zero hist temp s = s
skip_empty (suc n) hist temp s =
    let rest = skip_empty n hist temp (s.0 + 1, set s.1 s.0 temp) in
    if get_or hist s.0 0 == 0 then rest else s

-- `for (i = 0; i < *hash1; i++) if (hist[i] == 0) buckets--;`
pub empty_loop : ℕ → List ℕ → ℕ → ℕ → ℕ
empty_loop zero hist i buckets = buckets
empty_loop (suc n) hist i buckets =
    empty_loop n hist (i + 1) (if get_or hist i 0 == 0 then buckets - 1 else buckets)

-- The variables of the loops that fill the prefix sums.
pub record Layout : Type 0 where
  pub psum : List PSumTuple
  pub help_psum : List ℕ
  pub j : ℕ
  pub prev_j : ℕ
  pub temp : ℕ

-- `for (i = 1; i < buckets; i++)`, with `n` rounds left.
pub psum_loop : ℕ → ℕ → ℕ → ℕ → List ℕ → Layout → Layout
psum_loop zero i hash1 buckets hist l = l
psum_loop (suc n) i hash1 buckets hist l =
    let s = skip_empty (hash1 - l.j) hist l.temp (l.j, l.help_psum) in
    let offset = (get_or l.psum (i - 1) no_psum).offset + get_or hist l.prev_j 0 in
    let next : Layout = record {
      psum = set l.psum i (record { h1_res = s.0; offset = offset });
      help_psum = set s.1 s.0 offset;
      j = s.0 + 1;
      prev_j = s.0;
      temp = if i == buckets - 1 then l.temp else l.temp + get_or hist s.0 0;
    } in
    let rest = psum_loop n (i + 1) hash1 buckets hist next in
    if s.0 == hash1 then record l { j = s.0; help_psum = s.1 } else rest

-- `for (; j < *hash1; j++) helpPSum[j] = size;` with `n` buckets left.
pub fill_loop : ℕ → ℕ → ℕ → List ℕ → List ℕ
fill_loop zero size j help = help
fill_loop (suc n) size j help = fill_loop n size (j + 1) (set help j size)

pub layout : ℕ → ℕ → ℕ → List ℕ → Layout
layout size hash1 buckets hist =
    let s = skip_empty hash1 hist 0 (0, replicate hash1 0) in
    let first : Layout = record {
      psum = set (replicate buckets no_psum) 0 (record { h1_res = s.0; offset = 0 });
      help_psum = set s.1 s.0 0;
      j = s.0 + 1;
      prev_j = s.0;
      temp = if ltb 0 (hash1 - 1) then get_or hist s.0 0 else size;
    } in
    let l = psum_loop (buckets - 1) 1 hash1 buckets hist first in
    record l { help_psum = fill_loop (hash1 - l.j) size l.j l.help_psum }

-- One round of `constructionJob`, for tuple `i`: the place counts back from the end of the bucket by
-- the entry of the histogram, which goes down. The pair is `hist` with `newR`.
pub construction_step :
    Relation → ℕ → List ℕ → List ℕ → ℕ → List ℕ × List Tuple → List ℕ × List Tuple
construction_step r hash1 hash_values help i s =
    let value = get_or hash_values i 0 in
    let temp = get_or s.0 value 0 in
    let end = if ltb value (hash1 - 1) then get_or help (value + 1) 0 else r.size in
    (set s.0 value (sub64 temp 1), set s.1 (sub64 end temp) (get_or r.tuples i no_tuple))

pub construct : Relation → ℕ → List ℕ → List ℕ → List ℕ → List ℕ × List Tuple → List ℕ × List Tuple
construct r hash1 hash_values help [] s = s
construct r hash1 hash_values help (i ∷ order) s =
    construct r hash1 hash_values help order (construction_step r hash1 hash_values help i s)

-- `while (*hash1) { *hash1 >>= 1; a++; }` with `n` rounds at most.
pub shift_loop : ℕ → ℕ → ℕ → ℕ
shift_loop zero hash1 a = a
shift_loop (suc n) hash1 a =
    let rest = shift_loop n (hash1 / 2) (a + 1) in if hash1 == 0 then a else rest

-- `margin n` is `floor(ERROR_MARGIN * n)`, in floating point.
module _ (margin : ℕ → ℕ) where
  -- The number of buckets that `Hash1` chooses.
  pub hash1_buckets : Relation → ℕ
  hash1_buckets r = find_next_power (margin (r.size * sizeof_tuple / available_cache_size) + 1)

  -- The reordered relation, with the exponent that is left in `*hash1`. `fresh` is what `malloc` leaves
  -- in the tuples, and `order` the order in which the threads place them.
  pub reorder_relation : List Tuple → List ℕ → Relation → ℕ → ReorderedR × ℕ
  reorder_relation fresh order r hash1 =
      let range = if hash1 == first_reordered then hash1_buckets r else 2 ^ hash1 in
      let h = do_the_hash r range 1 in
      let buckets = empty_loop range h.hist 0 range in
      let l = layout r.size range buckets h.hist in
      let placed = construct r range h.hash_values l.help_psum order (h.hist, fresh) in
      if r.size == 0
      then (
        record {
          p_sum_arr = record { psum = []; psum_size = 0 };
          rel = record { tuples = []; size = 0 };
        },
        hash1,
      )
      else (
        record {
          p_sum_arr = record { psum = l.psum; psum_size = buckets };
          rel = record { tuples = placed.1; size = r.size };
        },
        shift_loop 64 range 0 - 1,
      )
