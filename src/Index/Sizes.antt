-- ===== src/Index/Sizes.antt =====
-- The sizes that `recomputeSizes` finds: the loops end with a part that is not empty and whose
-- index fits the cache.
use native.Mathlib.Nat.{pow-le-pow_right, mod-eq_of_lt}
use join_operator_software_d.Prelude.{
  ℕ, zero, suc, ◌+◌, ◌-◌, ◌/◌, ◌^◌, ◌≤◌, ◌<◌, ◌≡◌, refl, inl, inr, arith, false, leb, Bool-cases,
  leb_iff, ltb, ltb_iff, u64_mod, ◌*◌,
}
use join_operator_software_d.Structs.{cache_size}
use join_operator_software_d.Hashing.{hash2_range}
use join_operator_software_d.Index.{
  size_of_index, shrink, grow, recompute_sizes, initial_hash2, log2, log2_loop,
}

initial_hash2_eq : initial_hash2 ≡ 8
unfolding initial_hash2 log2 log2_loop
initial_hash2_eq = refl

shrink_lem :
    (fuel each hash2 : ℕ)
    → each < fuel
    → 0 < each
    → size_of_index 1 hash2 ≤ cache_size
    → (0 < shrink fuel each hash2)
      × (shrink fuel each hash2 ≤ each)
      × (size_of_index (shrink fuel each hash2) hash2 ≤ cache_size)
unfolding shrink size_of_index
shrink_lem zero each hash2 lt pos one = absurd (omega arith)
shrink_lem (suc fuel) each hash2 lt pos one = ground (arith, shrink_lem fuel (each / 2) hash2)

-- The bytes of an index, not as a 64-bit word but as they are.
abbrev pub index_bytes : ℕ → ℕ → ℕ
index_bytes size hash2 = 8 + size * 24 + 2 ^ hash2 * 8

size_of_index_exact :
    (each hash2 : ℕ)
    → each < 2 ^ 59
    → hash2 ≤ 14
    → size_of_index each hash2 ≡ index_bytes each hash2
unfolding size_of_index hash2_range
size_of_index_exact each hash2 lt le =
    mod-eq_of_lt {n = index_bytes each hash2} {m = u64_mod}
      (omega (arith, lt, pow-le-pow_right {n = 2} (omega arith) {i = hash2} {j = 14} le))

-- From `2 ^ 13` buckets on the bucket array alone is too large.
buckets_too_many : (each hash2 : ℕ) → index_bytes each hash2 ≤ cache_size → hash2 < 13
buckets_too_many each hash2 fits = elim (Bool-cases (ltb hash2 13)) [
  | inl e ↦ (ltb_iff hash2 13).0 e
  | inr e ↦
      let above : 13 ≤ hash2 = ground (arith, e) in
      absurd
        (omega (arith, fits, pow-le-pow_right {n = 2} (omega arith) {i = 13} {j = hash2} above))
]

grow_stop :
    (fuel each hash2 : ℕ) → cache_size < size_of_index each hash2 → grow fuel each hash2 ≡ hash2
unfolding grow
grow_stop zero each hash2 h = refl
grow_stop (suc fuel) each hash2 h = ground arith

-- With enough fuel the loop stops at the first second hash whose index is too large.
grow_lem :
    (fuel each hash2 : ℕ)
    → each < 2 ^ 59
    → 13 ≤ hash2 + fuel
    → index_bytes each hash2 ≤ cache_size
    → (hash2 < grow fuel each hash2)
      × (cache_size < index_bytes each (grow fuel each hash2))
      × (index_bytes each (grow fuel each hash2 - 1) ≤ cache_size)
unfolding grow
grow_lem zero each hash2 lt h fits = absurd (omega (arith, buckets_too_many each hash2 fits, h))
grow_lem (suc fuel) each hash2 lt h fits =
    let small : hash2 < 13 = buckets_too_many each hash2 fits in
    let here : size_of_index each hash2 ≤ cache_size =
      omega (arith, fits, size_of_index_exact each hash2 lt (omega (arith, small))) in
    let next = size_of_index_exact each (hash2 + 1) lt (omega (arith, small)) in
    rw ((leb_iff (size_of_index each hash2) cache_size).1 here)
      (elim (Bool-cases (leb (size_of_index each (hash2 + 1)) cache_size)) [
        | inl more ↦
            let still = (leb_iff (size_of_index each (hash2 + 1)) cache_size).0 more in
            let (below, large, last) =
              grow_lem fuel each (hash2 + 1) lt (omega (arith, h)) (omega (arith, next, still)) in
            (omega (arith, below), large, last)
        | inr stop ↦
            let large : cache_size < size_of_index each (hash2 + 1) = ground (arith, stop) in
            let back : hash2 + 1 - 1 ≡ hash2 = omega arith in
            rw (grow_stop fuel each (hash2 + 1) large)
              (omega arith, omega (arith, large, next), rw back fits)
      ])

-- The part that `recomputeSizes` finds, whether or not the sizes wrap.
pub record IsPart (size_all : ℕ) (sizes : ℕ × ℕ) : Type 0 where
  pub not_empty : 0 < sizes.0
  pub halved : sizes.0 ≤ size_all / 2

pub recompute_sizes-IsPart :
    (hash2 size_all : ℕ)
    → 1 < size_all
    → size_of_index 1 hash2 ≤ cache_size
    → IsPart size_all (recompute_sizes hash2 size_all)
unfolding recompute_sizes
recompute_sizes-IsPart hash2 size_all two one =
    let (pos, half, fits) =
      shrink_lem (size_all / 2 + 1) (size_all / 2) hash2 (omega arith) (omega arith) one in
    record { not_empty = pos; halved = half }

-- What `recomputeSizes` promises for a bucket that does not fit: a part of at least one tuple and
-- at most half the bucket, whose index fits the cache, with the largest bucket array that does.
pub record FitsCache (hash2 size_all : ℕ) (sizes : ℕ × ℕ) : Type 0 where
  pub part : IsPart size_all sizes
  pub fits : index_bytes sizes.0 sizes.1 ≤ cache_size
  pub largest : cache_size < index_bytes sizes.0 (sizes.1 + 1)
  pub grown : hash2 ≤ sizes.1

-- For a bucket of at least two tuples and fewer than 2^59, when an index of one tuple with the given
-- second hash fits the cache, both loops end: a part has at least one tuple and at most half the
-- bucket, its index fits the cache, and with one bit more in the second hash it does not.
pub recompute_sizes-FitsCache :
    (hash2 size_all : ℕ)
    → 1 < size_all
    → size_all < 2 ^ 59
    → index_bytes 1 hash2 ≤ cache_size
    → FitsCache hash2 size_all (recompute_sizes hash2 size_all)
unfolding recompute_sizes
recompute_sizes-FitsCache hash2 size_all two small one =
    let low : hash2 < 13 = buckets_too_many 1 hash2 one in
    let start : size_of_index 1 hash2 ≤ cache_size =
      omega (arith, one, size_of_index_exact 1 hash2 (omega arith) (omega (arith, low))) in
    let (pos, half, fits) =
      shrink_lem (size_all / 2 + 1) (size_all / 2) hash2 (omega arith) (omega arith) start in
    let each = shrink (size_all / 2 + 1) (size_all / 2) hash2 in
    let lt : each < 2 ^ 59 = omega (arith, small, half) in
    let same = size_of_index_exact each hash2 lt (omega (arith, low)) in
    let (more, large, last) = grow_lem 14 each hash2 lt (omega arith) (omega (arith, fits, same)) in
    let back : grow 14 each hash2 - 1 + 1 ≡ grow 14 each hash2 = omega (arith, more) in
    record {
      part = record { not_empty = pos; halved = half };
      fits = last;
      largest = rw back large;
      grown = omega (arith, more);
    }

-- Where `indexing` starts from, one tuple fits.
pub one_fits : size_of_index 1 initial_hash2 ≤ cache_size
unfolding size_of_index hash2_range
one_fits = rw initial_hash2_eq (omega arith)

-- A bucket that does not fit has more than one tuple.
pub two_of_large : (size : ℕ) → leb (size_of_index size initial_hash2) cache_size ≡ false → 1 < size
unfolding size_of_index hash2_range
two_of_large size h = let k = rw initial_hash2_eq at h in ground arith
