-- ===== src/Index/Parts.antt =====
-- The indexes along the `next` pointers of an entry cover its bucket.
use join_operator_software_d.Prelude.{
  ℕ, zero, suc, ◌+◌, ◌-◌, ◌≤◌, ◌<◌, ◌≡◌, refl, sym, ap, ◌∙◌, arith, if◌then◌else◌, ltb, leb, inl,
  inr, Bool-cases, ltb_iff, u64_mod, List, [], ◌∷◌, ◌++◌, append-nil, length, length-append,
  take-append, take, drop, take-add, drop-add, length-drop, some,
}
use join_operator_software_d.Structs.{Tuple, RelationIndex, cache_size}
use join_operator_software_d.Hashing.{hash2_range}
use join_operator_software_d.Index.{
  initialize_index, build_index, get_start_of_sub_bucket, build_sub_index, size_of_index,
  recompute_sizes, initial_hash2, bucket_entry,
}
use join_operator_software_d.Index.Chains.{IsIndex, build_index-IsIndex}
use join_operator_software_d.Index.Sizes.{recompute_sizes-IsPart, one_fits, two_of_large}

-- An index of the tuples `part`, which stand at the start of a longer array.
pub record IndexOf (hash1 : ℕ) (part : List Tuple) (index : RelationIndex) : Type 0 where
  pub tuples : List Tuple
  pub size : ℕ
  pub second : ℕ
  pub is_index : IsIndex tuples hash1 second size index
  pub fits : size ≤ length tuples
  pub small : size < u64_mod
  pub part_eq : part ≡ take size tuples

-- The indexes along the `next` pointers cover the tuples of a bucket, part after part.
pub data Covers (hash1 : ℕ) : List Tuple → List RelationIndex → Type 0 where
  done : Covers hash1 [] []
  part :
      {xs rest all : List Tuple} {index : RelationIndex} {next : List RelationIndex}
      → IndexOf hash1 xs index
      → Covers hash1 rest next
      → all ≡ xs ++ rest
      → Covers hash1 all (index ∷ next)

-- The index that the code builds over a pointer into the tuples.
build-IndexOf :
    (hash1 hash2 key size : ℕ) (tuples : List Tuple)
    → size ≤ length tuples
    → size < u64_mod
    → IndexOf hash1 (take size tuples) (
        build_index
          (initialize_index
            (hash2_range hash2)
            (some (record { tuples = tuples; size = size }))
            key
            hash2)
          hash1
          hash2)
build-IndexOf hash1 hash2 key size tuples fits small = record {
  tuples = tuples;
  size = size;
  second = hash2;
  is_index = build_index-IsIndex tuples hash1 hash2 size key;
  fits = fits;
  small = small;
  part_eq = refl;
}

-- The loop over the parts of a bucket ends, given as much fuel as tuples are left and parts of at
-- least one tuple, and its indexes cover, part after part, the tuples that the first index left,
-- when these lie inside an array of fewer than 2^64 tuples.
pub build_sub_index-Covers :
    (fuel hash1 hash2 size_all each indexed : ℕ) (start : List Tuple) (i : ℕ)
    → size_all ≤ fuel
    → 0 < each
    → indexed + size_all ≤ length start
    → length start < u64_mod
    → Covers hash1
        (take size_all (drop indexed start))
        (build_sub_index fuel hash1 hash2 size_all each indexed start i)
unfolding build_sub_index get_start_of_sub_bucket
build_sub_index-Covers zero hash1 hash2 size_all each indexed start i f pos fits small =
    let e : size_all ≡ 0 = omega arith in rw e done
build_sub_index-Covers (suc fuel) hash1 hash2 zero each indexed start i f pos fits small = done
build_sub_index-Covers (suc fuel) hash1 hash2 (suc left) each indexed start i f pos fits small =
    let n = if ltb (suc left) each then suc left else each in
    let n_pos : 0 < n = ground arith in
    let n_le : n ≤ suc left = ground arith in
    let both : suc left ≡ n + (suc left - n) = omega arith in
    rw ((ltb_iff 0 (suc left)).1 (omega arith)) (
      part
        (build-IndexOf hash1 hash2 i n (drop indexed start)
          (omega (arith, length-drop {0} indexed start)) (omega arith))
        (build_sub_index-Covers fuel hash1 hash2 (suc left - n) n (indexed + n) start i
          (omega arith) n_pos (omega arith) small)
        (ap (λ (k : ℕ). take k (drop indexed start)) both
          ∙ take-add n (suc left - n) (drop indexed start)
          ∙ ap (λ (r : List Tuple). take n (drop indexed start) ++ take (suc left - n) r)
              (sym (drop-add indexed n start))))

-- Whether or not a bucket fits the cache, its entry covers it.
pub bucket_entry-Covers :
    (bucket rest : List Tuple) (hash1 i : ℕ)
    → length (bucket ++ rest) < u64_mod
    → let entry = bucket_entry (record { tuples = bucket ++ rest; size = length bucket }) hash1 i in
      Covers hash1 bucket (entry.0 ∷ entry.1)
unfolding bucket_entry get_start_of_sub_bucket
bucket_entry-Covers bucket rest hash1 i small =
    let n = length bucket in
    let fits : n ≤ length (bucket ++ rest) = omega (arith, length-append {0} bucket rest) in
    elim (Bool-cases (leb (size_of_index n initial_hash2) cache_size)) [
      | inl whole ↦ rw whole (
          part (build-IndexOf hash1 initial_hash2 i n (bucket ++ rest) fits (omega arith)) done
            (sym (append-nil _ ∙ take-append bucket rest)))
      | inr large ↦
          let sizes = recompute_sizes initial_hash2 n in
          let ok = recompute_sizes-IsPart initial_hash2 n (two_of_large n large) one_fits in
          let each_le : sizes.0 ≤ n = omega (arith, ok.halved) in
          let both : n ≡ sizes.0 + (n - sizes.0) = omega arith in
          rw large (
            part
              (build-IndexOf hash1 sizes.1 i sizes.0 (bucket ++ rest) (omega arith) (omega arith))
              (build_sub_index-Covers (n - sizes.0) hash1 sizes.1 (n - sizes.0) sizes.0 sizes.0
                (bucket ++ rest) i (omega arith) ok.not_empty (omega arith) small)
              (sym (take-append bucket rest)
                ∙ ap (λ (k : ℕ). take k (bucket ++ rest)) both
                ∙ take-add sizes.0 (n - sizes.0) (bucket ++ rest)))
    ]
