-- ===== src/Index/Entries.antt =====
-- The index array: entry `h` indexes the bucket of hash `h`, and is null where there is none.
use native.Mathlib.Decide.{ℕ_discrete}
use join_operator_software_d.Prelude.{
  ℕ, zero, suc, ◌+◌, ◌<◌, ◌≡◌, refl, ap, ◌⊎◌, inl, inr, arith, ltb, ltb_iff, ltb_eq_false, ◌==◌,
  ==_refl, ==_iff, ==_eq_false, ◌&&◌, false, u64_mod, none, List, [], ◌∷◌, ◌++◌, append-nil,
  append_assoc, length, length-append, get_or, flat_map-append,
}
use join_operator_software_d.Structs.{Tuple, ReorderedR}
use join_operator_software_d.Hashing.{hash1_range}
use join_operator_software_d.Index.{
  no_psum, initialize_index, Entry, null_entry, bucket_entry, get_start_of_bucket, indexing_loop,
  indexing,
}
use join_operator_software_d.Index.Buckets.{
  Bucket, all_tuples, Encodes, IncreasesFrom, IncreasesFrom-le, bucket_at, bucket_at_below,
  bucket_at_self, bucket_at_ne, get_start_of_bucket_lem, start_eq, count_eq,
}
use join_operator_software_d.Index.Parts.{Covers, bucket_entry-Covers}

-- An entry for the tuples of a bucket: its indexes cover them, or there are none and it is null.
abbrev pub EntryFor : ℕ → List Tuple → Entry → Type 0
EntryFor hash1 bucket entry =
    Covers hash1 bucket (entry.0 ∷ entry.1) ⊎ ((bucket ≡ []) × (entry.0.rel ≡ none))

null_entry-EntryFor :
    (hash1 i : ℕ) (bucket : List Tuple) → bucket ≡ [] → EntryFor hash1 bucket (null_entry i)
unfolding null_entry initialize_index
null_entry-EntryFor hash1 i bucket e = inr (e, refl)

bucket_entry-EntryFor :
    (before after : List Bucket) (b : Bucket) (ror : ReorderedR) (hash1 i : ℕ)
    → Encodes (before ++ b ∷ after) ror
    → length (all_tuples (before ++ b ∷ after)) < u64_mod
    → EntryFor hash1 b.tuples (bucket_entry (get_start_of_bucket ror (length before)) hash1 i)
bucket_entry-EntryFor before after b ror hash1 i e small =
    rw (get_start_of_bucket_lem before after b ror e) (
      inl (
        bucket_entry-Covers b.tuples (all_tuples after) hash1 i (
          omega (
            arith,
            ap length (flat_map-append (λ (c : Bucket). c.tuples) before (b ∷ after)),
            length-append {0} (all_tuples before) (b.tuples ++ all_tuples after),
          ))))

-- The test of the loop at a bucket: it is in range, and its hash is compared.
found_eq :
    (before after : List Bucket) (b : Bucket) (ror : ReorderedR) (i : ℕ)
    → Encodes (before ++ b ∷ after) ror
    → (ltb (length before) ror.p_sum_arr.psum_size
        && i == (get_or ror.p_sum_arr.psum (length before) no_psum).h1_res)
      ≡ (i == b.hash)
found_eq before after b ror i e = rw (
  start_eq before after b ror e,
  (ltb_iff (length before) ror.p_sum_arr.psum_size).1
      (omega (arith, count_eq before after b ror e)),
)

-- Behind the last bucket nothing is found.
not_found_eq :
    (before : List Bucket) (ror : ReorderedR)
    → Encodes (before ++ []) ror
    → ltb (length before) ror.p_sum_arr.psum_size ≡ false
not_found_eq before ror e =
    ltb_eq_false (length before) ror.p_sum_arr.psum_size
      (omega (arith, e.psum_size_eq, ap length (append-nil before)))

module _ (ror : ReorderedR) (hash1 : ℕ) where
  indexing_loop-EntryFor :
      (n i j which : ℕ) (before bs : List Bucket) (d : Entry)
      → which ≡ length before
      → Encodes (before ++ bs) ror
      → length (all_tuples (before ++ bs)) < u64_mod
      → IncreasesFrom i bs
      → j < n
      → EntryFor hash1 (bucket_at (i + j) bs) (get_or (indexing_loop n i which ror hash1) j d)
  unfolding indexing_loop
  indexing_loop-EntryFor zero i j which before bs d w e small s lt = absurd (omega arith)
  indexing_loop-EntryFor (suc n) i zero which before [] d w e small s lt =
      rw (w, not_found_eq before ror e)
        (null_entry-EntryFor hash1 i _ (bucket_at_below _ (i + 1) [] (omega arith) tt))
  indexing_loop-EntryFor (suc n) i (suc j) which before [] d w e small s lt =
      let move : i + suc j ≡ i + 1 + j = omega arith in
      rw (w, not_found_eq before ror e, move)
        (indexing_loop-EntryFor n (i + 1) j (length before) before [] d refl e small tt
          (omega arith))
  indexing_loop-EntryFor (suc n) i zero which before (b ∷ bs) d w e small s lt =
      let move : i + 0 ≡ i = omega arith in
      elim (ℕ_discrete i b.hash) [
        | yes here ↦
            rw (move, w, found_eq before bs b ror i e, here, ==_refl b.hash, bucket_at_self)
              (bucket_entry-EntryFor before bs b ror hash1 b.hash e small)
        | no later ↦
            rw (move, w, found_eq before bs b ror i e, ==_eq_false i b.hash later)
              (null_entry-EntryFor hash1 i _
                (bucket_at_below i (i + 1) (b ∷ bs) (omega arith) (omega arith, s.1)))
      ]
  indexing_loop-EntryFor (suc n) i (suc j) which before (b ∷ bs) d w e small s lt =
      let move : i + suc j ≡ i + 1 + j = omega arith in
      let again : (before ++ b ∷ []) ++ bs ≡ before ++ b ∷ bs = append_assoc before (b ∷ []) bs in
      elim (ℕ_discrete i b.hash) [
        | yes here ↦
            rw
              (
                move,
                w,
                found_eq before bs b ror i e,
                (==_iff i b.hash).1 here,
                bucket_at_ne (i + 1 + j) b bs (omega arith),
              )
              (indexing_loop-EntryFor n (i + 1) j (length before + 1) (before ++ b ∷ []) bs d
                (omega (arith, length-append {0} before (b ∷ []))) (rw again e) (rw again small)
                (IncreasesFrom-le (i + 1) (b.hash + 1) bs (omega arith) s.1) (omega arith))
        | no later ↦
            rw (move, w, found_eq before bs b ror i e, ==_eq_false i b.hash later)
              (indexing_loop-EntryFor n (i + 1) j (length before) before (b ∷ bs) d refl e small
                (omega arith, s.1) (omega arith))
      ]

pub indexing-EntryFor :
    (bs : List Bucket) (ror : ReorderedR) (hash1 h : ℕ) (d : Entry)
    → Encodes bs ror
    → length (all_tuples bs) < u64_mod
    → IncreasesFrom 0 bs
    → h < hash1_range hash1
    → EntryFor hash1 (bucket_at h bs) (get_or (indexing ror hash1).indexes h d)
unfolding indexing
indexing-EntryFor bs ror hash1 h d e small s lt =
    let move : 0 + h ≡ h = omega arith in
    rw move at
      (indexing_loop-EntryFor ror hash1 (hash1_range hash1) 0 h 0 [] bs d refl e small s lt)
