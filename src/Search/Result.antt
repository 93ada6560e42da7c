-- ===== src/Search/Result.antt =====
-- The search of a reordered relation in the index of another finds their join.
use mathlib.Core.List.{map}
use mathlib.Core.Path.{subst}
use native.Mathlib.Nat.{two-pow-succ, one-le-pow}
use native.Mathlib.Numerals.{add-one}
use join_operator_software_d.Prelude.{
  ℕ, zero, suc, ◌+◌, ◌/◌, ◌^◌, ◌<◌, ◌≡◌, refl, sym, ap, ◌∙◌, arith, ltb_eq_false, ==_refl, u64_mod,
  inl, inr, some, List, [], ◌∷◌, ◌++◌, append_assoc, append-nil, length, length-append, All,
  flat_map, weigh-append, SameBag,
}
use join_operator_software_d.Structs.{Tuple, ReorderedR, RowTuple, HeadResult}
use join_operator_software_d.Hashing.{hash1_range}
use join_operator_software_d.ResultList.{
  initialise_result_head, initialise_result_head_no_buff, clean_list_head,
}
use join_operator_software_d.ResultList.Contents.{
  rows, IsOpen, IsClosed, initialise_result_head-IsOpen, initialise_result_head_no_buff-IsClosed,
  clean_list_head-IsClosed, connect_result_list-IsClosed,
}
use join_operator_software_d.Index.{log2, log2_loop, indexing, Entry}
use join_operator_software_d.Index.Buckets.{
  Bucket, all_tuples, Encodes, IncreasesFrom, bucket_at, start_eq,
}
use join_operator_software_d.Index.Entries.{EntryFor, indexing-EntryFor}
use join_operator_software_d.Search.{
  search_key_rec, no_entry, probe_key, search_loop, search, join_bucket, connect_all,
  search_thread_ver,
}
use join_operator_software_d.Search.Chain.{join_rows}
use join_operator_software_d.Search.Probe.{
  join_rows-nil, search_key_rec_null, Gains, Gains-nil, Gains-trans, search_key_rec-Gains,
}
use join_operator_software_d.Search.Partition.{IsHashed, bucket_join, bucket_join_lem}
use join_operator_software_d.Search.Slices.{search_slice_lem}
use join_operator_software_d.Search.Jobs.{IsSchedule, count_from, run_jobs_lem}

-- A reordered relation with `2 ^ hash1` buckets: it holds the buckets, in the order of their
-- hashes, with the tuples of their hash.
pub record Prepared (hash1 : ℕ) (bs : List Bucket) (ror : ReorderedR) : Type 0 where
  pub encodes : Encodes bs ror
  pub increases : IncreasesFrom 0 bs
  pub hashed : IsHashed (hash1_range hash1) bs
  pub below : All (λ b. b.hash < hash1_range hash1) bs
  pub small : length (all_tuples bs) < u64_mod

-- A finished list whose rows are those of `spec`, in some order.
pub record Lists (spec : List RowTuple) (list : HeadResult) : Type 0 where
  pub closed : IsClosed list
  pub same : SameBag (rows list) spec

log2_loop_pow : (k fuel : ℕ) → k < fuel → log2_loop fuel (2 ^ k) ≡ k
unfolding log2_loop
log2_loop_pow k zero h = absurd (omega arith)
log2_loop_pow zero (suc fuel) h = refl
log2_loop_pow (suc k) (suc fuel) h =
    let half : 2 ^ suc k / 2 ≡ 2 ^ k = omega (arith, two-pow-succ k) in
    rw
      (
        ltb_eq_false (2 ^ suc k) 2 (omega (arith, two-pow-succ k, one-le-pow k 2)),
        half,
        log2_loop_pow k fuel (omega arith),
      )
      (add-one k)

-- The exponent is recovered from the size of the index array.
pub log2_pow : (k : ℕ) → k < 64 → log2 (hash1_range k) ≡ k
unfolding log2 hash1_range
log2_pow k h = log2_loop_pow k 64 h

size-indexing : (r : ReorderedR) (hash1 : ℕ) → (indexing r hash1).size ≡ hash1_range hash1
unfolding indexing
size-indexing r hash1 = refl

search_entry-Gains :
    (hash1 : ℕ) (bucket ts : List Tuple) (entry : Entry) (list : HeadResult)
    → EntryFor hash1 bucket entry
    → IsOpen list
    → Gains list (join_rows bucket ts) (search_key_rec (entry.0 ∷ entry.1) list ts hash1)
search_entry-Gains hash1 bucket ts entry list (inl c) v =
    search_key_rec-Gains hash1 bucket (entry.0 ∷ entry.1) list ts c v
search_entry-Gains hash1 bucket ts entry list (inr (e, null)) v =
    rw (e, join_rows-nil, search_key_rec_null hash1 entry.0 entry.1 list ts null) (Gains-nil list v)

module _ (hash1 : ℕ) (bs : List Bucket) (r s : ReorderedR) (small_hash : hash1 < 64)
    (ready : Prepared hash1 bs r) where
  probe_key-Gains :
      (before after : List Bucket) (c : Bucket) (list : HeadResult)
      → Encodes (before ++ c ∷ after) s
      → c.hash < hash1_range hash1
      → IsOpen list
      → Gains list
          (join_rows (bucket_at c.hash bs) c.tuples)
          (probe_key (indexing r hash1) s (length before) list)
  unfolding probe_key
  probe_key-Gains before after c list e lt v =
      let size_eq : log2 (indexing r hash1).size ≡ hash1 =
        ap log2 (size-indexing r hash1) ∙ log2_pow hash1 small_hash in
      rw (start_eq before after c s e, search_slice_lem before after c s e, size_eq)
        (search_entry-Gains hash1 _ c.tuples _ list
          (indexing-EntryFor bs r hash1 c.hash no_entry ready.encodes ready.small ready.increases
            lt)
          v)

  search_loop-Gains :
      (before cs : List Bucket) (which : ℕ) (list : HeadResult)
      → which ≡ length before
      → Encodes (before ++ cs) s
      → All (λ c. c.hash < hash1_range hash1) cs
      → IsOpen list
      → Gains list (bucket_join bs cs) (search_loop (length cs) which (indexing r hash1) s list)
  unfolding search_loop bucket_join
  search_loop-Gains before [] which list w e lt v = Gains-nil list v
  search_loop-Gains before (c ∷ cs) which list w e lt v =
      let again : (before ++ c ∷ []) ++ cs ≡ before ++ c ∷ cs = append_assoc before (c ∷ []) cs in
      let first = probe_key-Gains before cs c list e lt.0 v in
      rw w (
        Gains-trans _ _ _ first
          (search_loop-Gains (before ++ c ∷ []) cs (length before + 1) _
            (omega (arith, length-append {0} before (c ∷ []))) (rw again e) lt.1 first.adds.is_open)
          (λ f. sym (weigh-append f (join_rows (bucket_at c.hash bs) c.tuples) _)))

  -- Cleaning a list that was filled from an empty one.
  cleaned-Lists :
      (spec : List RowTuple) (list : HeadResult)
      → Gains initialise_result_head spec list
      → Lists spec (clean_list_head list)
  cleaned-Lists spec list g =
      let (closed, same) = clean_list_head-IsClosed list g.adds.is_open in
      record {
        closed = closed;
        same = λ f. rw (same, g.adds.appended, initialise_result_head-IsOpen.1) (g.same f);
      }

  join_bucket-Lists :
      (before after : List Bucket) (c : Bucket)
      → Encodes (before ++ c ∷ after) s
      → c.hash < hash1_range hash1
      → Lists
          (join_rows (bucket_at c.hash bs) c.tuples)
          (join_bucket (indexing r hash1) s (length before))
  unfolding join_bucket
  join_bucket-Lists before after c e lt =
      cleaned-Lists _ _ (probe_key-Gains before after c _ e lt initialise_result_head-IsOpen.0)

  connect_all-Lists :
      (before cs : List Bucket) (which : ℕ) (done : List RowTuple) (final : HeadResult)
      → which ≡ length before
      → Encodes (before ++ cs) s
      → All (λ c. c.hash < hash1_range hash1) cs
      → Lists done final
      → Lists (done ++ bucket_join bs cs) (
          connect_all final (map (join_bucket (indexing r hash1) s) (count_from which (length cs))))
  unfolding connect_all bucket_join
  connect_all-Lists before [] which done final w e lt l = rw append-nil l
  connect_all-Lists before (c ∷ cs) which done final w e lt l =
      let again : (before ++ c ∷ []) ++ cs ≡ before ++ c ∷ cs = append_assoc before (c ∷ []) cs in
      let job = join_bucket-Lists before cs c e lt.0 in
      let (closed, joint) = connect_result_list-IsClosed final _ l.closed job.closed in
      let here = join_rows (bucket_at c.hash bs) c.tuples in
      rw
        (
          w,
          ← append_assoc done here
              (flat_map (λ (b : Bucket). join_rows (bucket_at b.hash bs) b.tuples) cs),
        )
        (connect_all-Lists (before ++ c ∷ []) cs (length before + 1) (done ++ here) _
          (omega (arith, length-append {0} before (c ∷ []))) (rw again e) lt.1
          (record {
            closed = closed;
            same = λ f. rw joint (
                omega (
                  arith,
                  weigh-append {0} f (rows final)
                      (rows (join_bucket (indexing r hash1) s (length before))),
                  weigh-append {0} f done here,
                  l.same f,
                  job.same f,
                ));
          }))

module _ (hash1 : ℕ) (bs cs : List Bucket) (r s : ReorderedR) (small_hash : hash1 < 64)
    (ready_r : Prepared hash1 bs r) (ready_s : Prepared hash1 cs s) where
  joined : bucket_join bs cs ≡ join_rows (all_tuples bs) (all_tuples cs)
  joined =
      bucket_join_lem (hash1_range hash1) 0 bs cs ready_r.hashed ready_r.increases ready_s.hashed

  -- Under the same conditions on the two relations, the search in one thread ends with a finished
  -- list whose rows are those of their join, each as often as its pair of tuples occurs.
  pub search-Lists : Lists (join_rows (all_tuples bs) (all_tuples cs)) (search (indexing r hash1) s)
  unfolding search
  search-Lists = rw (← joined) (
      cleaned-Lists hash1 bs r s small_hash ready_r _ _ (
        subst
          (λ (n : ℕ).
            Gains initialise_result_head (bucket_join bs cs)
              (search_loop n 0 (indexing r hash1) s initialise_result_head))
          (sym ready_s.encodes.psum_size_eq)
          (search_loop-Gains hash1 bs r s small_hash ready_r [] cs 0 initialise_result_head refl
            ready_s.encodes ready_s.below initialise_result_head-IsOpen.0)))

  -- For two reordered relations with `2 ^ hash1` buckets, `hash1 < 64`, whose buckets stand in the
  -- order of their hashes and hold the tuples of their hash, and for any order in which every job
  -- runs exactly once, the search by jobs gets past its barrier and ends with a finished list whose
  -- rows are those of the join of the two relations, each as often as its pair of tuples occurs.
  pub search_thread_ver-Lists :
      (schedule : List ℕ)
      → IsSchedule (length cs) schedule
      → (list : HeadResult) × (search_thread_ver (indexing r hash1) s schedule ≡ some list)
        × Lists (join_rows (all_tuples bs) (all_tuples cs)) list
  unfolding search_thread_ver
  search_thread_ver-Lists schedule h =
      let n = s.p_sum_arr.psum_size in
      let final = λ (m : ℕ).
        connect_all initialise_result_head_no_buff
          (map (join_bucket (indexing r hash1) s) (count_from 0 m)) in
      (
        final n,
        rw (
          run_jobs_lem (indexing r hash1) s n schedule (rw ready_s.encodes.psum_size_eq h),
          ==_refl,
        ),
        rw (← joined) (
            subst (λ (m : ℕ). Lists (bucket_join bs cs) (final m))
              (sym ready_s.encodes.psum_size_eq)
              (connect_all-Lists hash1 bs r s small_hash ready_r [] cs 0 [] _ refl ready_s.encodes
                ready_s.below
                (record {
                  closed = initialise_result_head_no_buff-IsClosed.0;
                  same = λ f. rw initialise_result_head_no_buff-IsClosed.1;
                }))),
      )
