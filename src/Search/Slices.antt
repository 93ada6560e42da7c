-- ===== src/Search/Slices.antt =====
-- The slice of tuples that the search takes for a hash number is the bucket with that number.
use join_operator_software_d.Prelude.{
  ◌-◌, ◌≡◌, arith, ltb_iff, ltb_eq_false, List, [], ◌∷◌, ◌++◌, length, take-append,
}
use join_operator_software_d.Structs.{ReorderedR}
use join_operator_software_d.Index.Buckets.{
  Bucket, all_tuples, Encodes, start_eq, rest_eq, length_eq, count_eq, next_eq,
}
use join_operator_software_d.Search.{search_size, search_slice}

-- The size from the start of the next bucket, or from the end of the relation.
search_size_lem :
    (before after : List Bucket) (b : Bucket) (s : ReorderedR)
    → Encodes (before ++ b ∷ after) s
    → search_size s (length before) ≡ length b.tuples
unfolding search_size
search_size_lem before [] b s e =
    rw
      (
        start_eq before [] b s e,
        ltb_eq_false (length before) (s.p_sum_arr.psum_size - 1)
            (omega (arith, count_eq before [] b s e)),
      )
      (omega (arith, length_eq before [] b s e))
search_size_lem before (c ∷ after) b s e =
    rw
      (
        start_eq before (c ∷ after) b s e,
        (ltb_iff (length before) (s.p_sum_arr.psum_size - 1)).1
            (omega (arith, count_eq before (c ∷ after) b s e)),
        next_eq before after b c s e,
      )
      (omega arith)

-- In a reordered relation that holds a list of buckets, the tuples that the search takes for a hash
-- number are the bucket with that number, the last one included.
pub search_slice_lem :
    (before after : List Bucket) (b : Bucket) (s : ReorderedR)
    → Encodes (before ++ b ∷ after) s
    → search_slice s (length before) ≡ b.tuples
unfolding search_slice
search_slice_lem before after b s e =
    rw (search_size_lem before after b s e, start_eq before after b s e, rest_eq before after b s e)
      (take-append b.tuples (all_tuples after))
