-- ===== src/Reorder/Ready.antt =====
-- src/H1.c: what the placing of all tuples leaves is ready for the index and the search.
use mathlib.Core.Path.{subst}
use native.Mathlib.Nat.{two-pow-succ, one-le-pow, pow-le-pow_right}
use join_operator_software_d.Prelude.{
  ℕ, zero, suc, ◌+◌, ◌-◌, ◌/◌, ◌^◌, ◌≤◌, ◌<◌, ◌≡◌, refl, sym, ap, ◌∙◌, arith, List, [], ◌∷◌, inl,
  inr, Bool-cases, ltb, ltb_iff, ==_eq_false, length, get_or, All, weigh, SameBag, u64_mod,
}
use join_operator_software_d.Structs.{Tuple, Relation, ReorderedR}
use join_operator_software_d.Hashing.{hash1_range}
use join_operator_software_d.Index.Buckets.{Bucket, all_tuples, psum_of}
use join_operator_software_d.Histogram.{do_the_hash}
use join_operator_software_d.Histogram.Counts.{hash_at, Counts}
use join_operator_software_d.Histogram.Slices.{do_the_hash-Counts}
use join_operator_software_d.Search.Jobs.{IsSchedule}
use join_operator_software_d.Search.Result.{Prepared}
use join_operator_software_d.Search.Partition.{IsHashed}
use join_operator_software_d.Reorder.{Layout, empty_loop, layout, construct, shift_loop}
use join_operator_software_d.Reorder.Offsets.{start, start_zero, kept, entries, Filled}
use join_operator_software_d.Reorder.Layouts.{empty_loop-length, layout_lem}
use join_operator_software_d.Reorder.Segments.{flat, Sized, length-flat}
use join_operator_software_d.Reorder.Placing.{in_order, Placed, construct-flat}
use join_operator_software_d.Reorder.Orders.{
  length-in_order_hits, IsSchedule-All, flat-SameBag, get_or-hashes,
}
use join_operator_software_d.Reorder.Buckets.{
  buckets_of, length-buckets_of, psum_of-entries, all_tuples-buckets_of, kept-IncreasesFrom,
  kept-below, kept-not_empty, in_order-IsHashed, cut, length-cut, fresh-flat,
}

shift_loop-zero : (n a : ℕ) → shift_loop n 0 a ≡ a
unfolding shift_loop
shift_loop-zero zero a = refl
shift_loop-zero (suc n) a = refl

shift_loop-pow : (n k a : ℕ) → k < n → shift_loop n (2 ^ k) a ≡ a + k + 1
unfolding shift_loop
shift_loop-pow zero k a lt = absurd (omega (arith, lt))
shift_loop-pow (suc n) zero a lt = shift_loop-zero n (a + 1) ∙ omega arith
shift_loop-pow (suc n) (suc k) a lt =
    let half : 2 ^ suc k / 2 ≡ 2 ^ k = omega (arith, two-pow-succ k) in
    rw (==_eq_false (2 ^ suc k) 0 (λ e. absurd (omega (arith, e, two-pow-succ k, one-le-pow k 2))))
      (ap (λ (m : ℕ). shift_loop n m (a + 1)) half
        ∙ shift_loop-pow n k (a + 1) (omega (arith, lt))
        ∙ omega arith)

weigh-length : (xs : List Tuple) → weigh (λ t. 1) xs ≡ length xs
weigh-length [] = refl
weigh-length (x ∷ xs) = omega (arith, weigh-length xs)

-- What the reordering of `r` to `2 ^ e` buckets gives: the exponent, and buckets that are ready for
-- the index and the search, of which none is empty, and which hold the tuples of `r`.
pub record Reorders (r : Relation) (e : ℕ) (result : ReorderedR × ℕ) : Type 0 where
  pub exponent : result.1 ≡ e
  pub buckets : List Bucket
  pub ready : Prepared e buckets result.0
  pub no_empty : All (λ b. 0 < length b.tuples) buckets
  pub same : SameBag (all_tuples buckets) r.tuples

-- A relation that can be reordered, what is allocated for it, and an order of its tuples.
pub record Reorderable (r : Relation) (fresh : List Tuple) (order : List ℕ) : Type 0 where
  pub size_eq : r.size ≡ length r.tuples
  pub small : r.size < u64_mod
  pub allocated : length fresh ≡ r.size
  pub every : IsSchedule r.size order

module _ (r : Relation) (fresh : List Tuple) (order : List ℕ) (can : Reorderable r fresh order)
    (some_tuple : 0 < r.size) (range : ℕ) (positive : 0 < range) where
  abbrev counts : List ℕ
  counts = (do_the_hash r range 1).hist

  abbrev hash_values : List ℕ
  hash_values = (do_the_hash r range 1).hash_values

  abbrev segment : ℕ → List Tuple
  segment h = in_order r.tuples range h order

  counted : Counts r.tuples range 0 r.size (counts, hash_values)
  counted = do_the_hash-Counts r range 1 positive

  segment-Sized : Sized counts segment range
  segment-Sized h lt =
      length-in_order_hits r.tuples range h r.size order can.every ∙ sym (counted.counts h lt)

  segment-SameBag : SameBag (flat segment 0 range) r.tuples
  segment-SameBag =
      flat-SameBag r.tuples range order positive
        (subst (λ (n : ℕ). IsSchedule n order) can.size_eq can.every)

  total : start counts range ≡ r.size
  total =
      let z : 0 + range ≡ range = omega arith in
      omega (
        arith,
        weigh-length (flat segment 0 range),
        weigh-length r.tuples,
        segment-SameBag (λ t. 1),
        can.size_eq,
        start_zero counts,
        ap (start counts) z,
        length-flat counts segment 0 range (λ h lt. segment-Sized h (omega (arith, lt))),
      )

  abbrev bucket_count : ℕ
  bucket_count = empty_loop range counts 0 range

  abbrev laid : Layout
  laid = layout r.size range bucket_count counts

  abbrev placed : List ℕ × List Tuple
  placed = construct r range hash_values laid.help_psum order (counts, fresh)

  abbrev reordered : ReorderedR
  reordered = record {
    p_sum_arr = record { psum = laid.psum; psum_size = bucket_count };
    rel = record { tuples = placed.1; size = r.size };
  }

  bucket_count_eq : bucket_count ≡ length (kept counts 0 range)
  bucket_count_eq =
      let z : range ≡ 0 + range = omega arith in
      ap (empty_loop range counts 0) z ∙ empty_loop-length counts range 0 0 ∙ omega arith

  laid_lem : (laid.psum ≡ entries counts (kept counts 0 range)) × Filled counts laid.help_psum range
  laid_lem =
      subst
        (λ (n : ℕ).
          let l = layout r.size range n counts in
          (l.psum ≡ entries counts (kept counts 0 range)) × Filled counts l.help_psum range)
        (sym bucket_count_eq) (layout_lem counts r.size range some_tuple total)

  start-Placed : Placed r range counts order (λ h. []) (cut counts fresh) (counts, fresh)
  start-Placed =
      let fits : length fresh ≡ start counts range = can.allocated ∙ sym total in
      record {
        numbers = IsSchedule-All r.size order can.every;
        sized = counted.sized;
        left = λ h lt. sym (segment-Sized h lt);
        places_left = λ h lt. length-cut counts fresh h range lt fits ∙ sym (segment-Sized h lt);
        full = λ h lt. omega (arith, length-cut counts fresh h range lt fits);
        tuples_eq = fresh-flat counts fresh range fits;
      }

  placed-flat : placed.1 ≡ flat segment 0 range
  placed-flat =
      construct-flat r range counts hash_values laid.help_psum can.small positive laid_lem.1 total
        (λ i lt.
          ap (λ (vs : List ℕ). get_or vs i 0) counted.values
          ∙ get_or-hashes r.tuples range 0 r.size i lt
          ∙ ap (hash_at r.tuples range) (omega arith))
        order (λ h. []) (cut counts fresh) (counts, fresh) start-Placed

  pub reordered-Reorders :
      (e : ℕ) → e < 64 → range ≡ hash1_range e → Reorders r e (reordered, shift_loop 64 range 0 - 1)
  unfolding hash1_range
  reordered-Reorders e lt is_power =
      let bs = buckets_of segment (kept counts 0 range) in
      let all_eq : all_tuples bs ≡ flat segment 0 range =
        all_tuples-buckets_of counts range segment segment-Sized 0 range (omega arith) in
      let same : SameBag (all_tuples bs) r.tuples = λ f. ap (weigh f) all_eq ∙ segment-SameBag f in
      let size_eq : r.size ≡ length (all_tuples bs) =
        omega (
          arith,
          weigh-length (all_tuples bs),
          weigh-length r.tuples,
          same (λ t. 1),
          can.size_eq,
        ) in
      record {
        exponent =
            ap (λ (m : ℕ). shift_loop 64 m 0 - 1) is_power
            ∙ omega (arith, shift_loop-pow 64 e 0 lt);
        buckets = bs;
        ready = record {
          encodes = record {
            psum_eq =
                laid_lem.0
                ∙ sym (psum_of-entries counts range segment segment-Sized 0 range (omega arith))
                ∙ ap (λ (o : ℕ). psum_of o bs) (start_zero counts);
            psum_size_eq = bucket_count_eq ∙ sym (length-buckets_of segment (kept counts 0 range));
            tuples_eq = placed-flat ∙ sym all_eq;
            size_eq = size_eq;
          };
          increases = kept-IncreasesFrom counts range segment segment-Sized 0 range;
          hashed =
              subst (λ (n : ℕ). IsHashed n bs) is_power
                (in_order-IsHashed r.tuples range order (kept counts 0 range));
          below =
              subst (λ (n : ℕ). All (λ b. b.hash < n) bs) is_power
                (kept-below counts range segment segment-Sized 0 range (omega arith));
          small = omega (arith, can.small, size_eq);
        };
        no_empty = kept-not_empty counts range segment segment-Sized 0 range (omega arith);
        same = same;
      }

pub hash1_range_lem : (e : ℕ) → 2 ^ e ≡ hash1_range e
unfolding hash1_range
hash1_range_lem e = refl

pub exponent_small : (k : ℕ) → 2 ^ k < 2 ^ 64 → k < 64
exponent_small k lt = elim (Bool-cases (ltb k 64)) [
  | inl e ↦ (ltb_iff k 64).0 e
  | inr e ↦
      let above : 64 ≤ k = ground (arith, e) in
      absurd (omega (arith, lt, pow-le-pow_right {n = 2} (omega arith) {i = 64} {j = k} above))
]
