-- ===== src/Histogram/Slices.antt =====
-- src/functions.c: the slices of the threads, put together, are the histogram of the whole relation.
use mathlib.Core.Path.{subst}
use native.Mathlib.Decide.{ℕ_discrete}
use native.Mathlib.Nat.{mul-div-le, mul-le-mul_right, add-mul, zero-mul}
use join_operator_software_d.Prelude.{
  ℕ, zero, suc, ◌+◌, ◌-◌, ◌*◌, ◌/◌, ◌≤◌, ◌<◌, ◌≡◌, refl, sym, ap, ◌∙◌, arith, true, false, List,
  ◌++◌, ◌==◌, ==_iff, ==_eq_false, length, take, take_all,
}
use join_operator_software_d.Structs.{Tuple, Relation}
use join_operator_software_d.Histogram.{
  histogram_job, add_loop, slice_from, gather, numb_of_threads, do_the_hash,
}
use join_operator_software_d.Histogram.Counts.{
  hits, hashes, length-hashes, hits-add, hashes-add, Counts, histogram_job-Counts, add_loop_lem,
}

-- A slice is added to what stands before it.
add-Counts :
    (t : List Tuple) (hash1 m n : ℕ) (s c : List ℕ × List ℕ)
    → Counts t hash1 0 m s
    → Counts t hash1 m n c
    → Counts t hash1 0 (m + n) (add_loop hash1 0 c.0 s.0, s.1 ++ take n c.1)
add-Counts t hash1 m n s c before here =
    let added = add_loop_lem hash1 0 c.0 s.0 (omega (arith, before.sized)) in
    let all : take n c.1 ≡ c.1 =
      take_all n c.1 (omega (arith, ap length here.values, length-hashes t hash1 m n)) in
    let z : 0 + m ≡ m = omega arith in
    record {
      sized = added.0 ∙ before.sized;
      counts = λ k lt. omega (
        arith,
        added.1 k (omega arith) (omega (arith, lt)),
        before.counts k lt,
        here.counts k lt,
        hits-add t hash1 k 0 m n,
        ap (λ (i : ℕ). hits t hash1 k i n) z,
      );
      values =
          ap (λ (vs : List ℕ). s.1 ++ vs) (all ∙ here.values)
          ∙ ap (λ (vs : List ℕ). vs ++ hashes t hash1 m n) before.values
          ∙ ap (λ (i : ℕ). hashes t hash1 0 m ++ hashes t hash1 i n) (sym z)
          ∙ sym (hashes-add t hash1 0 m n);
    }

-- The slice that ends at `to` brings the counts from the start of the slice to its end.
slice-Counts :
    (t : List Tuple) (hash1 from to : ℕ) (s : List ℕ × List ℕ)
    → 0 < hash1
    → from ≤ to
    → Counts t hash1 0 from s
    → let c = histogram_job t hash1 from to in
      Counts t hash1 0 to (add_loop hash1 0 c.hist s.0, s.1 ++ take (c.to - c.from) c.hash_values)
unfolding histogram_job
slice-Counts t hash1 from to s pos le before =
    let c = histogram_job t hash1 from to in
    let e : from + (to - from) ≡ to = omega (arith, le) in
    subst
      (λ (l : ℕ).
        Counts t hash1 0 l (add_loop hash1 0 c.hist s.0, s.1 ++ take (to - from) c.hash_values))
      e
      (add-Counts t hash1 from (to - from) s (c.hist, c.hash_values) before
        (histogram_job-Counts t hash1 from to pos le))

-- The slices before the last are full.
slices_fit : (threads size j : ℕ) → j < threads → (j + 1) * (size / threads) ≤ size
slices_fit threads size j lt = omega (
  arith,
  mul-le-mul_right {m = j + 1} {n = threads} (size / threads) (omega (arith, lt)),
  mul-div-le size threads,
)

gather-Counts :
    (threads : ℕ) (r : Relation) (hash1 n j : ℕ) (s : List ℕ × List ℕ)
    → 0 < hash1
    → j + suc n ≡ threads
    → Counts r.tuples hash1 0 (slice_from threads r.size j) s
    → Counts r.tuples hash1 0 r.size (gather threads r hash1 (suc n) j s)
unfolding gather
gather-Counts threads r hash1 zero j s pos e before =
    let last : (j == threads - 1) ≡ true = (==_iff j (threads - 1)).1 (omega (arith, e)) in
    let le : j * (r.size / threads) ≤ r.size =
      omega
        (arith, slices_fit threads r.size j (omega (arith, e)), add-mul j 1 (r.size / threads)) in
    rw last (slice-Counts r.tuples hash1 (j * (r.size / threads)) r.size s pos le before)
gather-Counts threads r hash1 (suc n) j s pos e before =
    let q = r.size / threads in
    let more : (j == threads - 1) ≡ false =
      ==_eq_false j (threads - 1) (λ f. absurd (omega (arith, e, f))) in
    let le : j * q ≤ (j + 1) * q = omega (arith, add-mul j 1 q) in
    let c = histogram_job r.tuples hash1 (j * q) ((j + 1) * q) in
    rw more (
      gather-Counts threads r hash1 n (j + 1)
        (add_loop hash1 0 c.hist s.0, s.1 ++ take (c.to - c.from) c.hash_values) pos
        (omega (arith, e)) (slice-Counts r.tuples hash1 (j * q) ((j + 1) * q) s pos le before))

-- The first slice is copied.
first-Counts :
    (t : List Tuple) (hash1 from to : ℕ)
    → 0 < hash1
    → from ≡ 0
    → let c = histogram_job t hash1 from to in
      Counts t hash1 0 to (take hash1 c.hist, take (c.to - c.from) c.hash_values)
unfolding histogram_job
first-Counts t hash1 from to pos z =
    let c = histogram_job t hash1 from to in
    let h = histogram_job-Counts t hash1 from to pos (omega (arith, z)) in
    let all =
      take_all (to - from) c.hash_values
        (omega (arith, ap length h.values, length-hashes t hash1 from (to - from))) in
    let e : to - from ≡ to = omega (arith, z) in
    rw (take_all hash1 c.hist (sym h.sized), all)
      (subst (λ (i : ℕ). Counts t hash1 i to (c.hist, c.hash_values)) z
        (subst (λ (n : ℕ). Counts t hash1 from n (c.hist, c.hash_values)) e h))

-- For any number of tuples and at least one bucket, the histogram that the threads put together has
-- an entry for each hash value, which counts the tuples of the relation with that value, and the
-- hash values stand in the order of the tuples.
pub do_the_hash-Counts :
    (r : Relation) (hash1 trivial : ℕ)
    → 0 < hash1
    → let h = do_the_hash r hash1 trivial in Counts r.tuples hash1 0 r.size (h.hist, h.hash_values)
unfolding do_the_hash
do_the_hash-Counts r hash1 trivial pos =
    let q = r.size / numb_of_threads in
    let c = histogram_job r.tuples hash1 (0 * q) ((0 + 1) * q) in
    let s : List ℕ × List ℕ = (take hash1 c.hist, take (c.to - c.from) c.hash_values) in
    let all =
      gather-Counts numb_of_threads r hash1 5 1 s pos refl
        (first-Counts r.tuples hash1 (0 * q) ((0 + 1) * q) pos (zero-mul q)) in
    elim (ℕ_discrete trivial 0) [
      | yes e ↦ rw ((==_iff trivial 0).1 e) all
      | no ne ↦ rw (==_eq_false trivial 0 ne) all
    ]
