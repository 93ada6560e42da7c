-- ===== src/Reorder/Buckets.antt =====
-- src/H1.c: the hashes that have tuples, with the tuples placed for each, are the buckets of the
-- reordered relation.
use native.Mathlib.Decide.{ℕ_discrete}
use join_operator_software_d.Prelude.{
  ℕ, zero, suc, ◌+◌, ◌-◌, ◌≤◌, ◌<◌, ◌≡◌, refl, sym, ap, ◌∙◌, arith, inl, inr, Bool-cases, List, [],
  ◌∷◌, ◌++◌, append-nil, append_assoc, ◌==◌, ==_iff, ==_eq_false, length, length-take, length-drop,
  take, drop, take-append-drop, drop-add, get_or, All,
}
use join_operator_software_d.Structs.{Tuple, PSumTuple}
use join_operator_software_d.Index.Buckets.{
  Bucket, all_tuples, psum_of, IncreasesFrom, IncreasesFrom-le,
}
use join_operator_software_d.Search.Partition.{HasHash, IsHashed}
use join_operator_software_d.Histogram.Counts.{hash_at}
use join_operator_software_d.Reorder.Offsets.{start, start_zero, start_next, kept, entries}
use join_operator_software_d.Reorder.Segments.{flat, Sized, start-le}
use join_operator_software_d.Reorder.Placing.{in_order, no_places}

-- The buckets of some hashes.
abbrev pub buckets_of : (ℕ → List Tuple) → List ℕ → List Bucket
buckets_of f [] = []
buckets_of f (h ∷ hs) = record { hash = h; tuples = f h } ∷ buckets_of f hs

pub length-buckets_of : (f : ℕ → List Tuple) (hs : List ℕ) → length (buckets_of f hs) ≡ length hs
length-buckets_of f [] = refl
length-buckets_of f (h ∷ hs) = ap suc (length-buckets_of f hs)

module _ (counts : List ℕ) (range : ℕ) (f : ℕ → List Tuple) (sized : Sized counts f range) where
  pub psum_of-entries :
      (i n : ℕ)
      → i + n ≤ range
      → psum_of (start counts i) (buckets_of f (kept counts i n)) ≡ entries counts (kept counts i n)
  unfolding kept
  psum_of-entries i zero le = refl
  psum_of-entries i (suc n) le = elim (ℕ_discrete (get_or counts i 0) 0) [
    | yes e ↦
        let level : start counts i ≡ start counts (i + 1) = omega (arith, start_next counts i, e) in
        rw ((==_iff (get_or counts i 0) 0).1 e) (
          ap (λ (o : ℕ). psum_of o (buckets_of f (kept counts (i + 1) n))) level
          ∙ psum_of-entries (i + 1) n (omega (arith, le)))
    | no ne ↦
        let next : start counts i + length (f i) ≡ start counts (i + 1) =
          omega (arith, start_next counts i, sized i (omega (arith, le))) in
        rw (==_eq_false (get_or counts i 0) 0 ne) (
          ap (λ (es : List PSumTuple). record { h1_res = i; offset = start counts i } ∷ es)
            (ap (λ (o : ℕ). psum_of o (buckets_of f (kept counts (i + 1) n))) next
              ∙ psum_of-entries (i + 1) n (omega (arith, le))))
  ]

  pub all_tuples-buckets_of :
      (i n : ℕ) → i + n ≤ range → all_tuples (buckets_of f (kept counts i n)) ≡ flat f i n
  unfolding kept
  all_tuples-buckets_of i zero le = refl
  all_tuples-buckets_of i (suc n) le = elim (ℕ_discrete (get_or counts i 0) 0) [
    | yes e ↦
        let nothing : f i ≡ [] = no_places (f i) (sized i (omega (arith, le)) ∙ e) in
        rw ((==_iff (get_or counts i 0) 0).1 e) (
          all_tuples-buckets_of (i + 1) n (omega (arith, le))
          ∙ ap (λ (xs : List Tuple). xs ++ flat f (i + 1) n) (sym nothing))
    | no ne ↦
        rw (==_eq_false (get_or counts i 0) 0 ne) (
          ap (λ (xs : List Tuple). f i ++ xs) (all_tuples-buckets_of (i + 1) n (omega (arith, le))))
  ]

  pub kept-IncreasesFrom : (i n : ℕ) → IncreasesFrom i (buckets_of f (kept counts i n))
  unfolding kept
  kept-IncreasesFrom i zero = tt
  kept-IncreasesFrom i (suc n) = elim (Bool-cases (get_or counts i 0 == 0)) [
    | inl e ↦ rw e (
        IncreasesFrom-le i (i + 1) (buckets_of f (kept counts (i + 1) n)) (omega arith)
          (kept-IncreasesFrom (i + 1) n))
    | inr e ↦ rw e (omega arith, kept-IncreasesFrom (i + 1) n)
  ]

  pub kept-below :
      (i n : ℕ) → i + n ≤ range → All (λ b. b.hash < range) (buckets_of f (kept counts i n))
  unfolding kept
  kept-below i zero le = tt
  kept-below i (suc n) le = elim (Bool-cases (get_or counts i 0 == 0)) [
    | inl e ↦ rw e (kept-below (i + 1) n (omega (arith, le)))
    | inr e ↦ rw e (omega (arith, le), kept-below (i + 1) n (omega (arith, le)))
  ]

  -- A hash without tuples has no bucket.
  pub kept-not_empty :
      (i n : ℕ) → i + n ≤ range → All (λ b. 0 < length b.tuples) (buckets_of f (kept counts i n))
  unfolding kept
  kept-not_empty i zero le = tt
  kept-not_empty i (suc n) le = elim (ℕ_discrete (get_or counts i 0) 0) [
    | yes e ↦ rw ((==_iff (get_or counts i 0) 0).1 e) (kept-not_empty (i + 1) n (omega (arith, le)))
    | no ne ↦ rw (==_eq_false (get_or counts i 0) 0 ne) (
      omega (arith, ne, sized i (omega (arith, le))),
      kept-not_empty (i + 1) n (omega (arith, le)),
    )
  ]

in_order-HasHash :
    (t : List Tuple) (range h : ℕ) (order : List ℕ)
    → All (HasHash range h) (in_order t range h order)
in_order-HasHash t range h [] = tt
in_order-HasHash t range h (i ∷ order) = elim (ℕ_discrete (hash_at t range i) h) [
  | yes e ↦ rw ((==_iff (hash_at t range i) h).1 e) (e, in_order-HasHash t range h order)
  | no ne ↦ rw (==_eq_false (hash_at t range i) h ne) (in_order-HasHash t range h order)
]

pub in_order-IsHashed :
    (t : List Tuple) (range : ℕ) (order hs : List ℕ)
    → IsHashed range (buckets_of (λ h. in_order t range h order) hs)
in_order-IsHashed t range order [] = tt
in_order-IsHashed t range order (h ∷ hs) =
    (in_order-HasHash t range h order, in_order-IsHashed t range order hs)

-- The allocated tuples, cut into the segments.
module _ (counts : List ℕ) (fresh : List Tuple) where
  abbrev pub cut : ℕ → List Tuple
  cut h = take (get_or counts h 0) (drop (start counts h) fresh)

  pub length-cut :
      (h range : ℕ)
      → h < range
      → length fresh ≡ start counts range
      → length (cut h) ≡ get_or counts h 0
  length-cut h range lt e =
      let move : h + 1 + (range - (h + 1)) ≡ range = omega (arith, lt) in
      omega (
        arith,
        length-take {0} (get_or counts h 0) (drop (start counts h) fresh),
        length-drop {0} (start counts h) fresh,
        start_next counts h,
        start-le counts (h + 1) (range - (h + 1)),
        ap (start counts) move,
        e,
      )

  drop-flat :
      (i n : ℕ) → drop (start counts i) fresh ≡ flat cut i n ++ drop (start counts (i + n)) fresh
  drop-flat i zero =
      let z : i ≡ i + 0 = omega arith in ap (λ (k : ℕ). drop (start counts k) fresh) z
  drop-flat i (suc n) =
      let c = get_or counts i 0 in
      let move : i + 1 + n ≡ i + suc n = omega arith in
      sym (take-append-drop c (drop (start counts i) fresh))
      ∙ ap (λ (xs : List Tuple). cut i ++ xs)
          (sym (drop-add (start counts i) c fresh)
            ∙ ap (λ (k : ℕ). drop k fresh) (sym (start_next counts i))
            ∙ drop-flat (i + 1) n
            ∙ ap (λ (k : ℕ). flat cut (i + 1) n ++ drop (start counts k) fresh) move)
      ∙ sym (append_assoc (cut i) (flat cut (i + 1) n) (drop (start counts (i + suc n)) fresh))

  pub fresh-flat : (range : ℕ) → length fresh ≡ start counts range → fresh ≡ flat cut 0 range
  fresh-flat range e =
      let z : 0 + range ≡ range = omega arith in
      let rest : drop (start counts (0 + range)) fresh ≡ [] =
        no_places (drop (start counts (0 + range)) fresh) (
          omega
            (arith, length-drop {0} (start counts (0 + range)) fresh, e, ap (start counts) z)) in
      ap (λ (k : ℕ). drop k fresh) (sym (start_zero counts))
      ∙ drop-flat 0 range
      ∙ ap (λ (xs : List Tuple). flat cut 0 range ++ xs) rest
      ∙ append-nil (flat cut 0 range)
