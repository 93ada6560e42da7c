-- ===== src/Index/Buckets.antt =====
-- The reordered relation as a list of buckets: `psum` holds the hash and the start of each, and the
-- tuples stand bucket after bucket.
use native.Mathlib.Nat.{zero-add}
use join_operator_software_d.Prelude.{
  ℕ, suc, ◌+◌, ◌≤◌, ◌<◌, ◌≡◌, ◌≢◌, refl, ap, ◌∙◌, arith, ◌==◌, if◌then◌else◌, ==_iff, ==_eq_false,
  ==_refl, List, [], ◌∷◌, ◌++◌, append-nil, append_assoc, length, length-append, get_or, drop,
  drop-append, flat_map, flat_map-append,
}
use join_operator_software_d.Structs.{Tuple, PSumTuple, ReorderedR}
use join_operator_software_d.Index.{no_psum, get_start_of_bucket}

pub record Bucket : Type 0 where
  pub hash : ℕ
  pub tuples : List Tuple

abbrev pub all_tuples : List Bucket → List Tuple
all_tuples bs = flat_map (λ b. b.tuples) bs

-- The entries of `psum` for buckets that start at `o`.
abbrev pub psum_of : ℕ → List Bucket → List PSumTuple
psum_of o [] = []
psum_of o (b ∷ bs) = record { h1_res = b.hash; offset = o } ∷ psum_of (o + length b.tuples) bs

-- The fields of a reordered relation hold these buckets.
pub record Encodes (bs : List Bucket) (ror : ReorderedR) : Type 0 where
  pub psum_eq : ror.p_sum_arr.psum ≡ psum_of 0 bs
  pub psum_size_eq : ror.p_sum_arr.psum_size ≡ length bs
  pub tuples_eq : ror.rel.tuples ≡ all_tuples bs
  pub size_eq : ror.rel.size ≡ length (all_tuples bs)

get_or-psum_of :
    (before after : List Bucket) (b : Bucket) (o : ℕ)
    → get_or (psum_of o (before ++ b ∷ after)) (length before) no_psum
      ≡ record { h1_res = b.hash; offset = o + length (all_tuples before) }
get_or-psum_of [] after b o = ground arith
get_or-psum_of (a ∷ before) after b o =
    get_or-psum_of before after b (o + length a.tuples)
    ∙ ap (λ (k : ℕ). record { h1_res = b.hash; offset = k })
        (omega (arith, length-append {0} a.tuples (all_tuples before)))

next-psum_of :
    (before after : List Bucket) (b c : Bucket)
    → get_or (psum_of 0 (before ++ b ∷ c ∷ after)) (length before + 1) no_psum
      ≡ record { h1_res = c.hash; offset = length (all_tuples before) + length b.tuples }
next-psum_of before after b c =
    let more : length (before ++ b ∷ []) ≡ length before + 1 =
      omega (arith, length-append {0} before (b ∷ [])) in
    let len : 0 + length (all_tuples (before ++ b ∷ []))
        ≡ length (all_tuples before) + length b.tuples =
      omega (
        arith,
        ap length (flat_map-append (λ (a : Bucket). a.tuples) before (b ∷ [])),
        length-append {0} (all_tuples before) (b.tuples ++ []),
        ap length (append-nil b.tuples),
      ) in
    rw (
      ← more,
      ← append_assoc before (b ∷ []) (c ∷ after),
      get_or-psum_of (before ++ b ∷ []) after c 0,
      len,
    )

module _ (before after : List Bucket) (b : Bucket) (ror : ReorderedR)
    (e : Encodes (before ++ b ∷ after) ror) where
  pub start_eq :
      get_or ror.p_sum_arr.psum (length before) no_psum
      ≡ record { h1_res = b.hash; offset = length (all_tuples before) }
  start_eq = rw (e.psum_eq, get_or-psum_of before after b 0, zero-add)

  pub rest_eq : drop (length (all_tuples before)) ror.rel.tuples ≡ b.tuples ++ all_tuples after
  rest_eq = rw (e.tuples_eq, flat_map-append) (drop-append (all_tuples before) _)

  pub length_eq :
      ror.rel.size ≡ length (all_tuples before) + (length b.tuples + length (all_tuples after))
  length_eq = rw (e.size_eq, flat_map-append, length-append, length-append)

  pub count_eq : ror.p_sum_arr.psum_size ≡ length before + suc (length after)
  count_eq = rw (e.psum_size_eq, length-append)

pub next_eq :
    (before after : List Bucket) (b c : Bucket) (ror : ReorderedR)
    → Encodes (before ++ b ∷ c ∷ after) ror
    → get_or ror.p_sum_arr.psum (length before + 1) no_psum
      ≡ record { h1_res = c.hash; offset = length (all_tuples before) + length b.tuples }
next_eq before after b c ror e = rw (e.psum_eq, next-psum_of before after b c)

-- In a reordered relation that holds a list of buckets, the start and the size that the index takes
-- for a bucket are those of the bucket, the last one included.
pub get_start_of_bucket_lem :
    (before after : List Bucket) (b : Bucket) (ror : ReorderedR)
    → Encodes (before ++ b ∷ after) ror
    → get_start_of_bucket ror (length before)
      ≡ record { tuples = b.tuples ++ all_tuples after; size = length b.tuples }
unfolding get_start_of_bucket
get_start_of_bucket_lem before [] b ror e =
    rw
      (
        start_eq before [] b ror e,
        rest_eq before [] b ror e,
        (==_iff (length before + 1) ror.p_sum_arr.psum_size).1
            (omega (arith, count_eq before [] b ror e)),
      )
      (ap (λ (n : ℕ). record { tuples = b.tuples ++ []; size = n })
        (omega (arith, length_eq before [] b ror e)))
get_start_of_bucket_lem before (c ∷ after) b ror e =
    rw
      (
        start_eq before (c ∷ after) b ror e,
        rest_eq before (c ∷ after) b ror e,
        ==_eq_false (length before + 1) ror.p_sum_arr.psum_size
            (omega (arith, count_eq before (c ∷ after) b ror e)),
        next_eq before after b c ror e,
      )
      (ap (λ (n : ℕ). record { tuples = b.tuples ++ all_tuples (c ∷ after); size = n })
        (omega arith))

-- The hashes of the buckets increase from `m` on.
abbrev pub IncreasesFrom : ℕ → List Bucket → Type 0
IncreasesFrom m [] = Unit
IncreasesFrom m (b ∷ bs) = (m ≤ b.hash) × IncreasesFrom (b.hash + 1) bs

-- The tuples of the bucket with a hash; none if no bucket has it.
unfoldable pub bucket_at : ℕ → List Bucket → List Tuple
bucket_at h [] = []
bucket_at h (b ∷ bs) = let rest = bucket_at h bs in if b.hash == h then b.tuples else rest

pub IncreasesFrom-le :
    (m n : ℕ) (bs : List Bucket) → m ≤ n → IncreasesFrom n bs → IncreasesFrom m bs
IncreasesFrom-le m n [] h s = tt
IncreasesFrom-le m n (b ∷ bs) h s = (omega arith, s.1)

pub bucket_at_below :
    (h m : ℕ) (bs : List Bucket) → h < m → IncreasesFrom m bs → bucket_at h bs ≡ []
unfolding bucket_at
bucket_at_below h m [] lt s = refl
bucket_at_below h m (b ∷ bs) lt s =
    rw (==_eq_false b.hash h (omega arith)) (bucket_at_below h (b.hash + 1) bs (omega arith) s.1)

pub bucket_at_self : (b : Bucket) (bs : List Bucket) → bucket_at b.hash (b ∷ bs) ≡ b.tuples
unfolding bucket_at
bucket_at_self b bs = rw ==_refl

pub bucket_at_ne :
    (h : ℕ) (b : Bucket) (bs : List Bucket) → b.hash ≢ h → bucket_at h (b ∷ bs) ≡ bucket_at h bs
unfolding bucket_at
bucket_at_ne h b bs ne = rw (==_eq_false b.hash h ne)
