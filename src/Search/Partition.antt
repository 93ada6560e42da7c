-- ===== src/Search/Partition.antt =====
-- Equal keys have equal first hashes, so a tuple meets its partners in the bucket of its own hash.
use native.Mathlib.Decide.{ℕ_discrete}
use mathlib.Core.Path.{ap₂}
use join_operator_software_d.Prelude.{
  ℕ, ◌+◌, ◌<◌, ◌≡◌, refl, sym, ap, ◌∙◌, ◌≢◌, arith, ==_iff, ==_eq_false, List, [], ◌∷◌, ◌++◌,
  append-nil, All, flat_map, flat_map-append,
}
use join_operator_software_d.Structs.{Tuple, RowTuple}
use join_operator_software_d.Hashing.{hash1_2}
use join_operator_software_d.Index.Buckets.{Bucket, all_tuples, IncreasesFrom, bucket_at}
use join_operator_software_d.Search.Chain.{equi_rows, equi_rows-append, join_rows}

module _ (buckets : ℕ) where
  abbrev pub HasHash : ℕ → Tuple → Type 0
  HasHash h t = hash1_2 t.key buckets ≡ h

  -- Each bucket holds tuples of its hash.
  abbrev pub IsHashed : List Bucket → Type 0
  IsHashed bs = All (λ b. All (HasHash b.hash) b.tuples) bs

  equi_rows_other :
      (rs : List Tuple) (t : Tuple) (g : ℕ)
      → All (HasHash g) rs
      → hash1_2 t.key buckets ≢ g
      → equi_rows rs t ≡ []
  unfolding equi_rows
  equi_rows_other [] t g h ne = refl
  equi_rows_other (r ∷ rs) t g h ne =
      rw (==_eq_false r.key t.key (λ e. ne (ap (λ k. hash1_2 k buckets) (sym e) ∙ h.0)))
        (equi_rows_other rs t g h.1 ne)

  equi_rows-above :
      (bs : List Bucket) (t : Tuple) (m h : ℕ)
      → h < m
      → IsHashed bs
      → IncreasesFrom m bs
      → HasHash h t
      → equi_rows (all_tuples bs) t ≡ []
  unfolding equi_rows
  equi_rows-above [] t m h lt hashed s e = refl
  equi_rows-above (b ∷ bs) t m h lt hashed s e =
      rw
        (
          equi_rows-append b.tuples (all_tuples bs) t,
          equi_rows_other b.tuples t b.hash hashed.0 (omega (arith, e)),
        )
        (equi_rows-above bs t (b.hash + 1) h (omega arith) hashed.1 s.1 e)

  -- The rows of a tuple with all the tuples are those with the bucket of its hash.
  pub equi_rows-bucket_at :
      (bs : List Bucket) (t : Tuple) (m h : ℕ)
      → IsHashed bs
      → IncreasesFrom m bs
      → HasHash h t
      → equi_rows (all_tuples bs) t ≡ equi_rows (bucket_at h bs) t
  unfolding bucket_at
  equi_rows-bucket_at [] t m h hashed s e = refl
  equi_rows-bucket_at (b ∷ bs) t m h hashed s e = elim (ℕ_discrete b.hash h) [
    | yes here ↦ rw (
      equi_rows-append b.tuples (all_tuples bs) t,
      equi_rows-above bs t (b.hash + 1) h (omega arith) hashed.1 s.1 e,
      append-nil,
      (==_iff b.hash h).1 here,
    )
    | no other ↦
        rw
          (
            equi_rows-append b.tuples (all_tuples bs) t,
            equi_rows_other b.tuples t b.hash hashed.0 (λ g. other (sym g ∙ e)),
            ==_eq_false b.hash h other,
          )
          (equi_rows-bucket_at bs t (b.hash + 1) h hashed.1 s.1 e)
  ]

  join_rows-bucket_at :
      (bs : List Bucket) (ts : List Tuple) (m h : ℕ)
      → IsHashed bs
      → IncreasesFrom m bs
      → All (HasHash h) ts
      → join_rows (all_tuples bs) ts ≡ join_rows (bucket_at h bs) ts
  unfolding join_rows
  join_rows-bucket_at bs [] m h hashed s e = refl
  join_rows-bucket_at bs (t ∷ ts) m h hashed s e =
      ap₂ ◌++◌ (equi_rows-bucket_at bs t m h hashed s e.0)
        (join_rows-bucket_at bs ts m h hashed s e.1)

-- The join, bucket by bucket of the second relation.
unfoldable pub bucket_join : List Bucket → List Bucket → List RowTuple
bucket_join bs cs = flat_map (λ (c : Bucket). join_rows (bucket_at c.hash bs) c.tuples) cs

-- Joining each bucket with the bucket of the same hash gives the join of the whole relations.
pub bucket_join_lem :
    (buckets m : ℕ) (bs cs : List Bucket)
    → IsHashed buckets bs
    → IncreasesFrom m bs
    → IsHashed buckets cs
    → bucket_join bs cs ≡ join_rows (all_tuples bs) (all_tuples cs)
unfolding bucket_join join_rows
bucket_join_lem buckets m bs [] hb s hc = refl
bucket_join_lem buckets m bs (c ∷ cs) hb s hc =
    ap₂ ◌++◌ (sym (join_rows-bucket_at buckets bs c.tuples m c.hash hb s hc.0))
      (bucket_join_lem buckets m bs cs hb s hc.1)
    ∙ sym (flat_map-append (equi_rows (all_tuples bs)) c.tuples (all_tuples cs))
