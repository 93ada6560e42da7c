-- ===== src/Index/Chains.antt =====
-- What the table of an index means: the chain of a bucket visits the positions of the tuples that
-- hash to it, latest first.
use mathlib.Core.Path.{subst}
use native.Mathlib.Decide.{ℕ_discrete}
use native.Mathlib.Numerals.{add-one}
use join_operator_software_d.Prelude.{
  ℕ, zero, suc, ◌+◌, ◌≤◌, ◌<◌, ◌≡◌, refl, ◌∙◌, arith, ◌==◌, if◌then◌else◌, inl, inr, Bool-cases,
  ==_refl, ==_eq_false, some, List, [], ◌∷◌, length, get_or, set, All, length-set, length-replicate,
  get_or-replicate, get_or-set_self, get_or-set_ne,
}
use join_operator_software_d.Structs.{Tuple, RelationIndex}
use join_operator_software_d.Hashing.{hashing, hashing-lt, hash2_range}
use join_operator_software_d.Index.{
  no_tuple, initialize_index, update_chain, build_loop, build_rel, build_index,
}

-- From the pointer `p` the chain visits exactly the positions of the list. A pointer is a position
-- plus one, or 0 at the end.
abbrev pub Linked : List ℕ → ℕ → List ℕ → Type 0
Linked chain p [] = p ≡ 0
Linked chain p (i ∷ l) = (p ≡ i + 1) × Linked chain (get_or chain i 0) l

All-lt_mono : (l : List ℕ) (m n : ℕ) → m ≤ n → All (λ i. i < m) l → All (λ i. i < n) l
All-lt_mono [] m n h a = tt
All-lt_mono (i ∷ l) m n h a = (omega arith, All-lt_mono l m n h a.1)

-- A write behind all positions of a chain leaves the chain as it is.
Linked-set :
    (chain l : List ℕ) (p n v : ℕ)
    → All (λ i. i < n) l
    → Linked chain p l
    → Linked (set chain n v) p l
Linked-set chain [] p n v a h = h
Linked-set chain (i ∷ l) p n v a h =
    (h.0, rw (get_or-set_ne chain n i v 0 (omega arith)) (Linked-set chain l _ n v a.1 h.1))

module _ (tuples : List Tuple) (hash1 hash2 : ℕ) where
  -- The positions below `n` whose tuples hash to `h`, latest first.
  unfoldable pub positions : ℕ → ℕ → List ℕ
  positions h zero = []
  positions h (suc n) =
      let rest = positions h n in
      if hashing (get_or tuples n no_tuple).key hash1 hash2 == h then n ∷ rest else rest

  pub positions-lt : (h n : ℕ) → All (λ i. i < n) (positions h n)
  unfolding positions
  positions-lt h zero = tt
  positions-lt h (suc n) =
      let rest = All-lt_mono (positions h n) n (suc n) (omega arith) (positions-lt h n) in
      elim (Bool-cases (hashing (get_or tuples n no_tuple).key hash1 hash2 == h)) [
        | inl e ↦ rw e (omega arith, rest)
        | inr e ↦ rw e rest
      ]

  -- The arrays after the first `n` tuples.
  pub record Built (size n : ℕ) (s : List ℕ × List ℕ) : Type 0 where
    pub chain_size : length s.0 ≡ size
    pub bucket_size : length s.1 ≡ hash2_range hash2
    pub linked : (h : ℕ) → h < hash2_range hash2 → Linked s.0 (get_or s.1 h 0) (positions h n)

  update_chain-Built :
      {size n : ℕ} (s : List ℕ × List ℕ)
      → n < size
      → Built size n s
      → Built size
          (suc n)
          (update_chain s.0 s.1 (hashing (get_or tuples n no_tuple).key hash1 hash2) n)
  unfolding update_chain positions
  update_chain-Built {size} {n} s lt b =
      let k = hashing (get_or tuples n no_tuple).key hash1 hash2 in
      let in_range : k < hash2_range hash2 = hashing-lt _ hash1 hash2 in
      record {
        chain_size = length-set s.0 n _ ∙ b.chain_size;
        bucket_size = length-set s.1 k _ ∙ b.bucket_size;
        linked = λ h hlt. elim (ℕ_discrete k h) [
          | yes e ↦
              subst
                (λ (g : ℕ).
                  Linked (set s.0 n (get_or s.1 k 0)) (get_or (set s.1 k (n + 1)) g 0)
                    (positions g (suc n)))
                e
                (rw
                  (
                    ==_refl k,
                    get_or-set_self s.1 k (n + 1) 0 (omega (arith, b.bucket_size)),
                    get_or-set_self s.0 n (get_or s.1 k 0) 0 (omega (arith, b.chain_size)),
                  )
                  (
                    refl,
                    Linked-set s.0 (positions k n) _ n _ (positions-lt k n) (b.linked k in_range),
                  ))
          | no ne ↦
              rw (==_eq_false k h ne, get_or-set_ne s.1 k h (n + 1) 0 ne)
                (Linked-set s.0 (positions h n) _ n _ (positions-lt h n) (b.linked h hlt))
        ];
      }

  build_loop-Built :
      (n i size : ℕ) (s : List ℕ × List ℕ)
      → i + n ≡ size
      → Built size i s
      → Built size size (build_loop n i tuples hash1 hash2 s)
  unfolding build_loop
  build_loop-Built zero i size s e b = let e' : i ≡ size = omega arith in rw e' at b
  build_loop-Built (suc n) i size s e b =
      build_loop-Built n (i + 1) size _ (omega arith)
        (rw (← add-one i) at (update_chain-Built s (omega arith) b))

  -- An index of the first `size` tuples: its parts, and its chains.
  pub record IsIndex (size : ℕ) (index : RelationIndex) : Type 0 where
    pub over : index.rel ≡ some (record { tuples = tuples; size = size })
    pub second : index.hash2 ≡ hash2
    pub built : Built size size (index.chain, index.buckets)

  -- Building the index of the first `size` tuples gives a chain with an entry for each and a bucket
  -- for each second hash, from which the links visit exactly the positions of the tuples with that
  -- hash, latest first.
  pub build_index-IsIndex :
      (size key : ℕ)
      → IsIndex size (
          build_index
            (initialize_index
              (hash2_range hash2)
              (some (record { tuples = tuples; size = size }))
              key
              hash2)
            hash1
            hash2)
  unfolding build_index build_rel initialize_index
  build_index-IsIndex size key = record {
    over = refl;
    second = refl;
    built = build_loop-Built size 0 size _ (omega arith) (record {
      chain_size = length-replicate size 0;
      bucket_size = length-replicate (hash2_range hash2) 0;
      linked = λ h lt. unfold positions in get_or-replicate (hash2_range hash2) h 0;
    });
  }
