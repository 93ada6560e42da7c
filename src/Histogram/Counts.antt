-- ===== src/Histogram/Counts.antt =====
-- src/functions.c: one slice of the histogram counts the tuples of the slice by their hash values.
use mathlib.Core.Path.{subst}
use native.Mathlib.Decide.{ℕ_discrete}
use join_operator_software_d.Prelude.{
  ℕ, zero, suc, ◌+◌, ◌-◌, ◌≤◌, ◌<◌, ◌≡◌, refl, sym, ap, ◌∙◌, arith, Bool, true, false, List, [],
  ◌∷◌, ◌++◌, if◌then◌else◌, ◌==◌, ==_iff, ==_eq_false, length, length-set, length-replicate, get_or,
  get_or-set_self, get_or-set_ne, get_or-replicate, set, store, store-append, replicate,
}
use join_operator_software_d.Structs.{Tuple}
use join_operator_software_d.Hashing.{hash1_2, hash1_2-lt}
use join_operator_software_d.Index.{no_tuple}
use join_operator_software_d.Histogram.{histogram_loop, histogram_job, add_loop}

-- The hash value of tuple `i`.
abbrev pub hash_at : List Tuple → ℕ → ℕ → ℕ
hash_at t hash1 i = hash1_2 (get_or t i no_tuple).key hash1

-- How many of the `n` tuples from `i` on have the hash value `k`.
abbrev pub hits : List Tuple → ℕ → ℕ → ℕ → ℕ → ℕ
hits t hash1 k i zero = 0
hits t hash1 k i (suc n) = (if hash_at t hash1 i == k then 1 else 0) + hits t hash1 k (i + 1) n

-- The hash values of the `n` tuples from `i` on.
abbrev pub hashes : List Tuple → ℕ → ℕ → ℕ → List ℕ
hashes t hash1 i zero = []
hashes t hash1 i (suc n) = hash_at t hash1 i ∷ hashes t hash1 (i + 1) n

pub length-hashes : (t : List Tuple) (hash1 i n : ℕ) → length (hashes t hash1 i n) ≡ n
length-hashes t hash1 i zero = refl
length-hashes t hash1 i (suc n) = omega (arith, length-hashes t hash1 (i + 1) n)

pub hits-add :
    (t : List Tuple) (hash1 k i m n : ℕ)
    → hits t hash1 k i (m + n) ≡ hits t hash1 k i m + hits t hash1 k (i + m) n
hits-add t hash1 k i zero n =
    let z : 0 + n ≡ n = omega arith in
    let w : i + 0 ≡ i = omega arith in
    omega (arith, ap (hits t hash1 k i) z, ap (λ (j : ℕ). hits t hash1 k j n) w)
hits-add t hash1 k i (suc m) n =
    let z : suc m + n ≡ suc (m + n) = omega arith in
    let w : i + 1 + m ≡ i + suc m = omega arith in
    let one = if hash_at t hash1 i == k then 1 else 0 in
    let e : hits t hash1 k i (suc m + n) ≡ one + hits t hash1 k (i + 1) (m + n) =
      ap (hits t hash1 k i) z in
    omega (arith, e, hits-add t hash1 k (i + 1) m n, ap (λ (j : ℕ). hits t hash1 k j n) w)

pub hashes-add :
    (t : List Tuple) (hash1 i m n : ℕ)
    → hashes t hash1 i (m + n) ≡ hashes t hash1 i m ++ hashes t hash1 (i + m) n
hashes-add t hash1 i zero n =
    let z : 0 + n ≡ n = omega arith in
    let w : i ≡ i + 0 = omega arith in
    ap (hashes t hash1 i) z ∙ ap (λ (j : ℕ). hashes t hash1 j n) w
hashes-add t hash1 i (suc m) n =
    let z : suc m + n ≡ suc (m + n) = omega arith in
    let w : i + 1 + m ≡ i + suc m = omega arith in
    ap (hashes t hash1 i) z
    ∙ ap (λ (vs : List ℕ). hash_at t hash1 i ∷ vs)
        (hashes-add t hash1 (i + 1) m n
          ∙ ap (λ (j : ℕ). hashes t hash1 (i + 1) m ++ hashes t hash1 j n) w)

-- A histogram with the counts, and the hash values, of the `n` tuples from `i` on.
pub record Counts (t : List Tuple) (hash1 i n : ℕ) (s : List ℕ × List ℕ) : Type 0 where
  pub sized : length s.0 ≡ hash1
  pub counts : (k : ℕ) → k < hash1 → get_or s.0 k 0 ≡ hits t hash1 k i n
  pub values : s.1 ≡ hashes t hash1 i n

hit_one :
    (t : List Tuple) (hash1 k i : ℕ) (b : Bool)
    → (hash_at t hash1 i == k) ≡ b
    → hits t hash1 k i 1 ≡ (if b then 1 else 0)
hit_one t hash1 k i b e = rw e (omega arith)

-- One more tuple is counted.
count_one :
    (t : List Tuple) (hash1 from m : ℕ) (s : List ℕ × List ℕ)
    → 0 < hash1
    → Counts t hash1 from m s
    → let value = hash_at t hash1 (from + m) in
      Counts t hash1 from
        (m + 1)
        (set s.0 value (get_or s.0 value 0 + 1), store s.1 (from + m - from) value)
count_one t hash1 from m s pos c =
    let value = hash_at t hash1 (from + m) in
    let old = get_or s.0 value 0 in
    let inside : value < length s.0 =
      omega (arith, hash1_2-lt (get_or t (from + m) no_tuple).key hash1 pos, c.sized) in
    let place : from + m - from ≡ length s.1 =
      omega (arith, ap length c.values, length-hashes t hash1 from m) in
    record {
      sized = length-set s.0 value (old + 1) ∙ c.sized;
      counts = λ k lt. elim (ℕ_discrete value k) [
        | yes e ↦
            let one : (value == k) ≡ true = (==_iff value k).1 e in
            let here : get_or (set s.0 value (old + 1)) k 0 ≡ old + 1 =
              ap (λ (j : ℕ). get_or (set s.0 value (old + 1)) j 0) (sym e)
              ∙ get_or-set_self s.0 value (old + 1) 0 inside in
            let was : old ≡ get_or s.0 k 0 = ap (λ (j : ℕ). get_or s.0 j 0) e in
            omega (
              arith,
              here,
              was,
              c.counts k lt,
              hits-add t hash1 k from m 1,
              hit_one t hash1 k (from + m) true one,
            )
        | no ne ↦
            let other = get_or-set_ne s.0 value k (old + 1) 0 ne in
            omega (
              arith,
              other,
              c.counts k lt,
              hits-add t hash1 k from m 1,
              hit_one t hash1 k (from + m) false (==_eq_false value k ne),
            )
      ];
      values =
          store-append s.1 (from + m - from) value place
          ∙ ap (λ (vs : List ℕ). vs ++ value ∷ []) c.values
          ∙ sym (hashes-add t hash1 from m 1);
    }

histogram_loop-Counts :
    (t : List Tuple) (hash1 from m n : ℕ) (s : List ℕ × List ℕ)
    → 0 < hash1
    → Counts t hash1 from m s
    → Counts t hash1 from (m + n) (histogram_loop t hash1 from n (from + m) s)
unfolding histogram_loop
histogram_loop-Counts t hash1 from m zero s pos c =
    subst (λ (l : ℕ). Counts t hash1 from l s) (omega arith) c
histogram_loop-Counts t hash1 from m (suc n) s pos c =
    let value = hash_at t hash1 (from + m) in
    let old = get_or s.0 value 0 in
    let a : from + (m + 1) ≡ from + m + 1 = omega arith in
    let b : m + 1 + n ≡ m + suc n = omega arith in
    let next : List ℕ × List ℕ = (set s.0 value (old + 1), store s.1 (from + m - from) value) in
    let go =
      histogram_loop-Counts t hash1 from (m + 1) n next pos (count_one t hash1 from m s pos c) in
    subst (λ (l : ℕ). Counts t hash1 from l (histogram_loop t hash1 from n (from + m + 1) next)) b
      (subst (λ (l : ℕ). Counts t hash1 from (m + 1 + n) (histogram_loop t hash1 from n l next)) a
        go)

pub histogram_job-Counts :
    (t : List Tuple) (hash1 from to : ℕ)
    → 0 < hash1
    → from ≤ to
    → let c = histogram_job t hash1 from to in
      Counts t hash1 from (to - from) (c.hist, c.hash_values)
unfolding histogram_job
histogram_job-Counts t hash1 from to pos le =
    let z : from + 0 ≡ from = omega arith in
    let none_yet : Counts t hash1 from 0 (replicate hash1 0, []) = record {
      sized = length-replicate hash1 0;
      counts = λ k lt. get_or-replicate hash1 k 0;
      values = refl;
    } in
    let go =
      histogram_loop-Counts t hash1 from 0 (to - from) (replicate hash1 0, []) pos none_yet in
    subst
      (λ (l : ℕ).
        Counts t hash1 from (to - from)
          (histogram_loop t hash1 from (to - from) l (replicate hash1 0, [])))
      z
      (subst
        (λ (l : ℕ).
          Counts t hash1 from l
            (histogram_loop t hash1 from (to - from) (from + 0) (replicate hash1 0, [])))
        (omega arith) go)

pub add_loop_lem :
    (n i : ℕ) (other hist : List ℕ)
    → i + n ≤ length hist
    → (length (add_loop n i other hist) ≡ length hist)
      × ((k : ℕ)
          → i ≤ k
          → k < i + n
          → get_or (add_loop n i other hist) k 0 ≡ get_or hist k 0 + get_or other k 0)
      × ((k : ℕ) → k < i → get_or (add_loop n i other hist) k 0 ≡ get_or hist k 0)
unfolding add_loop
add_loop_lem zero i other hist le = (refl, λ k a b. absurd (omega (arith, a, b)), λ k a. refl)
add_loop_lem (suc n) i other hist le =
    let v = get_or hist i 0 + get_or other i 0 in
    let rest =
      add_loop_lem n (i + 1) other (set hist i v) (omega (arith, le, length-set hist i v)) in
    (
      rest.0 ∙ length-set hist i v,
      λ k from_i lt. elim (ℕ_discrete i k) [
        | yes e ↦
            let here = get_or-set_self hist i v 0 (omega (arith, le)) in
            subst
              (λ (j : ℕ).
                get_or (add_loop n (i + 1) other (set hist i v)) j 0
                ≡ get_or hist j 0 + get_or other j 0)
              e (rest.2 i (omega arith) ∙ here)
        | no ne ↦
            rest.1 k (omega (arith, from_i, ne)) (omega (arith, lt))
            ∙ ap (λ (x : ℕ). x + get_or other k 0) (get_or-set_ne hist i k v 0 ne)
      ],
      λ k lt.
          rest.2 k (omega (arith, lt))
          ∙ get_or-set_ne hist i k v 0 (λ e. absurd (omega (arith, e, lt))),
    )
