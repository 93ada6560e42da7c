-- ===== src/Joint/Selection.antt =====
-- The loop that collects row numbers: it keeps exactly the numbers that pass the test, in order.
use mathlib.Core.Path.{ap₂}
use native.Mathlib.Decide.{ℕ_discrete}
use join_operator_software_d.Prelude.{
  ◌↔◌, ℕ, zero, suc, ◌+◌, ◌≤◌, ◌<◌, ◌≡◌, refl, ap, ◌∙◌, arith, Bool, ◌&&◌, inl, inr, Bool-cases,
  List, [], ◌∷◌, ◌++◌, append-nil, append_assoc, if◌then◌else◌, ◌==◌, ==_refl, ==_eq_false, ltb,
  ltb_iff, true, length, length-append, store-append, weigh,
}
use join_operator_software_d.Joint.{keep_where}

-- The numbers from `i` on, `n` of them, that pass.
unfoldable pub survivors : (ℕ → Bool) → ℕ → ℕ → List ℕ
survivors test i zero = []
survivors test i (suc n) = let rest = survivors test (i + 1) n in if test i then i ∷ rest else rest

-- The loop as it runs, behind what it has collected.
keep_where-survivors :
    (size : ℕ) (test : ℕ → Bool) (n i : ℕ) (temp : List ℕ) (cur : ℕ)
    → cur ≡ length temp
    → cur + n ≤ size
    → keep_where size test n i (temp, cur)
      ≡ (temp ++ survivors test i n, cur + length (survivors test i n))
unfolding keep_where survivors
keep_where-survivors size test zero i temp cur h room = ground (arith, append-nil temp)
keep_where-survivors size test (suc n) i temp cur h room =
    let place : ltb cur size ≡ true = (ltb_iff cur size).1 (omega (arith, room)) in
    let rest = survivors test (i + 1) n in
    elim (Bool-cases (test i)) [
      | inl e ↦
          rw
            (
              e,
              place,
              store-append temp cur i h,
              keep_where-survivors size test n (i + 1) (temp ++ i ∷ []) (cur + 1)
                  (omega (arith, h, length-append {0} temp (i ∷ []))) (omega (arith, room)),
            )
            (ap₂ (λ (a : List ℕ) (b : ℕ). (a, b)) (append_assoc temp (i ∷ []) rest) (omega arith))
      | inr e ↦ rw e (keep_where-survivors size test n (i + 1) temp cur h (omega (arith, room)))
    ]

pub keep_where_lem :
    (size : ℕ) (test : ℕ → Bool) (n : ℕ)
    → n ≤ size
    → keep_where size test n 0 ([], 0) ≡ (survivors test 0 n, length (survivors test 0 n))
keep_where_lem size test n le =
    keep_where-survivors size test n 0 [] 0 refl (omega (arith, le))
    ∙ ap (λ (k : ℕ). (survivors test 0 n, k)) (omega arith)

-- `ks` is in increasing order from `m` on.
abbrev pub Ascends : ℕ → List ℕ → Type 0
Ascends m [] = Unit
Ascends m (k ∷ ks) = (m ≤ k) × Ascends (k + 1) ks

-- How often `k` occurs.
abbrev pub occurrences : ℕ → List ℕ → ℕ
occurrences k = weigh (λ x. if x == k then 1 else 0)

-- `ks` holds exactly the numbers below `n` that pass, each once, in increasing order.
pub record Selects (n : ℕ) (test : ℕ → Bool) (ks : List ℕ) : Type 0 where
  pub ascends : Ascends 0 ks
  pub exact : (k : ℕ) → occurrences k ks ≡ (if ltb k n && test k then 1 else 0)

Ascends-le : (a b : ℕ) (ks : List ℕ) → a ≤ b → Ascends b ks → Ascends a ks
Ascends-le a b [] h s = tt
Ascends-le a b (k ∷ ks) h s = (omega arith, s.1)

survivors-Ascends : (test : ℕ → Bool) (i n : ℕ) → Ascends i (survivors test i n)
unfolding survivors
survivors-Ascends test i zero = tt
survivors-Ascends test i (suc n) = elim (Bool-cases (test i)) [
  | inl e ↦ rw e (omega arith, survivors-Ascends test (i + 1) n)
  | inr e ↦ rw e (
      Ascends-le i (i + 1) (survivors test (i + 1) n) (omega arith)
        (survivors-Ascends test (i + 1) n))
]

occurrences_below : (k m : ℕ) (ks : List ℕ) → k < m → Ascends m ks → occurrences k ks ≡ 0
occurrences_below k m [] h s = refl
occurrences_below k m (x ∷ ks) h s = ground (arith, occurrences_below k (x + 1) ks)

occurrences-survivors :
    (test : ℕ → Bool) (k i n : ℕ)
    → i ≤ k
    → occurrences k (survivors test i n) ≡ (if ltb k (i + n) && test k then 1 else 0)
unfolding survivors
occurrences-survivors test k i zero h = ground arith
occurrences-survivors test k i (suc n) h = elim (ℕ_discrete i k) [
  | yes e ↦
      let none_after =
        occurrences_below k (i + 1) (survivors test (i + 1) n) (omega (arith, e))
          (survivors-Ascends test (i + 1) n) in
      let same : test i ≡ test k = ap test e in
      elim (Bool-cases (test k)) [
        | inl t ↦ let here = same ∙ t in rw here (ground (arith, e, t, none_after, ==_refl k))
        | inr t ↦ let here = same ∙ t in rw here (ground (arith, e, t, none_after))
      ]
  | no ne ↦
      let rest = occurrences-survivors test k (i + 1) n (omega (arith, ne, h)) in
      let shift : i + 1 + n ≡ i + suc n = omega arith in
      elim (Bool-cases (test i)) [
        | inl t ↦
            rw (t, ==_eq_false i k ne)
              (omega arith ∙ rest ∙ ap (λ (m : ℕ). if ltb k m && test k then 1 else 0) shift)
        | inr t ↦ rw t (rest ∙ ap (λ (m : ℕ). if ltb k m && test k then 1 else 0) shift)
      ]
]

pub survivors-Selects : (test : ℕ → Bool) (n : ℕ) → Selects n test (survivors test 0 n)
survivors-Selects test n = record {
  ascends = survivors-Ascends test 0 n;
  exact = λ k.
      occurrences-survivors test k 0 n (omega arith)
      ∙ ap (λ (m : ℕ). if ltb k m && test k then 1 else 0) (omega arith);
}

-- `ks` holds exactly the numbers below `n` with the property, each once, in increasing order.
pub record Chooses (n : ℕ) (P : ℕ → Type 0) (ks : List ℕ) : Type 0 where
  pub ascends : Ascends 0 ks
  pub each_once : (k : ℕ) → k < n → P k → occurrences k ks ≡ 1
  pub no_other : (k : ℕ) → 0 < occurrences k ks → (k < n) × P k

pub Selects-Chooses :
    (n : ℕ) (test : ℕ → Bool) (P : ℕ → Type 0) (ks : List ℕ)
    → ((k : ℕ) → (test k ≡ true) ↔ P k)
    → Selects n test ks
    → Chooses n P ks
Selects-Chooses n test P ks same s = record {
  ascends = s.ascends;
  each_once = λ k lt p. s.exact k ∙ rw ((ltb_iff k n).1 lt, (same k).1 p) refl;
  no_other = λ k some_k. elim (Bool-cases (test k)) [
    | inl t ↦ let e = s.exact k in (ground (arith, some_k, e), (same k).0 t)
    | inr t ↦ let e = s.exact k in absurd (ground (arith, some_k, e, t))
  ];
}
