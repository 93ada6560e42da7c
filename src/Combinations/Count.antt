-- ===== src/Combinations/Count.antt =====
-- src/combinations.c: the number of combinations that are stored, against the number that is
-- allocated.
use mathlib.Core.Path.{subst}
use native.Mathlib.Nat.{
  add-zero, zero-add, suc-mul, add-mul, mul_assoc, mul_comm, mul_left_comm, mod-eq_of_lt,
  mul-div_cancel,
}
use join_operator_software_d.Prelude.{
  ℕ, zero, suc, ◌+◌, ◌-◌, ◌*◌, ◌%◌, ◌≤◌, ◌<◌, ◌≡◌, refl, sym, ap, ◌∙◌, arith, inl, inr, Bool-cases,
  List, if◌then◌else◌, ◌==◌, ==_iff, ==_eq_false, true, false, ltb_iff, get_or, set, ltb, leb,
  length, length-append, u64_mod,
}
use join_operator_software_d.Combinations.{
  Combining, write_comb, combs_loop, combination_util, get_combination, factorial, numb_of_combs,
  arr_loop,
}

-- The number of subsets of `k` among `n`, by Pascal's rule.
pub choose : ℕ → ℕ → ℕ
choose n zero = 1
choose zero (suc k) = 0
choose (suc n) (suc k) = choose n k + choose n (suc k)

choose-lt : (n k : ℕ) → n < k → choose n k ≡ 0
unfolding choose
choose-lt n zero lt = absurd (omega (arith, lt))
choose-lt zero (suc k) lt = refl
choose-lt (suc n) (suc k) lt =
    omega (arith, choose-lt n k (omega (arith, lt)), choose-lt n (suc k) (omega (arith, lt)))

fewer :
    (n i size index k r : ℕ)
    → i + suc n ≡ size
    → r ≡ index + suc k
    → leb (r - index) (size - i) ≡ false
    → suc n < suc k
fewer n i size index k r at left e = ground (arith, at, left, e)

module _ (sprintf_d : ℕ → List ℕ) where
  length-write_comb :
      (r : ℕ) (s : Combining) → length (write_comb sprintf_d r s).combs ≡ length s.combs + 1
  unfolding write_comb
  length-write_comb r s = length-append s.combs _

  -- One number is chosen and `k` are left, which `inner` chooses unless there are none.
  length-chosen :
      (n index k r : ℕ) (s inner : Combining)
      → r ≡ index + suc k
      → ((j : ℕ) → k ≡ suc j → length inner.combs ≡ length s.combs + choose n (suc j))
      → length (if index + 1 == r then write_comb sprintf_d r s else inner).combs
        ≡ length s.combs + choose n k
  unfolding choose
  length-chosen n index zero r s inner left more =
      rw ((==_iff (index + 1) r).1 (omega (arith, left))) (length-write_comb r s)
  length-chosen n index (suc k) r s inner left more =
      rw (==_eq_false (index + 1) r (λ e. omega (arith, e, left))) (more k refl)

  -- With `k + 1` numbers left to choose.
  length-combs_loop :
      (n : ℕ) (arr : List ℕ) (i size index k r : ℕ) (s : Combining)
      → i + n ≡ size
      → r ≡ index + suc k
      → length (combs_loop sprintf_d n arr i size index r s).combs
        ≡ length s.combs + choose n (suc k)
  unfolding combs_loop choose
  length-combs_loop zero arr i size index k r s at left = omega arith
  length-combs_loop (suc n) arr i size index k r s at left =
      let inside : ltb i size ≡ true = (ltb_iff i size).1 (omega (arith, at)) in
      let chosen : Combining = record s { data_of = set s.data_of index (get_or arr i 0) } in
      let after : Combining =
        if index + 1 == r
        then write_comb sprintf_d r chosen
        else combs_loop sprintf_d n arr (i + 1) size (index + 1) r chosen in
      let taken : length after.combs ≡ length s.combs + choose n k =
        length-chosen n index k r chosen
          (combs_loop sprintf_d n arr (i + 1) size (index + 1) r chosen) left
          (λ j e.
            length-combs_loop n arr (i + 1) size (index + 1) j r chosen (omega (arith, at))
              (omega (arith, left, e))) in
      elim (Bool-cases (leb (r - index) (size - i))) [
        | inl e ↦
            rw (inside, e) omega
              (
                arith,
                taken,
                length-combs_loop n arr (i + 1) size index k r after (omega (arith, at)) left,
              )
        | inr e ↦
            rw (inside, e) omega
              (arith, choose-lt (suc n) (suc k) (fewer n i size index k r at left e))
      ]

  length-get_combination :
      (fresh : List ℕ) (n r : ℕ) → length (get_combination sprintf_d fresh n r) ≡ choose n r
  unfolding get_combination combination_util choose
  length-get_combination fresh n zero = length-write_comb 0 _
  length-get_combination fresh n (suc k) =
      rw (length, ==_eq_false 0 (suc k) (λ e. omega (arith, e)))
        (length-combs_loop n (arr_loop n 0) 0 n 0 k (suc k) _ (omega arith) (omega arith)
          ∙ zero-add (choose n (suc k)))

-- The factorial without a bound.
fact : ℕ → ℕ
fact zero = 1
fact (suc n) = suc n * fact n

fact-positive : (n : ℕ) → 0 < fact n
unfolding fact
fact-positive zero = omega arith
fact-positive (suc n) = grind (arith, fact-positive n)

choose_self : (n : ℕ) → choose n n ≡ 1
unfolding choose
choose_self zero = refl
choose_self (suc n) = omega (arith, choose_self n, choose-lt n (suc n) (omega arith))

pascal :
    (a b s t f x y : ℕ)
    → a * (x * (t * y)) ≡ f
    → b * (s * x * y) ≡ f
    → (a + b) * ((s * x) * (t * y)) ≡ (s + t) * f
pascal a b s t f x y p q =
    let spread : (a + b) * ((s * x) * (t * y)) ≡ s * (a * (x * (t * y))) + t * (b * (s * x * y)) =
      simp (add-mul, mul_assoc, mul_comm, mul_left_comm) in
    spread
    ∙ ap (λ e. s * e + t * (b * (s * x * y))) p
    ∙ ap (λ e. s * f + t * e) q
    ∙ sym (add-mul s t f)

choose-fact : (n r m : ℕ) → n ≡ r + m → choose n r * (fact r * fact m) ≡ fact n
unfolding fact choose
choose-fact zero zero m at = let same : m ≡ 0 = omega (arith, at) in omega (arith, ap fact same)
choose-fact (suc n) zero m at =
    let same : suc n ≡ m = omega (arith, at) in omega (arith, ap fact same)
choose-fact zero (suc r) m at = absurd (omega (arith, at))
choose-fact (suc n) (suc r) zero at =
    let same : n ≡ r = omega (arith, at) in
    subst (λ a. choose (suc n) (suc a) * (fact (suc a) * fact 0) ≡ fact (suc n)) same
      (omega (arith, ap (λ e. e * (fact (suc n) * 1)) (choose_self (suc n))))
choose-fact (suc n) (suc r) (suc m) at =
    pascal (choose n r) (choose n (suc r)) (suc r) (suc m) (fact n) (fact r) (fact m)
      (choose-fact n r (suc m) (omega (arith, at))) (choose-fact n (suc r) m (omega (arith, at)))
    ∙ ap (λ e. e * fact n) (omega (arith, at))

fact-le : (n d m : ℕ) → m ≡ n + d → fact n ≤ fact m
unfolding fact
fact-le n zero m at = omega (arith, ap fact at, ap fact (add-zero n))
fact-le n (suc d) zero at = absurd (omega (arith, at))
fact-le n (suc d) (suc m) at = grind (arith, fact-le n d m (omega (arith, at)))

fact-lt : (n : ℕ) → n ≤ 20 → fact n < u64_mod
unfolding fact
fact-lt n le = omega (arith, fact-le n (20 - n) 20 (omega (arith, le)))

factorial_lem : (n : ℕ) → n ≤ 20 → factorial n ≡ fact n
unfolding factorial fact
factorial_lem zero le = refl
factorial_lem (suc n) le =
    ap (λ e. suc n * e % u64_mod) (factorial_lem n (omega (arith, le)))
    ∙ mod-eq_of_lt {n = suc n * fact n} {m = u64_mod} (fact-lt (suc n) le)

factor-le : (c d f : ℕ) → c * d ≡ f → 0 < f → d ≤ f
factor-le zero d f e positive = omega (arith, e, positive)
factor-le (suc c) d f e positive = omega (arith, e, suc-mul c d)

-- For at most 20 relations and a size up to their number, exactly as many combinations are stored as
-- joinEnumeration.c allocates entries for them, whatever `sprintf` writes.
pub length-get_combination-numb_of_combs :
    (sprintf_d : ℕ → List ℕ) (fresh : List ℕ) (n r : ℕ)
    → n ≤ 20
    → r ≤ n
    → length (get_combination sprintf_d fresh n r) ≡ numb_of_combs n r
unfolding numb_of_combs
length-get_combination-numb_of_combs sprintf_d fresh n r small le =
    let m : ℕ = n - r in
    let divisor : ℕ = fact r * fact m in
    let whole : choose n r * divisor ≡ fact n = choose-fact n r m (omega (arith, le)) in
    let some_place : 0 < divisor = grind (arith, fact-positive r, fact-positive m) in
    let fits : divisor < u64_mod =
      omega
        (arith, fact-lt n small, factor-le (choose n r) divisor (fact n) whole (fact-positive n)) in
    rw
      (
        length-get_combination sprintf_d fresh n r,
        factorial_lem n small,
        factorial_lem r (omega (arith, small, le)),
        factorial_lem m (omega (arith, small)),
        mod-eq_of_lt {n = divisor} {m = u64_mod} fits,
        sym whole,
      )
      (sym (mul-div_cancel (choose n r) {n = divisor} some_place))
