-- ===== src/Reorder/Powers.antt =====
-- src/functions.c: the number of buckets is the next power of two.
use native.Mathlib.Nat.{two-pow-succ, mod-eq_of_lt}
use join_operator_software_d.Prelude.{
  ℕ, zero, suc, ◌+◌, ◌*◌, ◌^◌, ◌≤◌, ◌<◌, ◌≡◌, refl, ap, ◌%◌, arith, inl, inr, Bool-cases, ltb,
  ltb_iff, u64_mod,
}
use join_operator_software_d.Reorder.{find_next_power_loop, find_next_power}

-- The least power of two that is not below `number`.
pub record IsNextPower (number power : ℕ) : Type 0 where
  pub exponent : ℕ
  pub is_power : power ≡ 2 ^ exponent
  pub enough : number ≤ power
  pub least : power < 2 * number

k_zero : (k : ℕ) → k + 0 ≡ k
k_zero k = omega arith

k_suc : (k : ℕ) → k + 1 ≡ suc k
k_suc k = omega arith

find_next_power_loop-IsNextPower :
    (n number k : ℕ)
    → 2 ^ k < 2 * number
    → number ≤ 2 ^ (k + n)
    → number ≤ 2 ^ 63
    → IsNextPower number (find_next_power_loop n number (2 ^ k))
find_next_power_loop-IsNextPower zero number k lt le word = record {
  exponent = k;
  is_power = refl;
  enough = omega (arith, le, ap (λ (m : ℕ). 2 ^ m) (k_zero k));
  least = lt;
}
find_next_power_loop-IsNextPower (suc n) number k lt le word =
    elim (Bool-cases (ltb (2 ^ k) number)) [
      | inl more ↦
          let double : 2 ^ (k + 1) ≡ (2 ^ k * 2) % u64_mod = omega (
            arith,
            two-pow-succ k,
            ap (λ (m : ℕ). 2 ^ m) (k_suc k),
            mod-eq_of_lt {n = 2 ^ k * 2} {m = u64_mod}
                (omega (arith, word, (ltb_iff (2 ^ k) number).0 more)),
          ) in
          let move : k + suc n ≡ k + 1 + n = omega arith in
          rw (more, ← double)
            (find_next_power_loop-IsNextPower n number (k + 1)
              (omega (
                arith,
                two-pow-succ k,
                ap (λ (m : ℕ). 2 ^ m) (k_suc k),
                (ltb_iff (2 ^ k) number).0 more,
              ))
              (omega (arith, le, ap (λ (m : ℕ). 2 ^ m) move)) word)
      | inr done ↦
          rw done
            (record { exponent = k; is_power = refl; enough = ground (arith, done); least = lt })
    ]

-- For a number from 1 to 2^63 the loop ends with the least power of two that is not below it.
pub find_next_power-IsNextPower :
    (number : ℕ) → 0 < number → number ≤ 2 ^ 63 → IsNextPower number (find_next_power number)
unfolding find_next_power
find_next_power-IsNextPower number pos le =
    find_next_power_loop-IsNextPower 64 number 0 (omega (arith, pos)) (omega (arith, le)) le
