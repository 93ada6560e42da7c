-- ===== src/BitVector/Bits.antt =====
-- src/bitVector.c: a bit that is set is read, and the other bits stay.
use Prim.Native.Nat.{digits, min, max, bit_and, bit_or, bit_and-bitwise, bit_or-bitwise}
use native.Mathlib.Decide.{ℕ_discrete}
use native.Mathlib.Nat.{two-pow-succ, one-le-pow}
use native.Mathlib.Omega.{arith}
use join_operator_software_d.Prelude.{
  ℕ, zero, suc, ◌+◌, ◌*◌, ◌/◌, ◌%◌, ◌^◌, ◌≤◌, ◌<◌, ◌≡◌, ◌≢◌, refl, sym, ap, ◌∙◌, List,
  if◌then◌else◌, ◌==◌, ==_iff, ==_eq_false, length, get_or, set, get_or-set_self, get_or-set_ne,
}
use join_operator_software_d.BitVector.{set_bit, test_bit}

-- The rounds of an operation on digits beyond the digits of the first number change nothing.
module _ (z : ℕ → ℕ) (f : ℕ → ℕ → ℕ) where
  digits_enough : (m n a b : ℕ) → a ≤ m → a ≤ n → digits z f m a b ≡ digits z f n a b
  digits_enough zero zero zero b p q = refl
  digits_enough zero (suc n) zero b p q = refl
  digits_enough (suc m) zero zero b p q = refl
  digits_enough (suc m) (suc n) zero b p q = refl
  digits_enough zero n (suc a) b p q = absurd (omega (arith, p))
  digits_enough (suc m) zero (suc a) b p q = absurd (omega (arith, q))
  digits_enough (suc m) (suc n) (suc a) b p q =
      ap (λ (r : ℕ). r * 2 + f (suc a % 2) (b % 2))
        (digits_enough m n (suc a / 2) (b / 2) (omega (arith, p)) (omega (arith, q)))

  digits_first :
      (a b : ℕ)
      → digits z f (suc a) (suc a) b
        ≡ digits z f (suc a / 2) (suc a / 2) (b / 2) * 2 + f (suc a % 2) (b % 2)
  digits_first a b =
      ap (λ (r : ℕ). r * 2 + f (suc a % 2) (b % 2))
        (digits_enough a (suc a / 2) (suc a / 2) (b / 2) (omega arith) (omega arith))

and_halves : (a b : ℕ) → bit_and a b ≡ bit_and (a / 2) (b / 2) * 2 + min (a % 2) (b % 2)
and_halves zero b = omega (arith, bit_and-bitwise 0 b, bit_and-bitwise 0 (b / 2))
and_halves (suc a) b = omega (
  arith,
  bit_and-bitwise (suc a) b,
  digits_first (λ c. zero) min a b,
  bit_and-bitwise (suc a / 2) (b / 2),
)

or_halves : (a b : ℕ) → bit_or a b ≡ bit_or (a / 2) (b / 2) * 2 + max (a % 2) (b % 2)
or_halves zero b = omega (arith, bit_or-bitwise 0 b, bit_or-bitwise 0 (b / 2))
or_halves (suc a) b = omega (
  arith,
  bit_or-bitwise (suc a) b,
  digits_first (λ c. c) max a b,
  bit_or-bitwise (suc a / 2) (b / 2),
)

-- Digit `p` of a number.
bit : ℕ → ℕ → ℕ
bit zero w = w % 2
bit (suc p) w = bit p (w / 2)

bit-le : (p w : ℕ) → bit p w ≤ 1
unfolding bit
bit-le zero w = omega arith
bit-le (suc p) w = bit-le p (w / 2)

and_none : (n w : ℕ) → w ≤ n → bit_and w 0 ≡ 0
and_none n zero le = omega (arith, bit_and-bitwise 0 0)
and_none zero (suc w) le = absurd (omega (arith, le))
and_none (suc n) (suc w) le =
    omega (arith, and_halves (suc w) 0, and_none n (suc w / 2) (omega (arith, le)))

or_none : (n w : ℕ) → w ≤ n → bit_or w 0 ≡ w
or_none n zero le = omega (arith, bit_or-bitwise 0 0)
or_none zero (suc w) le = absurd (omega (arith, le))
or_none (suc n) (suc w) le =
    omega (arith, or_halves (suc w) 0, or_none n (suc w / 2) (omega (arith, le)))

power_half : (p : ℕ) → (2 ^ suc p / 2 ≡ 2 ^ p) × (2 ^ suc p % 2 ≡ 0)
power_half p = (omega (arith, two-pow-succ p), omega (arith, two-pow-succ p))

bit_and-bit : (p w : ℕ) → bit_and w (2 ^ p) ≡ bit p w * 2 ^ p
unfolding bit
bit_and-bit zero w = omega (arith, and_halves w 1, and_none (w / 2) (w / 2) (omega arith))
bit_and-bit (suc p) w =
    let half = power_half p in
    let rest = bit_and-bit p (w / 2) in
    let step : bit_and w (2 ^ suc p)
        ≡ bit_and (w / 2) (2 ^ suc p / 2) * 2 + min (w % 2) (2 ^ suc p % 2) =
      and_halves w (2 ^ suc p) in
    grind (arith, step, half.0, half.1, rest, two-pow-succ p)

-- The digits of a number after `or` with a power of two.
or_power_self : (p w : ℕ) → bit p (bit_or w (2 ^ p)) ≡ 1
unfolding bit
or_power_self zero w = omega (arith, or_halves w 1, or_none (w / 2) (w / 2) (omega arith))
or_power_self (suc p) w =
    let half = power_half p in
    let under : bit_or w (2 ^ suc p) / 2 ≡ bit_or (w / 2) (2 ^ p) =
      grind (arith, or_halves w (2 ^ suc p), half.0, half.1) in
    ap (bit p) under ∙ or_power_self p (w / 2)

or_power_other : (p q w : ℕ) → p ≢ q → bit q (bit_or w (2 ^ p)) ≡ bit q w
unfolding bit
or_power_other zero zero w ne = absurd (ne refl)
or_power_other zero (suc q) w ne =
    let under : bit_or w 1 / 2 ≡ w / 2 =
      omega (arith, or_halves w 1, or_none (w / 2) (w / 2) (omega arith)) in
    ap (bit q) under
or_power_other (suc p) zero w ne = grind (arith, or_halves w (2 ^ suc p), (power_half p).1)
or_power_other (suc p) (suc q) w ne =
    let half = power_half p in
    let under : bit_or w (2 ^ suc p) / 2 ≡ bit_or (w / 2) (2 ^ p) =
      grind (arith, or_halves w (2 ^ suc p), half.0, half.1) in
    ap (bit q) under ∙ or_power_other p q (w / 2) (λ e. ne (ap suc e))

test_word : (p w : ℕ) → (if bit_and w (2 ^ p) == 0 then 0 else 1) ≡ bit p w
test_word p w = elim (ℕ_discrete (bit p w) 0) [
  | yes e ↦
      let nothing : bit_and w (2 ^ p) ≡ 0 =
        bit_and-bit p w ∙ ap (λ (b : ℕ). b * 2 ^ p) e ∙ omega arith in
      rw ((==_iff (bit_and w (2 ^ p)) 0).1 nothing) (sym e)
  | no ne ↦
      let one : bit p w ≡ 1 = omega (arith, ne, bit-le p w) in
      let something : bit_and w (2 ^ p) ≡ 2 ^ p =
        bit_and-bit p w ∙ ap (λ (b : ℕ). b * 2 ^ p) one ∙ omega arith in
      rw
        (==_eq_false (bit_and w (2 ^ p)) 0
          (λ z. absurd (omega (arith, z, something, one-le-pow p 2))))
        (sym one)
]

test_bit-bit : (a : List ℕ) (j : ℕ) → test_bit a j ≡ bit (j % 64) (get_or a (j / 64) 0)
unfolding test_bit
test_bit-bit a j = test_word (j % 64) (get_or a (j / 64) 0)

-- After a bit inside the array is set, it is read as 1, and every other bit is read as before.
pub test_bit-set_bit :
    (distinct_array : List ℕ) (k j : ℕ)
    → k / 64 < length distinct_array
    → test_bit (set_bit distinct_array k) j ≡ (if j == k then 1 else test_bit distinct_array j)
unfolding set_bit
test_bit-set_bit a k j lt =
    let word = bit_or (get_or a (k / 64) 0) (2 ^ (k % 64)) in
    test_bit-bit (set_bit a k) j ∙ elim (ℕ_discrete j k) [
      | yes e ↦ rw ((==_iff j k).1 e) (
          ap (λ (m : ℕ). bit (m % 64) (get_or (set a (k / 64) word) (m / 64) 0)) e
          ∙ ap (bit (k % 64)) (get_or-set_self a (k / 64) word 0 lt)
          ∙ or_power_self (k % 64) (get_or a (k / 64) 0))
      | no ne ↦ rw (==_eq_false j k ne) (elim (ℕ_discrete (k / 64) (j / 64)) [
        | yes same ↦
            let other : k % 64 ≢ j % 64 = λ e. ne (omega (arith, e, same)) in
            ap (λ (i : ℕ). bit (j % 64) (get_or (set a (k / 64) word) i 0)) (sym same)
            ∙ ap (bit (j % 64)) (get_or-set_self a (k / 64) word 0 lt)
            ∙ or_power_other (k % 64) (j % 64) (get_or a (k / 64) 0) other
            ∙ ap (λ (i : ℕ). bit (j % 64) (get_or a i 0)) same
            ∙ sym (test_bit-bit a j)
        | no apart ↦
            ap (bit (j % 64)) (get_or-set_ne a (k / 64) (j / 64) word 0 apart)
            ∙ sym (test_bit-bit a j)
      ])
    ]
