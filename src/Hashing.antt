-- ===== src/Hashing.antt =====
-- src/hashing.c: the second hash, which picks a bucket of an index, and the first hash of
-- src/functions.c, which picks a bucket of the reordered relation.
use Prim.Native.Nat.{bit_and, bit_xor, digits, bit_and-bitwise, min}
use join_operator_software_d.Prelude.{ℕ, zero, suc, ◌+◌, ◌-◌, ◌/◌, ◌%◌, ◌^◌, ◌≤◌, ◌<◌, arith}
use native.Mathlib.Nat.{one-le-pow}

-- `pow(2, hash)`, which is exact below 64 bits.
unfoldable pub hash1_range : ℕ → ℕ
hash1_range hash1 = 2 ^ hash1

unfoldable pub hash2_range : ℕ → ℕ
hash2_range hash2 = 2 ^ hash2

-- `>>` is the quotient by a power of two.
pub hashing : ℕ → ℕ → ℕ → ℕ
unfolding hash2_range
hashing value hash1 hash2 =
    let v = value / 2 ^ hash1 in
    let range = hash2_range hash2 in
    bit_and (bit_xor (bit_xor v (v / 2 ^ (hash1 + 3))) (v / 2 ^ (hash1 + 5))) (range - 1)

unfoldable pub hash1_2 : ℕ → ℕ → ℕ
hash1_2 key len = key % len

digits-le : (n a b : ℕ) → digits (λ _. zero) min n a b ≤ b
digits-le zero zero b = omega arith
digits-le zero (suc a) b = omega arith
digits-le (suc n) zero b = omega arith
digits-le (suc n) (suc a) b = omega (arith, digits-le n (suc a / 2) (b / 2))

bit_and-le : (a b : ℕ) → bit_and a b ≤ b
bit_and-le a b = omega (arith, bit_and-bitwise a b, digits-le a a b)

-- The second hash is inside the bucket array, for every value and any numbers of bits.
pub hashing-lt : (value hash1 hash2 : ℕ) → hashing value hash1 hash2 < hash2_range hash2
unfolding hashing
hashing-lt value hash1 hash2 = omega (arith, one-le-pow hash2 2, bit_and-le _ (2 ^ hash2 - 1))

pub hash1_2-lt : (key len : ℕ) → 0 < len → hash1_2 key len < len
unfolding hash1_2
hash1_2-lt key len h = omega arith
