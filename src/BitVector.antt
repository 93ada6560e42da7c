-- ===== src/BitVector.antt =====
-- src/bitVector.c: an array of 64-bit words as a vector of bits.
pub mod Bits
use Prim.Native.Nat.{bit_and, bit_or}
use join_operator_software_d.Prelude.{ℕ, ◌/◌, ◌%◌, ◌^◌, List, if◌then◌else◌, ◌==◌, get_or, set}

abbrev pub word_bits : ℕ
word_bits = 64

unfoldable pub set_bit : List ℕ → ℕ → List ℕ
set_bit distinct_array k =
    let i = k / word_bits in
    let pos = k % word_bits in set distinct_array i (bit_or (get_or distinct_array i 0) (2 ^ pos))

unfoldable pub test_bit : List ℕ → ℕ → ℕ
test_bit distinct_array k =
    let i = k / word_bits in
    let pos = k % word_bits in if bit_and (get_or distinct_array i 0) (2 ^ pos) == 0 then 0 else 1
