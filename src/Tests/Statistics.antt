-- ===== src/Tests/Statistics.antt =====
-- The statistics of a small column, and of a filter on it.
use native.Mathlib.Omega.{arith}
use join_operator_software_d.Prelude.{ℕ, ◌<◌, ◌≡◌, refl, inl, List, [], ◌∷◌, get_or}
use join_operator_software_d.Joint.{apply_filter}
use join_operator_software_d.BitVector.{set_bit, test_bit}
use join_operator_software_d.BitVector.Bits.{test_bit-set_bit}
use join_operator_software_d.Stats.{Stats, fill_stats_array, filter_column}
use join_operator_software_d.Stats.Ranges.{
  IsWithin, fill_stats_array-IsWithin, filter_column-IsWithin,
}

abbrev ages : List ℕ
ages = 31 ∷ 24 ∷ 57 ∷ []

fill_stats_array-IsWithin_example :
    ((k : ℕ) → k < 3 → IsWithin (fill_stats_array ages 3) (get_or ages k 0))
    × ((k : ℕ) × (k < 3) × (get_or ages k 0 ≡ (fill_stats_array ages 3).min_i))
    × ((k : ℕ) × (k < 3) × (get_or ages k 0 ≡ (fill_stats_array ages 3).max_u))
fill_stats_array-IsWithin_example = fill_stats_array-IsWithin ages 3 (omega arith)

abbrev age_stats : Stats
age_stats = record {
  min_i = 24;
  max_u = 57;
  num_elements = 3;
  distinct_vals = 3;
  distinct_array = 1 ∷ [];
}

abbrev half : ℕ → ℕ → ℕ
half a b = 2

abbrev part : ℕ → ℕ → ℕ → ℕ
part a b c = c

abbrev rest : ℕ → ℕ → ℕ → ℕ → ℕ
rest d a b c = d

filter_column-IsWithin_example : IsWithin (filter_column half part rest 1 40 age_stats) 31
unfolding apply_filter
filter_column-IsWithin_example =
    filter_column-IsWithin half part rest age_stats 1 40 31 (inl (refl, omega arith, omega arith))
      (λ e. absurd (omega (arith, e))) (record { above = omega arith; below = omega arith }) refl

-- Bit 70 is in the second word.
test_bit-set_bit_example : test_bit (set_bit (3 ∷ 8 ∷ []) 70) 67 ≡ 1
unfolding test_bit
test_bit-set_bit_example = test_bit-set_bit (3 ∷ 8 ∷ []) 70 67 (omega arith)
