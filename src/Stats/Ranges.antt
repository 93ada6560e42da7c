-- ===== src/Stats/Ranges.antt =====
-- src/getStats.c: the range of a column, and that a filter leaves its rows inside the range.
use mathlib.Core.Path.{subst}
use native.Mathlib.Decide.{ℕ_discrete}
use join_operator_software_d.Prelude.{
  ℕ, zero, suc, ◌+◌, ◌-◌, ◌≤◌, ◌<◌, ◌≡◌, ◌≢◌, refl, ap, arith, ◌⊎◌, inl, inr, Bool-cases, List,
  if◌then◌else◌, ◌==◌, ==_eq_false, ltb, ltb_iff, get_or, add64, sub64, u64_mod,
}
use join_operator_software_d.Query.{less, greater, equal}
use join_operator_software_d.Joint.{apply_filter}
use join_operator_software_d.BitVector.{test_bit}
use join_operator_software_d.Stats.{
  Stats, range_loop, fill_stats_array, less_stats, greater_stats, equal_stats, filter_column,
}

-- The loop keeps a range that holds the rows it has passed.
record Spans (col : List ℕ) (n : ℕ) (s : ℕ × ℕ) : Type 0 where
  low : (k : ℕ) → k < n → s.0 ≤ get_or col k 0
  high : (k : ℕ) → k < n → get_or col k 0 ≤ s.1
  low_row : ℕ
  high_row : ℕ
  is_low : get_or col low_row 0 ≡ s.0
  is_high : get_or col high_row 0 ≡ s.1
  low_lt : low_row ≤ n - 1
  high_lt : high_row ≤ n - 1

lower : (v m : ℕ) → ((if ltb v m then v else m) ≤ v) × ((if ltb v m then v else m) ≤ m)
lower v m = (ground arith, ground arith)

higher : (v m : ℕ) → (v ≤ (if ltb m v then v else m)) × (m ≤ (if ltb m v then v else m))
higher v m = (ground arith, ground arith)

range_step-Spans :
    (col : List ℕ) (i : ℕ) (s : ℕ × ℕ)
    → Spans col i s
    → let v = get_or col i 0 in
      Spans col (i + 1) (if ltb v s.0 then v else s.0, if ltb s.1 v then v else s.1)
range_step-Spans col i s p =
    let v = get_or col i 0 in
    record {
      low = λ k lt. elim (ℕ_discrete k i) [
        | yes e ↦ omega (arith, (lower v s.0).0, ap (λ (j : ℕ). get_or col j 0) e)
        | no ne ↦ omega (arith, (lower v s.0).1, p.low k (omega (arith, lt, ne)))
      ];
      high = λ k lt. elim (ℕ_discrete k i) [
        | yes e ↦ omega (arith, (higher v s.1).0, ap (λ (j : ℕ). get_or col j 0) e)
        | no ne ↦ omega (arith, (higher v s.1).1, p.high k (omega (arith, lt, ne)))
      ];
      low_row = if ltb v s.0 then i else p.low_row;
      high_row = if ltb s.1 v then i else p.high_row;
      is_low = elim (Bool-cases (ltb v s.0)) [ inl f ↦ rw f refl | inr f ↦ rw f p.is_low ];
      is_high = elim (Bool-cases (ltb s.1 v)) [ inl f ↦ rw f refl | inr f ↦ rw f p.is_high ];
      low_lt = elim (Bool-cases (ltb v s.0)) [
        | inl f ↦ rw f (omega arith)
        | inr f ↦ rw f (omega (arith, p.low_lt))
      ];
      high_lt = elim (Bool-cases (ltb s.1 v)) [
        | inl f ↦ rw f (omega arith)
        | inr f ↦ rw f (omega (arith, p.high_lt))
      ];
    }

range_loop-Spans :
    (col : List ℕ) (n i : ℕ) (s : ℕ × ℕ) → Spans col i s → Spans col (i + n) (range_loop n i col s)
unfolding range_loop
range_loop-Spans col zero i s p = subst (λ (k : ℕ). Spans col k s) (omega arith) p
range_loop-Spans col (suc n) i s p =
    let v = get_or col i 0 in
    let next : ℕ × ℕ = (if ltb v s.0 then v else s.0, if ltb s.1 v then v else s.1) in
    let move : i + 1 + n ≡ i + suc n = omega arith in
    subst (λ (k : ℕ). Spans col k (range_loop n (i + 1) col next)) move
      (range_loop-Spans col n (i + 1) next (range_step-Spans col i s p))

-- The value `x` lies in the range of the statistics.
pub record IsWithin (st : Stats) (x : ℕ) : Type 0 where
  pub above : st.min_i ≤ x
  pub below : x ≤ st.max_u

-- For a column of at least one row, every value of its rows lies between the minimum and the maximum
-- of its statistics, and both are values of rows.
pub fill_stats_array-IsWithin :
    (col : List ℕ) (rows : ℕ)
    → 0 < rows
    → let st = fill_stats_array col rows in
      ((k : ℕ) → k < rows → IsWithin st (get_or col k 0))
      × ((k : ℕ) × (k < rows) × (get_or col k 0 ≡ st.min_i))
      × ((k : ℕ) × (k < rows) × (get_or col k 0 ≡ st.max_u))
unfolding fill_stats_array
fill_stats_array-IsWithin col rows pos =
    let first = get_or col 0 0 in
    let z : 0 + rows ≡ rows = omega arith in
    let p : Spans col rows (range_loop rows 0 col (first, first)) =
      subst (λ (k : ℕ). Spans col k (range_loop rows 0 col (first, first))) z
        (range_loop-Spans col rows 0 (first, first)
          (record {
            low = λ k lt. absurd (omega (arith, lt));
            high = λ k lt. absurd (omega (arith, lt));
            low_row = 0;
            high_row = 0;
            is_low = refl;
            is_high = refl;
            low_lt = omega arith;
            high_lt = omega arith;
          })) in
    (
      λ k lt. record { above = p.low k lt; below = p.high k lt },
      (p.low_row, omega (arith, p.low_lt, pos), p.is_low),
      (p.high_row, omega (arith, p.high_lt, pos), p.is_high),
    )

less_stats-IsWithin :
    (ceil_ratio : ℕ → ℕ → ℕ) (scale : ℕ → ℕ → ℕ → ℕ) (survive : ℕ → ℕ → ℕ → ℕ → ℕ) (st : Stats)
    (value x : ℕ)
    → 0 < value
    → value < u64_mod
    → st.distinct_vals ≢ 0
    → x < value
    → IsWithin st x
    → IsWithin (less_stats ceil_ratio scale survive value st) x
unfolding less_stats
less_stats-IsWithin ceil_ratio scale survive st value x pos word ne lt w =
    let k2 = sub64 value 1 in
    let k2_eq : k2 ≡ value - 1 = omega (arith, pos, word) in
    elim (Bool-cases (ltb k2 st.max_u)) [
      | inr e ↦ rw e w
      | inl e ↦ elim (Bool-cases (ltb k2 st.min_i)) [
        | inl f ↦ absurd (omega (arith, (ltb_iff k2 st.min_i).0 f, w.above, k2_eq, lt))
        | inr f ↦ elim (Bool-cases (k2 == st.min_i)) [
          | inl g ↦
              rw (e, f, g, ==_eq_false st.distinct_vals 0 ne)
                (record { above = w.above; below = omega (arith, k2_eq, lt) })
          | inr g ↦ rw (e, f, g) (record { above = w.above; below = omega (arith, k2_eq, lt) })
        ]
      ]
    ]

greater_stats-IsWithin :
    (ceil_ratio : ℕ → ℕ → ℕ) (scale : ℕ → ℕ → ℕ → ℕ) (survive : ℕ → ℕ → ℕ → ℕ → ℕ) (st : Stats)
    (value x : ℕ)
    → value + 1 < u64_mod
    → st.distinct_vals ≢ 0
    → value < x
    → IsWithin st x
    → IsWithin (greater_stats ceil_ratio scale survive value st) x
unfolding greater_stats
greater_stats-IsWithin ceil_ratio scale survive st value x word ne lt w =
    let k1 = add64 value 1 in
    let k1_eq : k1 ≡ value + 1 = omega (arith, word) in
    elim (Bool-cases (ltb st.min_i k1)) [
      | inr e ↦ rw e w
      | inl e ↦ elim (Bool-cases (ltb st.max_u k1)) [
        | inl f ↦ absurd (omega (arith, (ltb_iff st.max_u k1).0 f, w.below, k1_eq, lt))
        | inr f ↦ elim (Bool-cases (k1 == st.max_u)) [
          | inl g ↦
              rw (e, f, g, ==_eq_false st.distinct_vals 0 ne)
                (record { above = omega (arith, k1_eq, lt); below = w.below })
          | inr g ↦ rw (e, f, g) (record { above = omega (arith, k1_eq, lt); below = w.below })
        ]
      ]
    ]

equal_stats-IsWithin :
    (ceil_ratio : ℕ → ℕ → ℕ) (scale : ℕ → ℕ → ℕ → ℕ) (survive : ℕ → ℕ → ℕ → ℕ → ℕ) (st : Stats)
    (value : ℕ)
    → IsWithin (equal_stats ceil_ratio scale survive value st) value
unfolding equal_stats
equal_stats-IsWithin ceil_ratio scale survive st value =
    let here : (value ≤ value) × (value ≤ value) = (omega arith, omega arith) in
    elim (Bool-cases (test_bit st.distinct_array (value - value) == 1)) [
      | inl e ↦ elim (Bool-cases (st.distinct_vals == 0)) [
        | inl f ↦ rw (e, f) (record { above = here.0; below = here.1 })
        | inr f ↦ rw (e, f) (record { above = here.0; below = here.1 })
      ]
      | inr e ↦ rw e (record { above = here.0; below = here.1 })
    ]

passes_less : (x value : ℕ) → apply_filter x less value ≡ 1 → x < value
unfolding apply_filter
passes_less x value e = ground (arith, e)

passes_greater : (x value : ℕ) → apply_filter x greater value ≡ 1 → value < x
unfolding apply_filter
passes_greater x value e = ground (arith, e)

passes_equal : (x value : ℕ) → apply_filter x equal value ≡ 1 → x ≡ value
unfolding apply_filter
passes_equal x value e = ground (arith, e)

-- A filter whose bound does not wrap.
abbrev pub IsProper : ℕ → ℕ → Type 0
IsProper op value =
    ((op ≡ less) × (0 < value) × (value < u64_mod))
    ⊎ (((op ≡ greater) × (value + 1 < u64_mod)) ⊎ (op ≡ equal))

-- When the bound of a filter does not wrap and the distinct values of the column are not 0, a value
-- in the range of the statistics that passes the filter lies in the range that the filter leaves,
-- whatever the estimates in floating point are.
pub filter_column-IsWithin :
    (ceil_ratio : ℕ → ℕ → ℕ) (scale : ℕ → ℕ → ℕ → ℕ) (survive : ℕ → ℕ → ℕ → ℕ → ℕ) (st : Stats)
    (op value x : ℕ)
    → IsProper op value
    → st.distinct_vals ≢ 0
    → IsWithin st x
    → apply_filter x op value ≡ 1
    → IsWithin (filter_column ceil_ratio scale survive op value st) x
unfolding filter_column apply_filter
filter_column-IsWithin ceil_ratio scale survive st op value x (inl p) ne w passes = rw p.0 (
    less_stats-IsWithin ceil_ratio scale survive st value x p.1 p.2 ne
      (passes_less x value (rw p.0 at passes)) w)
filter_column-IsWithin ceil_ratio scale survive st op value x (inr (inl p)) ne w passes = rw p.0 (
    greater_stats-IsWithin ceil_ratio scale survive st value x p.1 ne
      (passes_greater x value (rw p.0 at passes)) w)
filter_column-IsWithin ceil_ratio scale survive st op value x (inr (inr p)) ne w passes =
    let same : x ≡ value = passes_equal x value (rw p at passes) in
    rw (p, same) (equal_stats-IsWithin ceil_ratio scale survive st value)
