-- ===== src/Stats.antt =====
-- src/getStats.c: the statistics of the columns, which the optimiser estimates the sizes of joins from:
-- those of the data, and what filters make of them.
pub mod Ranges
use join_operator_software_d.Prelude.{
  ℕ, zero, suc, ◌+◌, ◌-◌, ◌/◌, ◌%◌, Bool, ◌&&◌, ◌||◌, List, [], ◌∷◌, if◌then◌else◌, ◌==◌, ltb,
  get_or, set, replicate, length, add64, sub64, u64_mod,
}
use join_operator_software_d.Query.{ColRel, Filter, Join, less, greater, equal}
use join_operator_software_d.BitVector.{word_bits, set_bit, test_bit}

pub record Stats : Type 0 where
  pub min_i : ℕ
  pub max_u : ℕ
  pub num_elements : ℕ
  pub distinct_vals : ℕ
  pub distinct_array : List ℕ

abbrev pub no_stats : Stats
no_stats = record { min_i = 0; max_u = 0; num_elements = 0; distinct_vals = 0; distinct_array = [] }

-- `N`
abbrev pub max_bits : ℕ
max_bits = 50000000

-- The loop for the minimum and the maximum, from row `i` on; the pair holds both.
unfoldable pub range_loop : ℕ → ℕ → List ℕ → ℕ × ℕ → ℕ × ℕ
range_loop zero i col s = s
range_loop (suc n) i col s =
    let v = get_or col i 0 in
    range_loop n (i + 1) col (if ltb v s.0 then v else s.0, if ltb s.1 v then v else s.1)

-- The loop that counts the values whose bit is not set before; the pair holds the count and the bits.
unfoldable pub distinct_loop : (ℕ → ℕ) → ℕ → ℕ → List ℕ → ℕ × List ℕ → ℕ × List ℕ
distinct_loop bit zero i col s = s
distinct_loop bit (suc n) i col s =
    let k = bit (get_or col i 0) in
    distinct_loop bit n (i + 1) col (if test_bit s.1 k == 0 then s.0 + 1 else s.0, set_bit s.1 k)

-- `ceil(bits / 64.)`, which is exact for the numbers it is called with.
abbrev pub words_for : ℕ → ℕ
words_for bits = (bits + (word_bits - 1)) / word_bits

unfoldable pub fill_stats_array : List ℕ → ℕ → Stats
fill_stats_array col rows =
    let first = get_or col 0 0 in
    let s = range_loop rows 0 col (first, first) in
    let wide = ltb max_bits (add64 (s.1 - s.0) 1) in
    let d =
      distinct_loop (λ v. if wide then (v - s.0) % max_bits else v - s.0) rows 0 col
        (0, replicate (words_for (if wide then max_bits else add64 (s.1 - s.0) 1)) 0) in
    record {
      min_i = s.0;
      max_u = s.1;
      num_elements = rows;
      distinct_vals = d.0;
      distinct_array = d.1;
    }

-- The numbers that are set to 0 where nothing is left.
abbrev pub emptied : Stats → Stats
emptied st = record st { min_i = 0; max_u = 0; num_elements = 0; distinct_vals = 0 }

-- The estimates in floating point: `ceil_ratio a b` is `ceil(a / b)`, `scale a b c` is
-- `ceil(a / b * c)`, and `survive d a b c` is `ceil(d * (1 - pow(1 - a / b, c / d)))`.
module _ (ceil_ratio : ℕ → ℕ → ℕ) (scale : ℕ → ℕ → ℕ → ℕ) (survive : ℕ → ℕ → ℕ → ℕ → ℕ) where
  -- `column < value`
  unfoldable pub less_stats : ℕ → Stats → Stats
  less_stats value st =
      let k2 = sub64 value 1 in
      let one : Stats = record st {
        max_u = k2;
        num_elements = ceil_ratio st.num_elements st.distinct_vals;
        distinct_vals = 1;
      } in
      let some_left : Stats = record st {
        max_u = k2;
        distinct_vals = scale (k2 - st.min_i) (st.max_u - st.min_i) st.distinct_vals;
        num_elements = scale (k2 - st.min_i) (st.max_u - st.min_i) st.num_elements;
      } in
      if ltb k2 st.max_u
      then (if ltb k2 st.min_i
          then emptied st
          else if k2 == st.min_i
          then (if st.distinct_vals == 0
              then record st { max_u = 0; num_elements = 0; min_i = 0 }
              else one)
          else some_left)
      else st

  -- `column > value`
  unfoldable pub greater_stats : ℕ → Stats → Stats
  greater_stats value st =
      let k1 = add64 value 1 in
      let one : Stats = record st {
        min_i = k1;
        num_elements = ceil_ratio st.num_elements st.distinct_vals;
        distinct_vals = 1;
      } in
      let some_left : Stats = record st {
        min_i = k1;
        distinct_vals = scale (st.max_u - k1) (st.max_u - st.min_i) st.distinct_vals;
        num_elements = scale (st.max_u - k1) (st.max_u - st.min_i) st.num_elements;
      } in
      if ltb st.min_i k1
      then (if ltb st.max_u k1
          then emptied st
          else if k1 == st.max_u
          then (if st.distinct_vals == 0
              then record st { max_u = 0; num_elements = 0; min_i = 0 }
              else one)
          else some_left)
      else st

  -- `column = value`. The bit that is tested is `maxU - value` after `maxU` became `value`.
  unfoldable pub equal_stats : ℕ → Stats → Stats
  equal_stats value st =
      let at : Stats = record st { min_i = value; max_u = value } in
      if test_bit st.distinct_array (value - value) == 1
      then (if st.distinct_vals == 0
          then record at { num_elements = 0 }
          else record at { num_elements = st.num_elements / st.distinct_vals; distinct_vals = 1 })
      else record at { distinct_vals = 0; num_elements = 0 }

  unfoldable pub filter_column : ℕ → ℕ → Stats → Stats
  filter_column op value st =
      if op == less
      then less_stats value st
      else if op == greater
      then greater_stats value st
      else if op == equal
      then equal_stats value st
      else st

  -- Another column of the relation, of which `f_new` of `f_old` rows are left.
  pub other_column : ℕ → ℕ → Stats → Stats
  other_column f_old f_new st =
      if f_old == 0 || st.distinct_vals == 0 then emptied st else record st {
        num_elements = f_new;
        distinct_vals = survive st.distinct_vals f_new f_old st.num_elements;
      }

  -- `for (c = 0; c < cols; c++)`, but for the columns `a` and `b`.
  pub others_loop : ℕ → ℕ → ℕ → ℕ → ℕ → ℕ → List Stats → List Stats
  others_loop zero c a b f_old f_new ss = ss
  others_loop (suc n) c a b f_old f_new ss =
      others_loop n (c + 1) a b f_old f_new (
        if c == a || c == b then ss else set ss c (other_column f_old f_new (get_or ss c no_stats)))

  -- One filter, on the statistics of the columns of its relation.
  pub filter_stats : Filter → List Stats → List Stats
  filter_stats pred ss =
      let c = pred.participant.num_col in
      let old = get_or ss c no_stats in
      let new = filter_column pred.op pred.value old in
      others_loop (length ss) 0 c c old.num_elements new.num_elements (set ss c new)

  pub filters_loop : List Filter → List (List Stats) → List (List Stats)
  filters_loop [] query_stats = query_stats
  filters_loop (pred ∷ preds) query_stats =
      let rel = pred.participant.rel in
      filters_loop preds (set query_stats rel (filter_stats pred (get_or query_stats rel [])))

  -- Two columns of one relation that are to be equal: their common range, and the estimates.
  unfoldable pub narrow : Stats → Stats → Stats × Stats
  narrow a b =
      let low = if ltb b.min_i a.min_i then a.min_i else b.min_i in
      let high = if ltb a.max_u b.max_u then a.max_u else b.max_u in
      let rows = ceil_ratio a.num_elements (add64 (sub64 high low) 1) in
      let left : Stats = record a { min_i = low; max_u = high; num_elements = rows } in
      (
        if a.num_elements == 0 || a.distinct_vals == 0 then emptied left else record left {
          distinct_vals = survive a.distinct_vals rows a.num_elements a.num_elements;
        },
        record b { min_i = low; max_u = high; num_elements = rows },
      )

  pub self_join_stats : ℕ → ℕ → List Stats → List Stats
  self_join_stats col1 col2 ss =
      let a = get_or ss col1 no_stats in
      let new = narrow a (get_or ss col2 no_stats) in
      others_loop (length ss) 0 col1 col2 a.num_elements new.0.num_elements
        (set (set ss col1 new.0) col2 new.1)

  -- The joins of two columns of one relation: the statistics, `priorities` and `p`. A join is `i`.
  pub self_joins_loop :
      List Join → ℕ → List (List Stats) × List ℕ × ℕ → List (List Stats) × List ℕ × ℕ
  self_joins_loop [] i s = s
  self_joins_loop (pred ∷ preds) i s =
      let rel = pred.participant1.rel in
      let same_rel = rel == pred.participant2.rel in
      let same_col = pred.participant1.num_col == pred.participant2.num_col in
      let done : List (List Stats) × List ℕ × ℕ = (
        set s.0 rel (
            self_join_stats pred.participant1.num_col pred.participant2.num_col
              (get_or s.0 rel [])),
        set s.1 s.2 i,
        s.2 + 1,
      ) in
      self_joins_loop preds (i + 1) (if same_rel then (if same_col then s else done) else s)

  pub execute_filter_predicates :
      List Filter → List Join → List (List Stats) → List ℕ → List (List Stats) × List ℕ
  execute_filter_predicates filters joins query_stats priorities =
      let s = self_joins_loop joins 0 (filters_loop filters query_stats, priorities, 0) in
      (s.0, s.1)
