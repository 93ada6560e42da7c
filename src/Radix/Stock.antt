-- ===== src/Radix/Stock.antt =====
-- src/radixHashJoin.c: what the warehouses hold, whatever joins have run: each index and each reordered
-- relation is one of its own column.
use mathlib.Core.Path.{subst, ap₂}
use native.Mathlib.Decide.{ℕ_discrete}
use join_operator_software_d.Prelude.{
  ℕ, zero, suc, ◌<◌, ◌≡◌, ◌≢◌, refl, sym, ap, ◌∙◌, arith, ◌⊎◌, inl, inr, Bool, true, false,
  Bool-cases, Option, none, some, List, [], ◌∷◌, ◌==◌, ◌&&◌, ==_iff, ==_refl, ==_eq_false, get_or,
  get_or-set_ne, set, All, All-append, SameBag,
}
use join_operator_software_d.Structs.{Tuple, ReorderedR, IndexArray, first_reordered}
use join_operator_software_d.Index.{indexing}
use join_operator_software_d.Index.Buckets.{Bucket, all_tuples}
use join_operator_software_d.Search.Result.{Prepared}
use join_operator_software_d.Warehouse.{
  IndexWare, ReWare, ReWarehouse, fetch_from_index_warehouse, fetch_loop, fetch_from_re_warehouse,
  add_to_index_warehouse, add_to_re_warehouse,
}
use join_operator_software_d.Warehouse.Fetches.{first_of, fetch_from_index_warehouse-add}
use join_operator_software_d.Radix.{
  ColumnRelation, Warehouses, fetch_index, fetch_re, add_index, add_re,
}

-- A reordered relation that holds some tuples in `2 ^ e` buckets.
pub record IsReordering (ts : List Tuple) (e : ℕ) (ror : ReorderedR) : Type 0 where
  pub fits : e < 64
  pub buckets : List Bucket
  pub ready : Prepared e buckets ror
  pub same : SameBag (all_tuples buckets) ts

-- An index over some tuples in `2 ^ e` buckets.
pub record IsIndex (ts : List Tuple) (e : ℕ) (ind_arr : IndexArray) : Type 0 where
  pub over : ReorderedR
  pub built : ind_arr ≡ indexing over e
  pub reordering : IsReordering ts e over

-- A column with an index.
abbrev pub HasIndex : List IndexWare → ℕ → ℕ → Type 0
HasIndex ws rel col =
    (found : IndexArray × ℕ) × (fetch_from_index_warehouse ws rel col ≡ some found)

abbrev pub best_at : ReWarehouse → ℕ → ℕ → Option ReorderedR
best_at w rel col = get_or (get_or w.best_hash_values rel []) col none

and_split : (a b : Bool) → (a && b) ≡ true → (a ≡ true) × (b ≡ true)
and_split true b e = (refl, e)
and_split false b e = cc e

get_or-set_row :
    (xss : List (List (Option ReorderedR))) (a b col : ℕ) (v : Option ReorderedR)
    → b ≢ col
    → get_or (get_or (set xss a (set (get_or xss a []) b v)) a []) col none
      ≡ get_or (get_or xss a []) col none
get_or-set_row [] a b col v ne = refl
get_or-set_row (xs ∷ xss) zero b col v ne = get_or-set_ne xs b col v none ne
get_or-set_row (xs ∷ xss) (suc a) b col v ne = get_or-set_row xss a b col v ne

module _ (columns : ℕ → ℕ → List Tuple) where
  abbrev pub GoodIndex : IndexWare → Type 0
  GoodIndex w = IsIndex (columns w.rel w.col) w.hash1 w.indexes

  abbrev pub GoodRe : ReWare → Type 0
  GoodRe w = IsReordering (columns w.rel w.col) w.hash1 w.array

  -- What is kept is right, and a column with a best reordered relation has an index.
  pub record Stocked (houses : Warehouses) : Type 0 where
    pub good_indexes : All GoodIndex houses.indexes
    pub good_reordered : All GoodRe houses.reordered.wares
    pub best :
        (rel col : ℕ) (array : ReorderedR)
        → best_at houses.reordered rel col ≡ some array
        → HasIndex houses.indexes rel col

  pub fetched-IsIndex :
      (ws : List IndexWare) (rel col : ℕ) (found : IndexArray × ℕ)
      → All GoodIndex ws
      → fetch_from_index_warehouse ws rel col ≡ some found
      → IsIndex (columns rel col) found.1 found.0
  unfolding fetch_from_index_warehouse
  fetched-IsIndex [] rel col found good e = cc e
  fetched-IsIndex (w ∷ ws) rel col found good e = elim (Bool-cases (w.rel == rel && w.col == col)) [
    | inl here ↦
        let both = and_split (w.rel == rel) (w.col == col) here in
        let eq : (w.indexes, w.hash1) ≡ found = cc (rw here at e) in
        subst (λ (f : IndexArray × ℕ). IsIndex (columns rel col) f.1 f.0) eq
          (subst (λ (ts : List Tuple). IsIndex ts w.hash1 w.indexes)
            (ap₂ columns ((==_iff w.rel rel).0 both.0) ((==_iff w.col col).0 both.1)) good.0)
    | inr other ↦ fetched-IsIndex ws rel col found good.1 (rw other at e)
  ]

  pub fetch_loop-IsReordering :
      (ws : List ReWare) (rel col e : ℕ) (array : ReorderedR)
      → All GoodRe ws
      → fetch_loop ws rel col e ≡ some array
      → IsReordering (columns rel col) e array
  fetch_loop-IsReordering [] rel col h array good e = cc e
  fetch_loop-IsReordering (w ∷ ws) rel col h array good e =
      elim (Bool-cases (w.rel == rel && (w.col == col && w.hash1 == h))) [
        | inl here ↦
            let a = and_split (w.rel == rel) (w.col == col && w.hash1 == h) here in
            let b = and_split (w.col == col) (w.hash1 == h) a.1 in
            let eq : w.array ≡ array = cc (rw here at e) in
            subst (IsReordering (columns rel col) h) eq (
              subst (λ (k : ℕ). IsReordering (columns rel col) k w.array) ((==_iff w.hash1 h).0 b.1)
                (subst (λ (ts : List Tuple). IsReordering ts w.hash1 w.array)
                  (ap₂ columns ((==_iff w.rel rel).0 a.0) ((==_iff w.col col).0 b.0)) good.0))
        | inr other ↦ fetch_loop-IsReordering ws rel col h array good.1 (rw other at e)
      ]

  pub fetch_re-IsReordering :
      (houses : Warehouses) (r : ColumnRelation) (e : ℕ) (array : ReorderedR)
      → Stocked houses
      → e < 64
      → fetch_re houses r e ≡ some array
      → IsReordering (columns r.real_rel r.real_col) e array
  unfolding fetch_from_re_warehouse
  fetch_re-IsReordering houses r e array stock lt found =
      fetch_loop-IsReordering houses.reordered.wares r.real_rel r.real_col e array
        stock.good_reordered
        (rw (==_eq_false e first_reordered (λ q. absurd (omega (arith, q, lt)))) at found)

  -- A column with no index has no best reordered relation either.
  pub no_best :
      (houses : Warehouses) (r : ColumnRelation)
      → Stocked houses
      → fetch_index houses r ≡ none
      → fetch_re houses r first_reordered ≡ none
  unfolding fetch_from_re_warehouse
  no_best houses r stock e = by_best (best_at houses.reordered r.real_rel r.real_col) refl
    where
      by_best :
          (b : Option ReorderedR)
          → best_at houses.reordered r.real_rel r.real_col ≡ b
          → best_at houses.reordered r.real_rel r.real_col ≡ none
      by_best none q = q
      by_best (some array) q =
          let has = stock.best r.real_rel r.real_col array q in
          let clash : none ≡ some has.0 = sym e ∙ has.1 in cc clash

  -- One more index of a column.
  pub add_index-Good :
      (houses : Warehouses) (r : ColumnRelation) (e : ℕ) (ind_arr : IndexArray)
      → All GoodIndex houses.indexes
      → IsIndex (columns r.real_rel r.real_col) e ind_arr
      → All GoodIndex (add_index houses r e ind_arr).indexes
  unfolding add_to_index_warehouse
  add_index-Good houses r e ind_arr good new = All-append GoodIndex houses.indexes _ good (new, tt)

  -- One more reordered relation of a column.
  pub add_re-Good :
      (houses : Warehouses) (r : ColumnRelation) (e best : ℕ) (array : ReorderedR)
      → All GoodRe houses.reordered.wares
      → IsReordering (columns r.real_rel r.real_col) e array
      → All GoodRe (add_re houses r e array best).reordered.wares
  unfolding add_to_re_warehouse
  add_re-Good houses r e best array good new =
      All-append GoodRe houses.reordered.wares _ good (new, tt)

pub HasIndex-add :
    (ws : List IndexWare) (a b e : ℕ) (ind_arr : IndexArray) (rel col : ℕ)
    → HasIndex ws rel col
    → HasIndex (add_to_index_warehouse ws a b e ind_arr) rel col
HasIndex-add ws a b e ind_arr rel col has = elim (Bool-cases (a == rel && b == col)) [
  | inl here ↦ (
    has.0,
    fetch_from_index_warehouse-add ws a b e ind_arr rel col
        ∙ rw here (ap (λ (o : Option (IndexArray × ℕ)). first_of o (ind_arr, e)) has.1),
  )
  | inr other ↦ (has.0, fetch_from_index_warehouse-add ws a b e ind_arr rel col ∙ rw other has.1)
]

some_first {ℓ} : {A : Type ℓ} (o : Option A) (a : A) → (x : A) × (first_of o a ≡ some x)
some_first none a = (a, refl)
some_first (some b) a = (b, refl)

pub HasIndex-new :
    (ws : List IndexWare) (a b e : ℕ) (ind_arr : IndexArray)
    → HasIndex (add_to_index_warehouse ws a b e ind_arr) a b
HasIndex-new ws a b e ind_arr =
    let found = some_first (fetch_from_index_warehouse ws a b) (ind_arr, e) in
    (
      found.0,
      fetch_from_index_warehouse-add ws a b e ind_arr a b ∙ rw (==_refl a, ==_refl b) found.1,
    )

-- Whether a reordered relation is the new best one or not, the best ones of other columns stay.
pub best_at-add :
    (w : ReWarehouse) (a b e best rel col : ℕ) (array : ReorderedR)
    → ((rel ≡ a) × (col ≡ b))
      ⊎ (best_at (add_to_re_warehouse w a b e array best) rel col ≡ best_at w rel col)
unfolding add_to_re_warehouse
best_at-add w a b e best rel col array = elim (Bool-cases (best == 0)) [
  | inl old ↦ inr (rw old refl)
  | inr new ↦ elim (ℕ_discrete a rel) [
    | no ne ↦ inr (
        rw new (
          ap (λ (cs : List (Option ReorderedR)). get_or cs col none)
            (get_or-set_ne w.best_hash_values a rel _ [] ne)))
    | yes same ↦ elim (ℕ_discrete b col) [
      | yes also ↦ inl (sym same, sym also)
      | no ne ↦ inr (rw new (other_col same ne))
    ]
  ]
]
  where
    other_col :
        a ≡ rel
        → b ≢ col
        → get_or
            (get_or
              (set w.best_hash_values a (set (get_or w.best_hash_values a []) b (some array)))
              rel
              [])
            col
            none
          ≡ best_at w rel col
    other_col same ne =
        subst
          (λ (k : ℕ).
            get_or
              (get_or
                (set w.best_hash_values a (set (get_or w.best_hash_values a []) b (some array))) k
                [])
              col none
            ≡ best_at w k col)
          same (get_or-set_row w.best_hash_values a b col (some array) ne)
