-- ===== src/Radix.antt =====
-- src/radixHashJoin.c: an index over one relation is fetched or built, the other relation is fetched
-- reordered or reordered to the same number of buckets, and the index is searched for its tuples. The
-- warehouses keep what later joins of the same columns can use again.
pub mod Stock
pub mod Sides
pub mod Plans
pub mod Indexes
pub mod Joins
pub mod History
use join_operator_software_d.Prelude.{
  ℕ, ◌≤◌, Option, none, some, List, if◌then◌else◌, ◌==◌, ltb, leb,
}
use join_operator_software_d.Structs.{
  Tuple, Relation, ReorderedR, IndexArray, HeadResult, first_reordered,
}
use join_operator_software_d.Index.{indexing}
use join_operator_software_d.Search.{search_thread_ver}
use join_operator_software_d.Reorder.{reorder_relation}
use join_operator_software_d.Warehouse.{
  IndexWare, ReWarehouse, fetch_from_index_warehouse, fetch_from_re_warehouse,
  add_to_index_warehouse, add_to_re_warehouse,
}

-- A relation with its place in the database, `realRel` and `realCol`.
pub record ColumnRelation : Type 0 where
  pub relation : Relation
  pub real_rel : ℕ
  pub real_col : ℕ

-- The two warehouses, which are global variables.
pub record Warehouses : Type 0 where
  pub indexes : List IndexWare
  pub reordered : ReWarehouse

-- `indArr`, or `RoR` while `indArr` is `NULL`.
pub data IndexSide : Type 0 where
  fetched : IndexArray → IndexSide
  reordered_only : ReorderedR → IndexSide

-- The variables once both sides are there.
pub record Plan : Type 0 where
  pub side : IndexSide
  pub ros : ReorderedR
  pub h1 : ℕ
  pub switched : ℕ
  pub houses : Warehouses

abbrev pub fetch_index : Warehouses → ColumnRelation → Option (IndexArray × ℕ)
fetch_index w r = fetch_from_index_warehouse w.indexes r.real_rel r.real_col

abbrev pub fetch_re : Warehouses → ColumnRelation → ℕ → Option ReorderedR
fetch_re w r h1 = fetch_from_re_warehouse w.reordered r.real_rel r.real_col h1

abbrev pub add_index : Warehouses → ColumnRelation → ℕ → IndexArray → Warehouses
add_index w r h1 ind_arr = record w {
  indexes = add_to_index_warehouse w.indexes r.real_rel r.real_col h1 ind_arr;
}

abbrev pub add_re : Warehouses → ColumnRelation → ℕ → ReorderedR → ℕ → Warehouses
add_re w r h1 array best = record w {
  reordered = add_to_re_warehouse w.reordered r.real_rel r.real_col h1 array best;
}

-- The warehouses after a new index, where `switched` was `before` at the call.
unfoldable pub keep_index : ColumnRelation → ColumnRelation → ℕ → Plan → IndexArray → Warehouses
keep_index r s before p ind_arr =
    if before == 1
    then add_index p.houses s p.h1 ind_arr
    else if before == 0
    then (if p.switched == 0
        then add_index p.houses r p.h1 ind_arr
        else add_index p.houses s p.h1 ind_arr)
    else p.houses

unfoldable pub make_index :
    ColumnRelation → ColumnRelation → ℕ → Plan → IndexSide → IndexArray × Warehouses
make_index r s before p (fetched ind_arr) = (ind_arr, p.houses)
make_index r s before p (reordered_only ror) =
    let ind_arr = indexing ror p.h1 in (ind_arr, keep_index r s before p ind_arr)

-- `margin` stands for floating point, `fresh r` for what `malloc` leaves and `order r` for the order in
-- which the threads place the tuples of `r`.
module _ (margin : ℕ → ℕ) (fresh : Relation → List Tuple) (order : Relation → List ℕ) where
  abbrev pub reorder : ColumnRelation → ℕ → ReorderedR × ℕ
  reorder r h1 = reorder_relation margin (fresh r.relation) (order r.relation) r.relation h1

  -- `RoX = reorderRelation(..., &h1); AddToReWarehouse(..., h1, RoX, best);`
  unfoldable pub reorder_and_add : Warehouses → ColumnRelation → ℕ → ℕ → ReorderedR × ℕ × Warehouses
  reorder_and_add w r h1 best = let p = reorder r h1 in (p.0, p.1, add_re w r p.1 p.0 best)

  -- `RoX = FetchFromReWarehouse(..., &h1);`, and the two calls above where that is `NULL`.
  unfoldable pub fetch_or_reorder :
      Warehouses → ColumnRelation → ℕ → ℕ → ReorderedR × ℕ × Warehouses
  fetch_or_reorder w r h1 best = elim (fetch_re w r h1) [
    | some array ↦ (array, h1, w)
    | none ↦ reorder_and_add w r h1 best
  ]

  -- `*switched == 0` with no index: neither column has been joined yet, or so it should be.
  unfoldable pub plan_new : Warehouses → ColumnRelation → ColumnRelation → Plan
  plan_new w r s = elim (fetch_re w r first_reordered) [
    | some ror ↦
        let b = fetch_or_reorder w s first_reordered 0 in
        record { side = reordered_only ror; ros = b.0; h1 = b.1; switched = 0; houses = b.2 }
    | none ↦ elim (fetch_re w s first_reordered) [
      | some ror ↦
          let b = reorder_and_add w r first_reordered 0 in
          record { side = reordered_only ror; ros = b.0; h1 = b.1; switched = 0; houses = b.2 }
      | none ↦
          if ltb r.relation.size s.relation.size
          then (let a = reorder_and_add w r first_reordered 1 in
              let b = reorder_and_add a.2 s a.1 0 in
              record { side = reordered_only a.0; ros = b.0; h1 = b.1; switched = 0; houses = b.2 })
          else (let a = reorder_and_add w s first_reordered 1 in
              let b = reorder_and_add a.2 r a.1 0 in
              record { side = reordered_only a.0; ros = b.0; h1 = b.1; switched = 1; houses = b.2 })
    ]
  ]

  -- `*switched == 0`: both relations are whole columns.
  unfoldable pub plan_columns : Warehouses → ColumnRelation → ColumnRelation → Plan
  plan_columns w r s = elim (fetch_index w r) [
    | some found ↦
        let b = fetch_or_reorder w s found.1 0 in
        record { side = fetched found.0; ros = b.0; h1 = b.1; switched = 0; houses = b.2 }
    | none ↦ elim (fetch_index w s) [
      | some found ↦
          let b = fetch_or_reorder w r found.1 0 in
          record { side = fetched found.0; ros = b.0; h1 = b.1; switched = 1; houses = b.2 }
      | none ↦ plan_new w r s
    ]
  ]

  -- `*switched == 1`: the second relation is a whole column.
  unfoldable pub plan_column : Warehouses → ColumnRelation → ColumnRelation → Plan
  plan_column w r s = elim (fetch_index w s) [
    | some found ↦
        let b = reorder r found.1 in
        record { side = fetched found.0; ros = b.0; h1 = b.1; switched = 1; houses = w }
    | none ↦
        let a = fetch_or_reorder w s first_reordered 1 in
        let b = reorder r a.1 in
        record { side = reordered_only a.0; ros = b.0; h1 = b.1; switched = 1; houses = a.2 }
  ]

  -- The other values of `*switched`: no relation is a whole column.
  unfoldable pub plan_parts : Warehouses → ColumnRelation → ColumnRelation → Plan
  plan_parts w r s =
      if leb r.relation.size s.relation.size
      then (let a = reorder r first_reordered in
          let b = reorder s a.1 in
          record { side = reordered_only a.0; ros = b.0; h1 = b.1; switched = 0; houses = w })
      else (let a = reorder s first_reordered in
          let b = reorder r a.1 in
          record { side = reordered_only a.0; ros = b.0; h1 = b.1; switched = 1; houses = w })

  unfoldable pub plan_join : Warehouses → ColumnRelation → ColumnRelation → ℕ → Plan
  plan_join w r s switched =
      if switched == 0
      then plan_columns w r s
      else if switched == 1
      then plan_column w r s
      else plan_parts w r s

  -- The result list with `switched` and the warehouses after the call. `schedule n` is the order in
  -- which the threads run the `n` jobs of the search; `none` would be a wait without end.
  unfoldable pub radix_hash_join :
      (ℕ → List ℕ)
      → Warehouses
      → ColumnRelation
      → ColumnRelation
      → ℕ
      → Option HeadResult × ℕ × Warehouses
  radix_hash_join schedule w r s switched =
      let p = plan_join w r s switched in
      let index = make_index r s switched p p.side in
      (search_thread_ver index.0 p.ros (schedule p.ros.p_sum_arr.psum_size), p.switched, index.1)
