-- ===== src/Radix/Sides.antt =====
-- src/radixHashJoin.c: one side of the join, fetched or reordered, and what that adds to the warehouses.
use mathlib.Core.Path.{subst}
use join_operator_software_d.Prelude.{
  ℕ, ◌+◌, ◌*◌, ◌/◌, ◌^◌, ◌≤◌, ◌<◌, ◌≡◌, refl, sym, ◌⊎◌, inr, Option, none, some, List, All,
}
use join_operator_software_d.Structs.{
  Tuple, Relation, ReorderedR, first_reordered, available_cache_size, sizeof_tuple,
}
use join_operator_software_d.Reorder.Ready.{Reorders, Reorderable}
use join_operator_software_d.Reorder.Sorted.{
  reorder_relation-Reorders, reorder_relation_first-Reorders,
}
use join_operator_software_d.Warehouse.{add_to_re_warehouse}
use join_operator_software_d.Radix.{
  ColumnRelation, Warehouses, fetch_re, add_re, reorder, reorder_and_add, fetch_or_reorder,
}
use join_operator_software_d.Radix.Stock.{
  IsReordering, GoodRe, Stocked, best_at, best_at-add, fetch_re-IsReordering, add_re-Good,
}

Reorders-IsReordering :
    (r : Relation) (e : ℕ) (result : ReorderedR × ℕ)
    → e < 64
    → Reorders r e result
    → (result.1 ≡ e) × IsReordering r.tuples e result.0
Reorders-IsReordering r e result lt re =
    (re.exponent, record { fits = lt; buckets = re.buckets; ready = re.ready; same = re.same })

module _ (margin : ℕ → ℕ) (fresh : Relation → List Tuple) (order : Relation → List ℕ) where
  -- A relation that the join can reorder.
  pub record Joinable (r : ColumnRelation) : Type 0 where
    pub can : Reorderable r.relation (fresh r.relation) (order r.relation)
    pub few : margin (r.relation.size * sizeof_tuple / available_cache_size) + 1 ≤ 2 ^ 63

  pub reorder-IsReordering :
      (r : ColumnRelation) (e : ℕ)
      → Joinable r
      → e < 64
      → let p = reorder margin fresh order r e in (p.1 ≡ e) × IsReordering r.relation.tuples e p.0
  reorder-IsReordering r e j lt =
      Reorders-IsReordering r.relation e (reorder margin fresh order r e) lt (
        reorder_relation-Reorders margin r.relation (fresh r.relation) (order r.relation) j.can e
          lt)

  pub reorder_first-IsReordering :
      (r : ColumnRelation)
      → Joinable r
      → 0 < r.relation.size
      → let p = reorder margin fresh order r first_reordered in
        IsReordering r.relation.tuples p.1 p.0
  reorder_first-IsReordering r j pos =
      let p = reorder margin fresh order r first_reordered in
      let (e, lt, next, re) =
        reorder_relation_first-Reorders margin r.relation (fresh r.relation) (order r.relation)
          j.can pos j.few in
      let (eq, is) = Reorders-IsReordering r.relation e p lt re in
      subst (λ (k : ℕ). IsReordering r.relation.tuples k p.0) (sym eq) is

  module _ (columns : ℕ → ℕ → List Tuple) where
    -- The relation is a whole column.
    abbrev pub IsColumn : ColumnRelation → Type 0
    IsColumn r = r.relation.tuples ≡ columns r.real_rel r.real_col

    -- A side of the join, with the warehouses after it: the indexes are as before, and so are the best
    -- reordered relations, but perhaps that of `r`, if `best` says so.
    pub record Got (houses : Warehouses) (r : ColumnRelation) (best : ℕ)
        (result : ReorderedR × ℕ × Warehouses) : Type 0 where
      pub reordering : IsReordering r.relation.tuples result.1 result.0
      pub same_indexes : result.2.indexes ≡ houses.indexes
      pub good : All (GoodRe columns) result.2.reordered.wares
      pub others :
          (rel col : ℕ)
          → ((rel ≡ r.real_rel) × (col ≡ r.real_col))
            ⊎ (best_at result.2.reordered rel col ≡ best_at houses.reordered rel col)
      pub kept :
          best ≡ 0
          → (rel col : ℕ) → best_at result.2.reordered rel col ≡ best_at houses.reordered rel col

    add_re-Got :
        (houses : Warehouses) (r : ColumnRelation) (best : ℕ) (p : ReorderedR × ℕ)
        → All (GoodRe columns) houses.reordered.wares
        → IsColumn r
        → IsReordering r.relation.tuples p.1 p.0
        → Got houses r best (p.0, p.1, add_re houses r p.1 p.0 best)
    unfolding add_to_re_warehouse
    add_re-Got houses r best p good whole is = record {
      reordering = is;
      same_indexes = refl;
      good =
          add_re-Good columns houses r p.1 best p.0 good
            (subst (λ (ts : List Tuple). IsReordering ts p.1 p.0) whole is);
      others = λ rel col. best_at-add houses.reordered r.real_rel r.real_col p.1 best rel col p.0;
      kept = λ e rel col. rw e refl;
    }

    pub reorder_and_add-Got :
        (houses : Warehouses) (r : ColumnRelation) (e best : ℕ)
        → All (GoodRe columns) houses.reordered.wares
        → IsColumn r
        → Joinable r
        → e < 64
        → let result = reorder_and_add margin fresh order houses r e best in
          (result.1 ≡ e) × Got houses r best result
    unfolding reorder_and_add
    reorder_and_add-Got houses r e best good whole j lt =
        let p = reorder margin fresh order r e in
        let (eq, is) = reorder-IsReordering r e j lt in
        (
          eq,
          add_re-Got houses r best p good whole
              (subst (λ (k : ℕ). IsReordering r.relation.tuples k p.0) (sym eq) is),
        )

    pub reorder_first_and_add-Got :
        (houses : Warehouses) (r : ColumnRelation) (best : ℕ)
        → All (GoodRe columns) houses.reordered.wares
        → IsColumn r
        → Joinable r
        → 0 < r.relation.size
        → Got houses r best (reorder_and_add margin fresh order houses r first_reordered best)
    unfolding reorder_and_add
    reorder_first_and_add-Got houses r best good whole j pos =
        add_re-Got houses r best (reorder margin fresh order r first_reordered) good whole
          (reorder_first-IsReordering r j pos)

    pub fetch_or_reorder-Got :
        (houses : Warehouses) (r : ColumnRelation) (e best : ℕ)
        → Stocked columns houses
        → IsColumn r
        → Joinable r
        → e < 64
        → let result = fetch_or_reorder margin fresh order houses r e best in
          (result.1 ≡ e) × Got houses r best result
    unfolding fetch_or_reorder
    fetch_or_reorder-Got houses r e best stock whole j lt = by_fetch (fetch_re houses r e) refl
      where
        by_fetch :
            (o : Option ReorderedR)
            → fetch_re houses r e ≡ o
            → let result : ReorderedR × ℕ × Warehouses = elim o [
              | some array ↦ (array, e, houses)
              | none ↦ reorder_and_add margin fresh order houses r e best
            ] in
              (result.1 ≡ e) × Got houses r best result
        by_fetch none q = reorder_and_add-Got houses r e best stock.good_reordered whole j lt
        by_fetch (some array) q = (
          refl,
          record {
            reordering =
                subst (λ (ts : List Tuple). IsReordering ts e array) (sym whole)
                  (fetch_re-IsReordering columns houses r e array stock lt q);
            same_indexes = refl;
            good = stock.good_reordered;
            others = λ rel col. inr refl;
            kept = λ _ rel col. refl;
          },
        )
