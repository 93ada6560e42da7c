-- ===== src/Radix/Plans.antt =====
-- src/radixHashJoin.c: in every branch the two sides have the same number of buckets, and `switched` says
-- which relation has the index.
use mathlib.Core.Path.{subst}
use join_operator_software_d.Prelude.{
  ℕ, ◌<◌, ◌≡◌, refl, sym, ◌∙◌, ◌⊎◌, inl, inr, Bool-cases, Option, none, some, List, if◌then◌else◌,
  ◌==◌, ltb, All,
}
use join_operator_software_d.Structs.{Tuple, Relation, ReorderedR, IndexArray, first_reordered}
use join_operator_software_d.Warehouse.{IndexWare}
use join_operator_software_d.Radix.{
  ColumnRelation, Warehouses, IndexSide, fetched, reordered_only, Plan, fetch_index,
  reorder_and_add, fetch_or_reorder, plan_new, plan_columns,
}
use join_operator_software_d.Radix.Stock.{
  IsReordering, IsIndex, HasIndex, GoodIndex, GoodRe, Stocked, best_at, no_best, fetched-IsIndex,
}
use join_operator_software_d.Radix.Sides.{
  Joinable, IsColumn, reorder_and_add-Got, reorder_first_and_add-Got, fetch_or_reorder-Got,
}

-- The relation with the index, and the one whose tuples are looked up.
abbrev pub left_of : ℕ → ColumnRelation → ColumnRelation → ColumnRelation
left_of switched r s = if switched == 0 then r else s

abbrev pub right_of : ℕ → ColumnRelation → ColumnRelation → ColumnRelation
right_of switched r s = if switched == 0 then s else r

abbrev pub SideFor : List Tuple → ℕ → IndexSide → Type 0
SideFor ts e (fetched ind_arr) = IsIndex ts e ind_arr
SideFor ts e (reordered_only ror) = IsReordering ts e ror

pub record Planned (r s : ColumnRelation) (p : Plan) : Type 0 where
  pub ros : IsReordering (right_of p.switched r s).relation.tuples p.h1 p.ros
  pub side : SideFor (left_of p.switched r s).relation.tuples p.h1 p.side

-- The column whose index is still to be built.
abbrev pub Missing : ColumnRelation → IndexSide → ℕ → ℕ → Type 0
Missing r (fetched ind_arr) rel col = ⊥
Missing r (reordered_only ror) rel col = (rel ≡ r.real_rel) × (col ≡ r.real_col)

pub option_cases {ℓ} : {A : Type ℓ} (o : Option A) → (o ≡ none) ⊎ ((x : A) × (o ≡ some x))
option_cases none = inl refl
option_cases (some x) = inr (x, refl)

module _ (columns : ℕ → ℕ → List Tuple) where
  -- The warehouses are in order but for that index.
  pub record Kept (r s : ColumnRelation) (p : Plan) : Type 0 where
    pub good_indexes : All (GoodIndex columns) p.houses.indexes
    pub good_reordered : All (GoodRe columns) p.houses.reordered.wares
    pub best :
        (rel col : ℕ) (array : ReorderedR)
        → best_at p.houses.reordered rel col ≡ some array
        → HasIndex p.houses.indexes rel col ⊎ Missing (left_of p.switched r s) p.side rel col

  module _ (margin : ℕ → ℕ) (fresh : Relation → List Tuple) (order : Relation → List ℕ) where
    abbrev pub Both : ColumnRelation → ColumnRelation → Plan → Type 0
    Both r s p = Planned r s p × Kept r s p

    -- An index of `x` is there; `y` is fetched or reordered.
    fetched_lem :
        (w : Warehouses) (x y : ColumnRelation) (found : IndexArray × ℕ)
        → Stocked columns w
        → IsColumn margin fresh order columns x
        → IsColumn margin fresh order columns y
        → Joinable margin fresh order y
        → fetch_index w x ≡ some found
        → let b = fetch_or_reorder margin fresh order w y found.1 0 in
          IsIndex x.relation.tuples b.1 found.0
          × IsReordering y.relation.tuples b.1 b.0
          × All (GoodIndex columns) b.2.indexes
          × All (GoodRe columns) b.2.reordered.wares
          × ((rel col : ℕ) (array : ReorderedR)
              → best_at b.2.reordered rel col ≡ some array
              → HasIndex b.2.indexes rel col)
    fetched_lem w x y found stock whole_x whole_y j q =
        let b = fetch_or_reorder margin fresh order w y found.1 0 in
        let is =
          fetched-IsIndex columns w.indexes x.real_rel x.real_col found stock.good_indexes q in
        let (eq, got) =
          fetch_or_reorder-Got margin fresh order columns w y found.1 0 stock whole_y j
            is.reordering.fits in
        (
          subst (λ (e : ℕ). IsIndex x.relation.tuples e found.0) (sym eq)
              (subst (λ (ts : List Tuple). IsIndex ts found.1 found.0) (sym whole_x) is),
          got.reordering,
          subst (All (GoodIndex columns)) (sym got.same_indexes) stock.good_indexes,
          got.good,
          λ rel col array h.
              subst (λ (ws : List IndexWare). HasIndex ws rel col) (sym got.same_indexes)
                (stock.best rel col array (sym (got.kept refl rel col) ∙ h)),
        )

    -- Neither column is in a warehouse: `x` is reordered as it suits it, and `y` to as many buckets.
    pair_lem :
        (w : Warehouses) (x y : ColumnRelation)
        → Stocked columns w
        → IsColumn margin fresh order columns x
        → IsColumn margin fresh order columns y
        → Joinable margin fresh order x
        → Joinable margin fresh order y
        → 0 < x.relation.size
        → let a = reorder_and_add margin fresh order w x first_reordered 1 in
          let b = reorder_and_add margin fresh order a.2 y a.1 0 in
          IsReordering x.relation.tuples b.1 a.0
          × IsReordering y.relation.tuples b.1 b.0
          × All (GoodIndex columns) b.2.indexes
          × All (GoodRe columns) b.2.reordered.wares
          × ((rel col : ℕ) (array : ReorderedR)
              → best_at b.2.reordered rel col ≡ some array
              → HasIndex b.2.indexes rel col ⊎ ((rel ≡ x.real_rel) × (col ≡ x.real_col)))
    pair_lem w x y stock whole_x whole_y jx jy pos =
        let a = reorder_and_add margin fresh order w x first_reordered 1 in
        let b = reorder_and_add margin fresh order a.2 y a.1 0 in
        let first =
          reorder_first_and_add-Got margin fresh order columns w x 1 stock.good_reordered whole_x jx
            pos in
        let (eq, got) =
          reorder_and_add-Got margin fresh order columns a.2 y a.1 0 first.good whole_y jy
            first.reordering.fits in
        let same = got.same_indexes ∙ first.same_indexes in
        (
          subst (λ (e : ℕ). IsReordering x.relation.tuples e a.0) (sym eq) first.reordering,
          got.reordering,
          subst (All (GoodIndex columns)) (sym same) stock.good_indexes,
          got.good,
          λ rel col array h. elim (first.others rel col) [
            | inl here ↦ inr here
            | inr level ↦ inl (
                subst (λ (ws : List IndexWare). HasIndex ws rel col) (sym same)
                  (stock.best rel col array (sym level ∙ sym (got.kept refl rel col) ∙ h)))
          ],
        )

    plan_new-Both :
        (w : Warehouses) (r s : ColumnRelation)
        → Stocked columns w
        → IsColumn margin fresh order columns r
        → IsColumn margin fresh order columns s
        → Joinable margin fresh order r
        → Joinable margin fresh order s
        → 0 < r.relation.size
        → 0 < s.relation.size
        → fetch_index w r ≡ none
        → fetch_index w s ≡ none
        → Both r s (plan_new margin fresh order w r s)
    unfolding plan_new
    plan_new-Both w r s stock whole_r whole_s jr js pos_r pos_s no_r no_s =
        rw (plan_new, no_best columns w r stock no_r, no_best columns w s stock no_s)
          (elim (Bool-cases (ltb r.relation.size s.relation.size)) [
            | inl e ↦
                let (is_x, is_y, indexes, wares, best) =
                  pair_lem w r s stock whole_r whole_s jr js pos_r in
                rw e (
                  record { ros = is_y; side = is_x },
                  record { good_indexes = indexes; good_reordered = wares; best = best },
                )
            | inr e ↦
                let (is_x, is_y, indexes, wares, best) =
                  pair_lem w s r stock whole_s whole_r js jr pos_s in
                rw e (
                  record { ros = is_y; side = is_x },
                  record { good_indexes = indexes; good_reordered = wares; best = best },
                )
          ])

    pub plan_columns-Both :
        (w : Warehouses) (r s : ColumnRelation)
        → Stocked columns w
        → IsColumn margin fresh order columns r
        → IsColumn margin fresh order columns s
        → Joinable margin fresh order r
        → Joinable margin fresh order s
        → 0 < r.relation.size
        → 0 < s.relation.size
        → Both r s (plan_columns margin fresh order w r s)
    unfolding plan_columns
    plan_columns-Both w r s stock whole_r whole_s jr js pos_r pos_s =
        elim (option_cases (fetch_index w r)) [
          | inr (found, q) ↦
              let (is_x, is_y, indexes, wares, best) =
                fetched_lem w r s found stock whole_r whole_s js q in
              rw (plan_columns, q)
                (
                  record { ros = is_y; side = is_x },
                  record {
                    good_indexes = indexes;
                    good_reordered = wares;
                    best = λ rel col array h. inl (best rel col array h);
                  },
                )
          | inl no_r ↦ elim (option_cases (fetch_index w s)) [
            | inr (found, q) ↦
                let (is_x, is_y, indexes, wares, best) =
                  fetched_lem w s r found stock whole_s whole_r jr q in
                rw (plan_columns, no_r, q)
                  (
                    record { ros = is_y; side = is_x },
                    record {
                      good_indexes = indexes;
                      good_reordered = wares;
                      best = λ rel col array h. inl (best rel col array h);
                    },
                  )
            | inl no_s ↦
                rw (plan_columns, no_r, no_s)
                  (plan_new-Both w r s stock whole_r whole_s jr js pos_r pos_s no_r no_s)
          ]
        ]
