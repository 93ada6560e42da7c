-- ===== src/Radix/Joins.antt =====
-- src/radixHashJoin.c: the list that the join returns holds the rows of the join, and the warehouses
-- stay in order.
use mathlib.Core.Path.{subst}
use native.Mathlib.Decide.{ℕ_discrete}
use join_operator_software_d.Prelude.{
  ℕ, ◌+◌, ◌<◌, ◌≡◌, refl, sym, ap, ◌∙◌, arith, inl, inr, Bool-cases, none, List, [], ◌==◌,
  ==_eq_false, leb, All,
}
use join_operator_software_d.Structs.{Tuple, Relation, ReorderedR, first_reordered}
use join_operator_software_d.Reorder.Sorted.{
  no_relation-Prepared, reorder_relation_empty, no_tuples-SameBag,
}
use join_operator_software_d.Warehouse.{IndexWare}
use join_operator_software_d.Radix.{
  ColumnRelation, Warehouses, IndexSide, reordered_only, fetch_index, fetch_re, add_index, reorder,
  reorder_and_add, fetch_or_reorder, plan_columns, plan_column, plan_parts, plan_join, keep_index,
  make_index,
}
use join_operator_software_d.Radix.Stock.{
  IsReordering, IsIndex, HasIndex, GoodIndex, Stocked, no_best, fetched-IsIndex,
}
use join_operator_software_d.Radix.Sides.{
  Joinable, IsColumn, reorder-IsReordering, reorder_first-IsReordering, reorder_first_and_add-Got,
}
use join_operator_software_d.Radix.Plans.{
  left_of, right_of, SideFor, Planned, option_cases, Both, plan_columns-Both,
}
use join_operator_software_d.Radix.Indexes.{by_side}

module _ (columns : ℕ → ℕ → List Tuple) where
  module _ (margin : ℕ → ℕ) (fresh : Relation → List Tuple) (order : Relation → List ℕ)
      (w : Warehouses) (r s : ColumnRelation) (stock : Stocked columns w)
      (jr : Joinable margin fresh order r) (js : Joinable margin fresh order s) where
    fetch_none :
        fetch_re w s first_reordered ≡ none
        → fetch_or_reorder margin fresh order w s first_reordered 1
          ≡ reorder_and_add margin fresh order w s first_reordered 1
    unfolding fetch_or_reorder
    fetch_none q = rw (fetch_or_reorder, q) refl

    plan_column-Both :
        IsColumn margin fresh order columns s
        → 0 < s.relation.size
        → let p = plan_column margin fresh order w r s in
          (p.switched ≡ 1) × Both columns margin fresh order r s p
    unfolding plan_column
    plan_column-Both whole pos = elim (option_cases (fetch_index w s)) [
      | inr (found, q) ↦
          let is =
            fetched-IsIndex columns w.indexes s.real_rel s.real_col found stock.good_indexes q in
          let b = reorder margin fresh order r found.1 in
          let (eq, re) = reorder-IsReordering margin fresh order r found.1 jr is.reordering.fits in
          rw (plan_column, q)
            (
              refl,
              (
                record {
                  ros = subst (λ (e : ℕ). IsReordering r.relation.tuples e b.0) (sym eq) re;
                  side =
                      subst (λ (e : ℕ). IsIndex s.relation.tuples e found.0) (sym eq)
                        (subst (λ (ts : List Tuple). IsIndex ts found.1 found.0) (sym whole) is);
                },
                record {
                  good_indexes = stock.good_indexes;
                  good_reordered = stock.good_reordered;
                  best = λ rel col array h. inl (stock.best rel col array h);
                },
              ),
            )
      | inl q ↦
          let a = reorder_and_add margin fresh order w s first_reordered 1 in
          let first =
            reorder_first_and_add-Got margin fresh order columns w s 1 stock.good_reordered whole js
              pos in
          let b = reorder margin fresh order r a.1 in
          let (eq, re) = reorder-IsReordering margin fresh order r a.1 jr first.reordering.fits in
          rw (plan_column, q, fetch_none (no_best columns w s stock q))
            (
              refl,
              (
                record {
                  ros = subst (λ (e : ℕ). IsReordering r.relation.tuples e b.0) (sym eq) re;
                  side =
                      subst (λ (e : ℕ). IsReordering s.relation.tuples e a.0) (sym eq)
                        first.reordering;
                },
                record {
                  good_indexes =
                      subst (All (GoodIndex columns)) (sym first.same_indexes) stock.good_indexes;
                  good_reordered = first.good;
                  best = λ rel col array h. elim (first.others rel col) [
                    | inl here ↦ inr here
                    | inr level ↦ inl (
                        subst (λ (ws : List IndexWare). HasIndex ws rel col)
                          (sym first.same_indexes) (stock.best rel col array (sym level ∙ h)))
                  ];
                },
              ),
            )
    ]

    parts_lem :
        (x y : ColumnRelation)
        → Joinable margin fresh order x
        → Joinable margin fresh order y
        → 0 < y.relation.size
        → let a = reorder margin fresh order x first_reordered in
          let b = reorder margin fresh order y a.1 in
          IsReordering x.relation.tuples b.1 a.0 × IsReordering y.relation.tuples b.1 b.0
    parts_lem x y jx jy pos = elim (ℕ_discrete x.relation.size 0) [
      | yes nothing ↦
          let re = reorder_first-IsReordering margin fresh order y jy pos in
          rw
            (reorder_relation_empty margin x.relation (fresh x.relation) (order x.relation) jx.can
              first_reordered nothing)
            (
              record {
                fits = re.fits;
                buckets = [];
                ready = no_relation-Prepared (reorder margin fresh order y first_reordered).1;
                same =
                    no_tuples-SameBag margin x.relation (fresh x.relation) (order x.relation) jx.can
                      nothing;
              },
              re,
            )
      | no ne ↦
          let a = reorder margin fresh order x first_reordered in
          let b = reorder margin fresh order y a.1 in
          let first = reorder_first-IsReordering margin fresh order x jx (omega (arith, ne)) in
          let (eq, re) = reorder-IsReordering margin fresh order y a.1 jy first.fits in
          (
            subst (λ (e : ℕ). IsReordering x.relation.tuples e a.0) (sym eq) first,
            subst (λ (e : ℕ). IsReordering y.relation.tuples e b.0) (sym eq) re,
          )
    ]

    plan_parts-Planned :
        0 < r.relation.size + s.relation.size
        → let p = plan_parts margin fresh order w r s in
          Planned r s p × (p.houses ≡ w) × ((ror : ReorderedR) × (p.side ≡ reordered_only ror))
    unfolding plan_parts
    plan_parts-Planned pos = elim (Bool-cases (leb r.relation.size s.relation.size)) [
      | inl e ↦
          let (is_x, is_y) = parts_lem r s jr js (ground (arith, e, pos)) in
          rw e (
            record { ros = is_y; side = is_x },
            refl,
            ((reorder margin fresh order r first_reordered).0, refl),
          )
      | inr e ↦
          let (is_x, is_y) = parts_lem s r js jr (ground (arith, e, pos)) in
          rw e (
            record { ros = is_y; side = is_x },
            refl,
            ((reorder margin fresh order s first_reordered).0, refl),
          )
    ]

    IsColumn-left :
        (switched : ℕ)
        → IsColumn margin fresh order columns r
        → IsColumn margin fresh order columns s
        → IsColumn margin fresh order columns (left_of switched r s)
    IsColumn-left switched whole_r whole_s = elim (Bool-cases (switched == 0)) [
      | inl e ↦ rw e whole_r
      | inr e ↦ rw e whole_s
    ]

    -- The two sides and the index that is built, whatever `switched` says.
    abbrev pub Built : ℕ → Type 0
    Built switched =
        let p = plan_join margin fresh order w r s switched in
        let index = make_index r s switched p p.side in
        IsIndex (left_of p.switched r s).relation.tuples p.h1 index.0
        × IsReordering (right_of p.switched r s).relation.tuples p.h1 p.ros
        × Stocked columns index.1

    pub Built-columns :
        IsColumn margin fresh order columns r
        → IsColumn margin fresh order columns s
        → 0 < r.relation.size
        → 0 < s.relation.size
        → Built 0
    unfolding plan_join keep_index
    Built-columns whole_r whole_s pos_r pos_s =
        let p = plan_columns margin fresh order w r s in
        let (planned, kept) =
          plan_columns-Both columns margin fresh order w r s stock whole_r whole_s jr js pos_r
            pos_s in
        let (is, stocked) =
          by_side columns p.side r s (left_of p.switched r s) 0 p
            (IsColumn-left p.switched whole_r whole_s) planned.side kept.good_indexes
            kept.good_reordered kept.best
            (λ i. elim (Bool-cases (p.switched == 0)) [ inl e ↦ rw e refl | inr e ↦ rw e refl ]) in
        (is, planned.ros, stocked)

    pub Built-column : IsColumn margin fresh order columns s → 0 < s.relation.size → Built 1
    unfolding plan_join keep_index
    Built-column whole pos =
        let p = plan_column margin fresh order w r s in
        let (one, (planned, kept)) = plan_column-Both whole pos in
        let left_eq : s ≡ left_of p.switched r s = ap (λ (n : ℕ). left_of n r s) (sym one) in
        let (is, stocked) =
          by_side columns p.side r s (left_of p.switched r s) 1 p
            (subst (IsColumn margin fresh order columns) left_eq whole) planned.side
            kept.good_indexes kept.good_reordered kept.best
            (λ i. ap (λ (x : ColumnRelation). add_index p.houses x p.h1 i) left_eq) in
        (is, planned.ros, stocked)

    pub Built-parts :
        (switched : ℕ) → 1 < switched → 0 < r.relation.size + s.relation.size → Built switched
    unfolding plan_join keep_index make_index
    Built-parts switched more pos =
        let p = plan_parts margin fresh order w r s in
        let (planned, same, (ror, is_ror)) = plan_parts-Planned pos in
        let left = (left_of p.switched r s).relation.tuples in
        rw
          (
            ==_eq_false switched 0 (λ e. absurd (omega (arith, e, more))),
            ==_eq_false switched 1 (λ e. absurd (omega (arith, e, more))),
          )
          (let (is, stocked) =
              subst
                (λ (side : IndexSide).
                  SideFor left p.h1 side
                  → IsIndex left p.h1 (make_index r s switched p side).0
                    × Stocked columns (make_index r s switched p side).1)
                (sym is_ror)
                (λ is.
                  rw
                    (
                      ==_eq_false switched 0 (λ e. absurd (omega (arith, e, more))),
                      ==_eq_false switched 1 (λ e. absurd (omega (arith, e, more))),
                    )
                    (
                      record { over = ror; built = refl; reordering = is },
                      subst (Stocked columns) (sym same) stock,
                    ))
                planned.side in
            (is, planned.ros, stocked))
