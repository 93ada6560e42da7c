-- ===== src/Radix/Indexes.antt =====
-- src/radixHashJoin.c: an index is searched, and one that is missing is built and kept.
use mathlib.Core.Path.{subst}
use join_operator_software_d.Prelude.{ℕ, ◌≡◌, refl, sym, ap, ◌∙◌, ◌⊎◌, inl, inr, some, List, All}
use join_operator_software_d.Structs.{Tuple, ReorderedR, IndexArray, HeadResult}
use join_operator_software_d.Index.{indexing}
use join_operator_software_d.Search.{search_thread_ver}
use join_operator_software_d.Search.Chain.{join_rows}
use join_operator_software_d.Search.Jobs.{IsSchedule}
use join_operator_software_d.Search.Bags.{join_rows-SameBag}
use join_operator_software_d.Search.Result.{Lists, search_thread_ver-Lists}
use join_operator_software_d.Radix.{
  ColumnRelation, IndexSide, fetched, reordered_only, Plan, add_index, keep_index, make_index,
}
use join_operator_software_d.Radix.Stock.{
  IsReordering, IsIndex, HasIndex, GoodIndex, GoodRe, Stocked, best_at, add_index-Good,
  HasIndex-add, HasIndex-new,
}
use join_operator_software_d.Radix.Plans.{SideFor, Missing}

-- A search of an index over some tuples for others lists their join.
pub search-Lists_of :
    (e : ℕ) (ts us : List Tuple) (ind_arr : IndexArray) (ros : ReorderedR) (schedule : List ℕ)
    → IsIndex ts e ind_arr
    → IsReordering us e ros
    → IsSchedule ros.p_sum_arr.psum_size schedule
    → (list : HeadResult) × (search_thread_ver ind_arr ros schedule ≡ some list)
      × Lists (join_rows ts us) list
search-Lists_of e ts us ind_arr ros schedule is re every =
    let left = is.reordering in
    let (list, found, lists) =
      search_thread_ver-Lists e left.buckets re.buckets is.over ros re.fits left.ready re.ready
        schedule (subst (λ (n : ℕ). IsSchedule n schedule) re.ready.encodes.psum_size_eq every) in
    (
      list,
      ap (λ (i : IndexArray). search_thread_ver i ros schedule) is.built ∙ found,
      record {
        closed = lists.closed;
        same = λ f. lists.same f ∙ join_rows-SameBag _ ts _ us left.same re.same f;
      },
    )

module _ (columns : ℕ → ℕ → List Tuple) where
  -- The index is built where it is missing, and added for its column.
  pub by_side :
      (side : IndexSide) (r s x : ColumnRelation) (before : ℕ) (p : Plan)
      → x.relation.tuples ≡ columns x.real_rel x.real_col
      → SideFor x.relation.tuples p.h1 side
      → All (GoodIndex columns) p.houses.indexes
      → All (GoodRe columns) p.houses.reordered.wares
      → ((rel col : ℕ) (array : ReorderedR)
          → best_at p.houses.reordered rel col ≡ some array
          → HasIndex p.houses.indexes rel col ⊎ Missing x side rel col)
      → ((i : IndexArray) → keep_index r s before p i ≡ add_index p.houses x p.h1 i)
      → let result = make_index r s before p side in
        IsIndex x.relation.tuples p.h1 result.0 × Stocked columns result.1
  unfolding make_index
  by_side (fetched i) r s x before p whole is indexes wares best kept = (
    is,
    record {
      good_indexes = indexes;
      good_reordered = wares;
      best = λ rel col array h. elim (best rel col array h) [
        | inl has ↦ has
        | inr never ↦ absurd never
      ];
    },
  )
  by_side (reordered_only ror) r s x before p whole is indexes wares best kept =
      let i = indexing ror p.h1 in
      let built : IsIndex x.relation.tuples p.h1 i = record {
        over = ror;
        built = refl;
        reordering = is;
      } in
      (
        built,
        subst (Stocked columns) (sym (kept i)) (record {
          good_indexes =
              add_index-Good columns p.houses x p.h1 i indexes
                (subst (λ (ts : List Tuple). IsIndex ts p.h1 i) whole built);
          good_reordered = wares;
          best = λ rel col array h. elim (best rel col array h) [
            | inl has ↦ HasIndex-add p.houses.indexes x.real_rel x.real_col p.h1 i rel col has
            | inr here ↦
                subst (λ (k : ℕ). HasIndex (add_index p.houses x p.h1 i).indexes k col) (sym here.0)
                  (subst (λ (k : ℕ). HasIndex (add_index p.houses x p.h1 i).indexes x.real_rel k)
                    (sym here.1) (HasIndex-new p.houses.indexes x.real_rel x.real_col p.h1 i))
          ];
        }),
      )
