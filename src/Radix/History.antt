-- ===== src/Radix/History.antt =====
-- src/radixHashJoin.c: the joins of a program run, one after another, over the warehouses that the
-- earlier ones left.
use mathlib.Core.Path.{subst}
use join_operator_software_d.Prelude.{
  ℕ, zero, suc, ◌+◌, ◌<◌, ◌≡◌, refl, sym, ◌∙◌, ◌⊎◌, inl, inr, none, some, List, [], ◌∷◌, get_or,
  get_or-replicate,
}
use join_operator_software_d.Structs.{Tuple, Relation, HeadResult}
use join_operator_software_d.Search.Chain.{join_rows}
use join_operator_software_d.Search.Jobs.{IsSchedule}
use join_operator_software_d.Search.Result.{Lists}
use join_operator_software_d.Warehouse.{initialise_warehouses, no_best}
use join_operator_software_d.Radix.{ColumnRelation, Warehouses, plan_join, radix_hash_join}
use join_operator_software_d.Radix.Stock.{Stocked}
use join_operator_software_d.Radix.Sides.{Joinable, IsColumn}
use join_operator_software_d.Radix.Plans.{left_of, right_of}
use join_operator_software_d.Radix.Indexes.{search-Lists_of}
use join_operator_software_d.Radix.Joins.{Built, Built-columns, Built-column, Built-parts}

best_at-no_best :
    (cols : List ℕ) (rel col : ℕ) → get_or (get_or (no_best cols) rel []) col none ≡ none
best_at-no_best [] rel col = refl
best_at-no_best (c ∷ cols) zero col = get_or-replicate c col none
best_at-no_best (c ∷ cols) (suc rel) col = best_at-no_best cols rel col

module _ (columns : ℕ → ℕ → List Tuple) (margin : ℕ → ℕ) (fresh : Relation → List Tuple)
    (order : Relation → List ℕ) where
  -- A call as `performRHJ` makes it. With `switched` 0 both relations are whole columns of the
  -- database, with 1 the second is, and whole columns have tuples; otherwise not both are empty.
  abbrev pub IsCall : ℕ → ColumnRelation → ColumnRelation → Type 0
  IsCall switched r s =
      ((switched ≡ 0)
        × IsColumn margin fresh order columns r
        × IsColumn margin fresh order columns s
        × (0 < r.relation.size)
        × (0 < s.relation.size))
      ⊎ (((switched ≡ 1) × IsColumn margin fresh order columns s × (0 < s.relation.size))
          ⊎ ((1 < switched) × (0 < r.relation.size + s.relation.size)))

  module _ (schedule : ℕ → List ℕ) (every : (n : ℕ) → IsSchedule n (schedule n)) where
    module _ (w : Warehouses) (r s : ColumnRelation) (switched : ℕ) (stock : Stocked columns w)
        (jr : Joinable margin fresh order r) (js : Joinable margin fresh order s)
        (call : IsCall switched r s) where
      built : Built columns margin fresh order w r s stock jr js switched
      built = elim call [
        | inl c ↦
            subst (Built columns margin fresh order w r s stock jr js) (sym c.0)
              (Built-columns columns margin fresh order w r s stock jr js c.1 c.2 c.3 c.4)
        | inr (inl c) ↦
            subst (Built columns margin fresh order w r s stock jr js) (sym c.0)
              (Built-column columns margin fresh order w r s stock jr js c.1 c.2)
        | inr (inr c) ↦ Built-parts columns margin fresh order w r s stock jr js switched c.0 c.1
      ]

      -- For a call as performRHJ makes it, on relations that can be reordered and with warehouses in
      -- order, and for any order of the jobs that has each once, the join returns a finished list
      -- whose rows are those of the join of the two relations, each as often as its pair of tuples
      -- occurs; the relation with the index is the first one if `switched` is then 0, and else the
      -- second one.
      pub radix_hash_join-Lists :
          let out = radix_hash_join margin fresh order schedule w r s switched in
          (list : HeadResult) × (out.0 ≡ some list)
          × Lists
              (join_rows (left_of out.1 r s).relation.tuples (right_of out.1 r s).relation.tuples)
              list
      unfolding radix_hash_join
      radix_hash_join-Lists =
          let p = plan_join margin fresh order w r s switched in
          search-Lists_of p.h1 _ _ _ p.ros (schedule p.ros.p_sum_arr.psum_size) built.0 built.1
            (every p.ros.p_sum_arr.psum_size)

      pub radix_hash_join-Stocked :
          Stocked columns (radix_hash_join margin fresh order schedule w r s switched).2
      unfolding radix_hash_join
      radix_hash_join-Stocked = built.2

    -- The warehouses after any joins, from the start of the program on.
    pub data Reached : Warehouses → Type 0 where
      start :
          (cols : List ℕ)
          → Reached (record {
            indexes = (initialise_warehouses cols).0;
            reordered = (initialise_warehouses cols).1;
          })
      join :
          (w : Warehouses) (r s : ColumnRelation) (switched : ℕ)
          → Reached w
          → Joinable margin fresh order r
          → Joinable margin fresh order s
          → IsCall switched r s
          → Reached (radix_hash_join margin fresh order schedule w r s switched).2

    -- After any calls as performRHJ makes them, on relations that can be reordered, from empty
    -- warehouses on, every index and every reordered relation in the warehouses is one of its own
    -- column, and a column with a best reordered relation has an index.
    pub Reached-Stocked : (w : Warehouses) → Reached w → Stocked columns w
    unfolding initialise_warehouses
    Reached-Stocked _ (start cols) = record {
      good_indexes = tt;
      good_reordered = tt;
      best = λ rel col array h.
          let clash : none ≡ some array = sym (best_at-no_best cols rel col) ∙ h in cc clash;
    }
    Reached-Stocked _ (join w r s switched past jr js call) =
        radix_hash_join-Stocked w r s switched (Reached-Stocked w past) jr js call
