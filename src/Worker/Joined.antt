-- ===== src/Worker/Joined.antt =====
-- src/jointPerformer.c: `workerJ` leaves an intermediate with exactly the rows of the join.
use mathlib.Core.Path.{subst}
use join_operator_software_d.Prelude.{
  ℕ, ◌+◌, ◌<◌, ◌≡◌, ◌≢◌, refl, sym, ap, ◌∙◌, arith, inl, inr, Option, none, some, List, [], ◌∷◌,
  ◌++◌, ==_refl, ==_eq_false, get_or, set,
}
use join_operator_software_d.Structs.{Tuple, Relation, HeadResult}
use join_operator_software_d.Query.{Join}
use join_operator_software_d.ResultList.Contents.{rows}
use join_operator_software_d.Search.Jobs.{IsSchedule}
use join_operator_software_d.Inter.{
  Inter, HeadInter, no_inter, row_at, push_inter, create_inter_from_res, update_inter_from_res,
  update_inter_and_delete, delete_inter_node,
}
use join_operator_software_d.Inter.Updates.{
  IsTable, extended, merged, update_inter_from_res_lem, update_inter_and_delete-merged,
}
use join_operator_software_d.Joint.{find_node}
use join_operator_software_d.Radix.{ColumnRelation, Warehouses, radix_hash_join}
use join_operator_software_d.Radix.Stock.{Stocked}
use join_operator_software_d.Radix.Sides.{Joinable, IsColumn}
use join_operator_software_d.Radix.History.{radix_hash_join-Lists, radix_hash_join-Stocked}
use join_operator_software_d.Worker.{
  forge, Performed, perform_on, perform_rhj, with_result, update_one, join_nodes, worker_j,
}
use join_operator_software_d.Worker.Matches.{matches}
use join_operator_software_d.Worker.Rows.{started, create_inter_from_res_lem}
use join_operator_software_d.Worker.Holding.{Holds, made, table-Holds}

module _ (columns : ℕ → ℕ → List Tuple) (margin : ℕ → ℕ) (fresh : Relation → List Tuple)
    (order : Relation → List ℕ) (schedule : ℕ → List ℕ)
    (every : (n : ℕ) → IsSchedule n (schedule n)) (w : Warehouses) (stock : Stocked columns w)
    (pred : Join) (hq : HeadInter) (j1 : Joinable margin fresh order (forge hq pred.participant1))
    (j2 : Joinable margin fresh order (forge hq pred.participant2)) where
  abbrev rel1 : ℕ
  rel1 = pred.participant1.rel

  abbrev rel2 : ℕ
  rel2 = pred.participant2.rel

  abbrev side1 : ColumnRelation
  side1 = forge hq pred.participant1

  abbrev side2 : ColumnRelation
  side2 = forge hq pred.participant2

  abbrev node_at : ℕ → Inter
  node_at a = get_or hq.nodes a no_inter

  -- What the join relies on: a relation of no intermediate is a whole column with tuples, the fields
  -- of an intermediate agree, and two intermediates are not one and not both without rows.
  abbrev pub Given : Option ℕ → Option ℕ → Type 0
  Given none none =
      IsColumn margin fresh order columns side1
      × IsColumn margin fresh order columns side2
      × (0 < side1.relation.size)
      × (0 < side2.relation.size)
  Given none (some b) =
      IsTable (node_at b) × IsColumn margin fresh order columns side1 × (0 < side1.relation.size)
  Given (some a) none =
      IsTable (node_at a) × IsColumn margin fresh order columns side2 × (0 < side2.relation.size)
  Given (some a) (some b) =
      (a ≢ b)
      × IsTable (node_at a)
      × IsTable (node_at b)
      × (0 < side1.relation.size + side2.relation.size)

  -- The intermediates after the join: `it` is the new one or takes the place of the one it extends.
  abbrev pub Becomes : Option ℕ → Option ℕ → Inter → HeadInter
  Becomes none none it = push_inter hq it.num_of_cols it.numb_of_rows it.joined_rels it.row_ids
  Becomes none (some b) it = record hq { nodes = set hq.nodes b it }
  Becomes (some a) none it = record hq { nodes = set hq.nodes a it }
  Becomes (some a) (some b) it = delete_inter_node (record hq { nodes = set hq.nodes a it }) b

  -- The rows of the join.
  abbrev pub spec : Option ℕ → Option ℕ → List (List ℕ)
  spec none none = made (λ i j. i ∷ j ∷ []) (matches side1.relation.tuples side2.relation.tuples)
  spec none (some b) =
      made (λ i j. row_at (node_at b).row_ids i ++ j ∷ [])
        (matches side2.relation.tuples side1.relation.tuples)
  spec (some a) none =
      made (λ i j. row_at (node_at a).row_ids i ++ j ∷ [])
        (matches side1.relation.tuples side2.relation.tuples)
  spec (some a) (some b) =
      made (λ i j. row_at (node_at a).row_ids i ++ row_at (node_at b).row_ids j)
        (matches side1.relation.tuples side2.relation.tuples)

  Done : Option ℕ → Option ℕ → Option HeadInter × Warehouses → Type 0
  Done n1 n2 out =
      (it : Inter) × (out.0 ≡ some (Becomes n1 n2 it))
      × Holds (spec n1 n2) it
      × Stocked columns out.1

  update_one_left :
      (b : ℕ) (list : HeadResult) (switched : ℕ)
      → update_one (some rel1) none (some b) hq rel1 switched list
        ≡ update_inter_from_res hq b list rel1 switched
  unfolding update_one
  update_one_left b list switched = rw (==_refl rel1) refl

  update_one_right :
      (a : ℕ) (list : HeadResult) (switched : ℕ)
      → rel1 ≢ rel2
      → update_one (some rel2) (some a) none hq rel1 switched list
        ≡ update_inter_from_res hq a list rel2 switched
  unfolding update_one
  update_one_right a list switched other = rw (==_eq_false rel1 rel2 other) refl

  perform_eq :
      (n1 n2 : Option ℕ) (switched : ℕ)
      → find_node hq rel1 ≡ n1
      → find_node hq rel2 ≡ n2
      → perform_rhj margin fresh order schedule w hq pred.participant1 pred.participant2 switched
        ≡ perform_on margin fresh order schedule n1 n2 w hq pred.participant1 pred.participant2
            switched
  unfolding perform_rhj
  perform_eq n1 n2 switched e1 e2 = rw (e1, e2) refl

  module _ (other : rel1 ≢ rel2) where
    nodes-Done :
        (n1 n2 : Option ℕ)
        → find_node hq rel1 ≡ n1
        → find_node hq rel2 ≡ n2
        → Given n1 n2
        → Done n1 n2 (join_nodes margin fresh order schedule n1 n2 pred hq w)
    unfolding Done join_nodes
    nodes-Done none none e1 e2 g =
        let out = radix_hash_join margin fresh order schedule w side1 side2 0 in
        let (list, found, lists) =
          radix_hash_join-Lists columns margin fresh order schedule every w side1 side2 0 stock j1
            j2 (inl (refl, g.0, g.1, g.2, g.3)) in
        let it = started rel1 rel2 out.1 (rows list) in
        let lem = create_inter_from_res_lem hq list rel1 rel2 out.1 lists.closed in
        (
          it,
          ap
                (λ (p : Performed).
                  with_result p.result (λ res. create_inter_from_res hq res rel1 rel2 p.switched))
                (perform_eq none none 0 e1 e2)
              ∙ ap
                  (λ (o : Option HeadResult).
                    with_result o (λ res. create_inter_from_res hq res rel1 rel2 out.1))
                  found
              ∙ ap (λ (x : HeadInter). some x) lem.0,
          table-Holds (λ i j. i ∷ j ∷ []) out.1 side1 side2 list it lists lem.1 refl lem.2,
          subst (λ (p : Performed). Stocked columns p.houses) (sym (perform_eq none none 0 e1 e2))
              (radix_hash_join-Stocked columns margin fresh order schedule every w side1 side2 0
                stock j1 j2 (inl (refl, g.0, g.1, g.2, g.3))),
        )
    nodes-Done none (some b) e1 e2 g =
        let out = radix_hash_join margin fresh order schedule w side2 side1 1 in
        let (list, found, lists) =
          radix_hash_join-Lists columns margin fresh order schedule every w side2 side1 1 stock j2
            j1 (inr (inl (refl, g.1, g.2))) in
        let it = extended (node_at b) rel1 out.1 (rows list) in
        let lem = update_inter_from_res_lem hq b rel1 out.1 list g.0 lists.closed in
        (
          it,
          ap
                (λ (p : Performed).
                  with_result p.result (update_one p.new_rel none (some b) hq rel1 p.switched))
                (perform_eq none (some b) 0 e1 e2)
              ∙ ap
                  (λ (o : Option HeadResult).
                    with_result o (update_one (some rel1) none (some b) hq rel1 out.1))
                  found
              ∙ ap (λ (x : HeadInter). some x) (update_one_left b list out.1 ∙ lem.0),
          table-Holds (λ i j. row_at (node_at b).row_ids i ++ j ∷ []) out.1 side2 side1 list it
              lists lem.1 refl lem.2,
          subst (λ (p : Performed). Stocked columns p.houses)
              (sym (perform_eq none (some b) 0 e1 e2))
              (radix_hash_join-Stocked columns margin fresh order schedule every w side2 side1 1
                stock j2 j1 (inr (inl (refl, g.1, g.2)))),
        )
    nodes-Done (some a) none e1 e2 g =
        let out = radix_hash_join margin fresh order schedule w side1 side2 1 in
        let (list, found, lists) =
          radix_hash_join-Lists columns margin fresh order schedule every w side1 side2 1 stock j1
            j2 (inr (inl (refl, g.1, g.2))) in
        let it = extended (node_at a) rel2 out.1 (rows list) in
        let lem = update_inter_from_res_lem hq a rel2 out.1 list g.0 lists.closed in
        (
          it,
          ap
                (λ (p : Performed).
                  with_result p.result (update_one p.new_rel (some a) none hq rel1 p.switched))
                (perform_eq (some a) none 0 e1 e2)
              ∙ ap
                  (λ (o : Option HeadResult).
                    with_result o (update_one (some rel2) (some a) none hq rel1 out.1))
                  found
              ∙ ap (λ (x : HeadInter). some x) (update_one_right a list out.1 other ∙ lem.0),
          table-Holds (λ i j. row_at (node_at a).row_ids i ++ j ∷ []) out.1 side1 side2 list it
              lists lem.1 refl lem.2,
          subst (λ (p : Performed). Stocked columns p.houses)
              (sym (perform_eq (some a) none 0 e1 e2))
              (radix_hash_join-Stocked columns margin fresh order schedule every w side1 side2 1
                stock j1 j2 (inr (inl (refl, g.1, g.2)))),
        )
    nodes-Done (some a) (some b) e1 e2 g =
        let out = radix_hash_join margin fresh order schedule w side1 side2 2 in
        let (list, found, lists) =
          radix_hash_join-Lists columns margin fresh order schedule every w side1 side2 2 stock j1
            j2 (inr (inr (omega arith, g.3))) in
        let it = merged (node_at a) (node_at b) out.1 (rows list) in
        let lem = update_inter_and_delete-merged hq a b out.1 list g.1 g.2 lists.closed in
        rw (==_eq_false a b g.0) (
          it,
          ap
                (λ (p : Performed).
                  with_result p.result (λ res. update_inter_and_delete hq a b res p.switched))
                (perform_eq (some a) (some b) 2 e1 e2)
              ∙ ap
                  (λ (o : Option HeadResult).
                    with_result o (λ res. update_inter_and_delete hq a b res out.1))
                  found
              ∙ ap (λ (x : HeadInter). some x) lem.0,
          table-Holds (λ i j. row_at (node_at a).row_ids i ++ row_at (node_at b).row_ids j) out.1
              side1 side2 list it lists lem.1 refl lem.2,
          subst (λ (p : Performed). Stocked columns p.houses)
              (sym (perform_eq (some a) (some b) 2 e1 e2))
              (radix_hash_join-Stocked columns margin fresh order schedule every w side1 side2 2
                stock j1 j2 (inr (inr (omega arith, g.3)))),
        )

    -- A join of two different relations of a query, with warehouses in order, on relations that can
    -- be reordered, and where relations of no intermediate are whole columns with tuples, the fields
    -- of intermediates agree, and two intermediates are different and not both without rows: the
    -- join ends, and leaves an intermediate whose fields agree and whose rows are, in some order and
    -- each as often, the pairs of rows with equal values in the two columns side by side, new or in
    -- the place of the intermediate that is extended, with the second one deleted; the warehouses
    -- stay in order.
    pub worker_j-Holds :
        Given (find_node hq rel1) (find_node hq rel2)
        → (it : Inter) × ((worker_j margin fresh order schedule pred hq w).0
            ≡ some (Becomes (find_node hq rel1) (find_node hq rel2) it))
          × Holds (spec (find_node hq rel1) (find_node hq rel2)) it
          × Stocked columns (worker_j margin fresh order schedule pred hq w).1
    unfolding worker_j Done
    worker_j-Holds g =
        rw (==_eq_false rel1 rel2 other)
          (nodes-Done (find_node hq rel1) (find_node hq rel2) refl refl g)
