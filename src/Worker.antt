-- ===== src/Worker.antt =====
-- src/jointPerformer.c: the join of a query, from its predicate to the new intermediates. It makes the
-- relations for both sides, joins them, and merges the result into the list of intermediates.
pub mod Matches
pub mod Rows
pub mod Holding
pub mod Joined
use join_operator_software_d.Prelude.{ℕ, Option, none, some, List, if◌then◌else◌, ◌==◌}
use join_operator_software_d.Structs.{Tuple, Relation, HeadResult}
use join_operator_software_d.Query.{ColRel, Join}
use join_operator_software_d.Inter.{
  HeadInter, create_inter_from_res, update_inter_from_res, update_inter_and_delete,
}
use join_operator_software_d.Joint.{find_node, forge_relationsheep, worker_self, worker_same_node}
use join_operator_software_d.Radix.{ColumnRelation, Warehouses, radix_hash_join}

-- `forgeRelationsheep` with the fields that only `radixHashJoin` reads.
abbrev pub forge : HeadInter → ColRel → ColumnRelation
forge hi r = record {
  relation = forge_relationsheep hi r;
  real_rel = r.real_rel;
  real_col = r.real_col;
}

-- What `performRHJ` leaves; `new_rel` is `none` where it does not write `newRel`.
pub record Performed : Type 0 where
  pub result : Option HeadResult
  pub new_rel : Option ℕ
  pub switched : ℕ
  pub houses : Warehouses

-- The intermediates are `none` if the search never ends.
abbrev pub with_result : Option HeadResult → (HeadResult → HeadInter) → Option HeadInter
with_result none f = none
with_result (some res) f = some (f res)

-- `updateInterFromRes(node, ...);`. A node that is `NULL` stands for a crash; no call has one.
abbrev pub update_at : HeadInter → Option ℕ → HeadResult → ℕ → ℕ → HeadInter
update_at hq none res new_rel switched = hq
update_at hq (some node) res new_rel switched = update_inter_from_res hq node res new_rel switched

-- `if (rel1 == newRel) updateInterFromRes(n2, ...); else updateInterFromRes(n1, ...);`
unfoldable pub update_one :
    Option ℕ → Option ℕ → Option ℕ → HeadInter → ℕ → ℕ → HeadResult → HeadInter
update_one none n1 n2 hq rel1 switched res = hq
update_one (some new_rel) n1 n2 hq rel1 switched res =
    if rel1 == new_rel
    then update_at hq n2 res new_rel switched
    else update_at hq n1 res new_rel switched

-- `skipped` is left out: nothing changes it, and it is 0.
module _ (margin : ℕ → ℕ) (fresh : Relation → List Tuple) (order : Relation → List ℕ)
    (schedule : ℕ → List ℕ) where
  abbrev pub call_radix : Warehouses → ColumnRelation → ColumnRelation → ℕ → Option ℕ → Performed
  call_radix w r s switched new_rel =
      let out = radix_hash_join margin fresh order schedule w r s switched in
      record { result = out.0; new_rel = new_rel; switched = out.1; houses = out.2 }

  -- The nodes of the two relations are given; `none` is `NULL`.
  abbrev pub perform_on :
      Option ℕ → Option ℕ → Warehouses → HeadInter → ColRel → ColRel → ℕ → Performed
  perform_on none (some b) w hi r1 r2 switched =
      call_radix w (forge hi r2) (forge hi r1) 1 (some r1.rel)
  perform_on (some a) none w hi r1 r2 switched =
      call_radix w (forge hi r1) (forge hi r2) 1 (some r2.rel)
  perform_on none none w hi r1 r2 switched = call_radix w (forge hi r1) (forge hi r2) switched none
  perform_on (some a) (some b) w hi r1 r2 switched =
      call_radix w (forge hi r1) (forge hi r2) switched none

  unfoldable pub perform_rhj : Warehouses → HeadInter → ColRel → ColRel → ℕ → Performed
  perform_rhj w hi r1 r2 switched =
      perform_on (find_node hi r1.rel) (find_node hi r2.rel) w hi r1 r2 switched

  -- The branches for two relations, with the node of each. `switched` is not initialised before
  -- `performRHJ` where one relation is new, which sets it.
  unfoldable pub join_nodes :
      Option ℕ → Option ℕ → Join → HeadInter → Warehouses → Option HeadInter × Warehouses
  join_nodes none none pred hq w =
      let p = perform_rhj w hq pred.participant1 pred.participant2 0 in
      (
        with_result p.result (λ res.
            create_inter_from_res hq res pred.participant1.rel pred.participant2.rel p.switched),
        p.houses,
      )
  join_nodes none (some b) pred hq w =
      let p = perform_rhj w hq pred.participant1 pred.participant2 0 in
      (
        with_result p.result
            (update_one p.new_rel none (some b) hq pred.participant1.rel p.switched),
        p.houses,
      )
  join_nodes (some a) none pred hq w =
      let p = perform_rhj w hq pred.participant1 pred.participant2 0 in
      (
        with_result p.result
            (update_one p.new_rel (some a) none hq pred.participant1.rel p.switched),
        p.houses,
      )
  join_nodes (some a) (some b) pred hq w =
      let p = perform_rhj w hq pred.participant1 pred.participant2 2 in
      let joined : Option HeadInter × Warehouses =
        (with_result p.result (λ res. update_inter_and_delete hq a b res p.switched), p.houses) in
      if a == b then (some (worker_same_node pred hq a), w) else joined

  unfoldable pub worker_j : Join → HeadInter → Warehouses → Option HeadInter × Warehouses
  worker_j pred hq w =
      let rel1 = pred.participant1.rel in
      let rel2 = pred.participant2.rel in
      if rel1 == rel2
      then (some (worker_self pred hq), w)
      else join_nodes (find_node hq rel1) (find_node hq rel2) pred hq w
