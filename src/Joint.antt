-- ===== src/Joint.antt =====
-- src/jointPerformer.c: filters, joins of a relation with itself and joins within one intermediate,
-- each as a loop that collects the row numbers that survive.
pub mod Selection
pub mod Keeping
pub mod Filters
pub mod Solo
pub mod Forge
pub mod Places
use join_operator_software_d.Prelude.{
  ℕ, zero, suc, ◌+◌, ◌-◌, Bool, true, false, Option, none, some, List, [], ◌∷◌, ◌++◌, if◌then◌else◌,
  ◌==◌, ltb, get_or, store,
}
use join_operator_software_d.Structs.{Tuple, Relation}
use join_operator_software_d.Query.{ColRel, Filter, Join, less, greater}
use join_operator_software_d.Inter.{
  Inter, HeadInter, no_inter, update_inter_self_join, create_inter_self_join,
}

unfoldable pub apply_filter : ℕ → ℕ → ℕ → ℕ
apply_filter value op target =
    if op == less
    then (if ltb value target then 1 else 0)
    else if op == greater
    then (if ltb target value then 1 else 0)
    else if value == target
    then 1
    else 0

-- `for (i = 0; i < numOfCols; i++) if (joinedRels[i] == rel) break;` leaves the place of the
-- relation, or `numOfCols`.
unfoldable pub find_col : ℕ → ℕ → List ℕ → ℕ → ℕ
find_col zero i rels rel = i
find_col (suc n) i rels rel =
    let rest = find_col n (i + 1) rels rel in if get_or rels i 0 == rel then i else rest

-- Whether one of the first `n` relations is `rel`.
abbrev pub has_rel : ℕ → List ℕ → ℕ → Bool
has_rel zero rels rel = false
has_rel (suc n) [] rel = false
has_rel (suc n) (r ∷ rels) rel = let rest = has_rel n rels rel in if r == rel then true else rest

-- The place of the first node with the relation; `none` is `NULL`.
abbrev pub find_node_from : List Inter → ℕ → ℕ → Option ℕ
find_node_from [] place rel = none
find_node_from (it ∷ nodes) place rel =
    let rest = find_node_from nodes (place + 1) rel in
    if has_rel it.num_of_cols it.joined_rels rel then some place else rest

unfoldable pub find_node : HeadInter → ℕ → Option ℕ
find_node hi rel = find_node_from hi.nodes 0 rel

-- `for (; i < rows; i++) if (test(i)) temp[cur++] = i;` with `n` rounds left, where `temp` has
-- `size` entries. A write past them, which is undefined, changes nothing here.
pub keep_where : ℕ → (ℕ → Bool) → ℕ → ℕ → List ℕ × ℕ → List ℕ × ℕ
keep_where size test zero i s = s
keep_where size test (suc n) i s =
    let kept : List ℕ = if ltb s.1 size then store s.0 s.1 i else s.0 in
    keep_where size test n (i + 1) (if test i then (kept, s.1 + 1) else s)

-- The column of row numbers of a relation in an intermediate.
unfoldable pub rows_of_rel : Inter → ℕ → List ℕ
rows_of_rel it rel = get_or it.row_ids (find_col it.num_of_cols 0 it.joined_rels rel) []

-- The test of a filter on the value `col[j]`.
pub passes : Filter → ℕ → Bool
passes pred j = ltb 0 (apply_filter (get_or pred.participant.col j 0) pred.op pred.value)

pub worker_f : Filter → HeadInter → HeadInter
worker_f pred hq =
    let r = pred.participant in
    elim (find_node hq r.rel) [
      | some node ↦
          let it = get_or hq.nodes node no_inter in
          let row_ids = rows_of_rel it r.rel in
          let s =
            keep_where r.rows (λ i. passes pred (get_or row_ids i 0)) it.numb_of_rows 0 ([], 0) in
          update_inter_self_join hq node s.0 s.1
      | none ↦
          let s = keep_where r.rows (passes pred) r.rows 0 ([], 0) in
          create_inter_self_join hq r.rel s.0 s.1
    ]

-- The test of a join of two columns of one relation.
pub same_values : Join → ℕ → Bool
same_values pred j = get_or pred.participant1.col j 0 == get_or pred.participant2.col j 0

pub perform_self_join : HeadInter → Option ℕ → Join → List ℕ × ℕ
perform_self_join hq (some valids) pred =
    let it = get_or hq.nodes valids no_inter in
    let row_ids = rows_of_rel it pred.participant1.rel in
    keep_where pred.participant1.rows (λ i. same_values pred (get_or row_ids i 0)) it.numb_of_rows 0
      ([], 0)
perform_self_join hq none pred =
    keep_where pred.participant1.rows (same_values pred) pred.participant1.rows 0 ([], 0)

pub perform_same_node_join : HeadInter → ℕ → Join → List ℕ × ℕ
perform_same_node_join hq node pred =
    let it = get_or hq.nodes node no_inter in
    let row_ids1 = rows_of_rel it pred.participant1.rel in
    let row_ids2 = rows_of_rel it pred.participant2.rel in
    keep_where it.numb_of_rows
      (λ i.
        get_or pred.participant1.col (get_or row_ids1 i 0) 0
        == get_or pred.participant2.col (get_or row_ids2 i 0) 0)
      it.numb_of_rows 0 ([], 0)

-- The branch of `workerJ` for a join of a relation with itself.
pub worker_self : Join → HeadInter → HeadInter
worker_self pred hq =
    let rel1 = pred.participant1.rel in
    elim (find_node hq rel1) [
      | none ↦ let s = perform_self_join hq none pred in create_inter_self_join hq rel1 s.0 s.1
      | some node ↦
          let s = perform_self_join hq (some node) pred in update_inter_self_join hq node s.0 s.1
    ]

-- The branch of `workerJ` for two relations of one intermediate.
pub worker_same_node : Join → HeadInter → ℕ → HeadInter
worker_same_node pred hq node =
    let s = perform_same_node_join hq node pred in update_inter_self_join hq node s.0 s.1

-- The loop that copies a column with its row numbers, or, in an intermediate, the values at its row
-- numbers with their places.
unfoldable pub forge_loop : (ℕ → ℕ) → ℕ → ℕ → List Tuple → List Tuple
forge_loop value zero i t = t
forge_loop value (suc n) i t =
    forge_loop value n (i + 1) (store t i (record { key = value i; payload = i }))

unfoldable pub forge_relationsheep : HeadInter → ColRel → Relation
forge_relationsheep hi r = elim (find_node hi r.rel) [
  | none ↦ record { tuples = forge_loop (λ i. get_or r.col i 0) r.rows 0 []; size = r.rows }
  | some node ↦
      let it = get_or hi.nodes node no_inter in
      let row_ids = rows_of_rel it r.rel in
      record {
        tuples = forge_loop (λ i. get_or r.col (get_or row_ids i 0) 0) it.numb_of_rows 0 [];
        size = it.numb_of_rows;
      }
]
