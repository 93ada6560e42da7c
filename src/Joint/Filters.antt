-- ===== src/Joint/Filters.antt =====
-- src/jointPerformer.c: what the filters and the joins within one intermediate leave of the rows.
use native.Mathlib.Omega.{arith}
use join_operator_software_d.Prelude.{
  ◌↔◌, ◌<◌, ◌≢◌, true, ==_iff, ℕ, ◌≡◌, Option, none, some, ◌==◌, get_or,
}
use join_operator_software_d.Query.{Filter, Join, less, greater}
use join_operator_software_d.Inter.{HeadInter, no_inter}
use join_operator_software_d.Inter.Updates.{IsTable}
use join_operator_software_d.Joint.{
  apply_filter, rows_of_rel, passes, worker_f, same_values, perform_self_join,
  perform_same_node_join, worker_self, worker_same_node,
}
use join_operator_software_d.Joint.Places.{IsPlace, find_node-node_of}
use join_operator_software_d.Joint.Keeping.{
  Keeps, FitsAt, Leaves, keep_where-Keeps, keep_where-KeepsRows, keep_where-StartsRows,
}

-- The value passes the filter.
pub record Admits (pred : Filter) (value : ℕ) : Type 0 where
  pub when_less : pred.op ≡ less → value < pred.value
  pub when_greater : pred.op ≡ greater → pred.value < value
  pub when_equal : pred.op ≢ less → pred.op ≢ greater → value ≡ pred.value

pub passes-Admits :
    (pred : Filter) (j : ℕ) → (passes pred j ≡ true) ↔ Admits pred (get_or pred.participant.col j 0)
unfolding passes apply_filter
passes-Admits pred j = (
  λ t. record {
    when_less = λ e. ground (arith, t, e);
    when_greater = λ e. ground (arith, t, e);
    when_equal = λ n m. ground (arith, t, n, m);
  },
  λ a.
      let below = a.when_less in
      let above = a.when_greater in let same = a.when_equal in ground (arith, below, above, same),
)

-- A filter keeps exactly the rows whose value passes, each once and in order: where the relation
-- stands in an intermediate, whose fields agree and which has no more rows than the relation, the
-- rows of that intermediate, and otherwise the rows of the relation, in a new intermediate.
pub worker_f-Leaves :
    (pred : Filter) (hq : HeadInter) (place : Option (ℕ × ℕ))
    → IsPlace hq pred.participant.rel place
    → FitsAt hq place pred.participant.rows
    → Leaves hq place pred.participant.rel pred.participant.rows
        (λ j. Admits pred (get_or pred.participant.col j 0))
        (worker_f pred hq)
unfolding worker_f
worker_f-Leaves pred hq none p fits =
    let r = pred.participant in
    rw (worker_f, find_node-node_of hq r.rel none p)
      (keep_where-StartsRows hq r.rel r.rows (passes pred) (λ j. Admits pred (get_or r.col j 0))
        (passes-Admits pred))
worker_f-Leaves pred hq (some (node, col)) p fits =
    let r = pred.participant in
    rw (worker_f, find_node-node_of hq r.rel (some (node, col)) p)
      (keep_where-KeepsRows hq r.rel node col r.rows (passes pred)
        (λ j. Admits pred (get_or r.col j 0)) (passes-Admits pred) p.column fits)

same_values-Path :
    (pred : Join) (j : ℕ)
    → (same_values pred j ≡ true)
      ↔ (get_or pred.participant1.col j 0 ≡ get_or pred.participant2.col j 0)
unfolding same_values
same_values-Path pred j =
    ==_iff (get_or pred.participant1.col j 0) (get_or pred.participant2.col j 0)

-- A join of two columns of one relation keeps exactly the rows where they are equal, each once and
-- in order: where the relation stands in an intermediate, whose fields agree and which has no more
-- rows than the relation, the rows of that intermediate, and otherwise the rows of the relation, in
-- a new intermediate.
pub worker_self-Leaves :
    (pred : Join) (hq : HeadInter) (place : Option (ℕ × ℕ))
    → IsPlace hq pred.participant1.rel place
    → FitsAt hq place pred.participant1.rows
    → Leaves hq place pred.participant1.rel pred.participant1.rows
        (λ j. get_or pred.participant1.col j 0 ≡ get_or pred.participant2.col j 0)
        (worker_self pred hq)
unfolding worker_self perform_self_join
worker_self-Leaves pred hq none p fits =
    let r = pred.participant1 in
    rw (worker_self, find_node-node_of hq r.rel none p)
      (keep_where-StartsRows hq r.rel r.rows (same_values pred)
        (λ j. get_or r.col j 0 ≡ get_or pred.participant2.col j 0) (same_values-Path pred))
worker_self-Leaves pred hq (some (node, col)) p fits =
    let r = pred.participant1 in
    rw (worker_self, find_node-node_of hq r.rel (some (node, col)) p)
      (keep_where-KeepsRows hq r.rel node col r.rows (same_values pred)
        (λ j. get_or r.col j 0 ≡ get_or pred.participant2.col j 0) (same_values-Path pred) p.column
        fits)

-- A join of two relations of one intermediate whose fields agree keeps exactly its rows where the
-- two columns are equal, each once and in order.
pub worker_same_node-Keeps :
    (pred : Join) (hq : HeadInter) (node : ℕ)
    → IsTable (get_or hq.nodes node no_inter)
    → let it = get_or hq.nodes node no_inter in
      Keeps hq node
        (λ i.
          get_or pred.participant1.col (get_or (rows_of_rel it pred.participant1.rel) i 0) 0
          == get_or pred.participant2.col (get_or (rows_of_rel it pred.participant2.rel) i 0) 0)
        (worker_same_node pred hq node)
unfolding worker_same_node perform_same_node_join
worker_same_node-Keeps pred hq node v =
    let it = get_or hq.nodes node no_inter in
    keep_where-Keeps hq node it.numb_of_rows
      (λ i.
        get_or pred.participant1.col (get_or (rows_of_rel it pred.participant1.rel) i 0) 0
        == get_or pred.participant2.col (get_or (rows_of_rel it pred.participant2.rel) i 0) 0)
      v (omega arith)
