-- ===== src/Inter.antt =====
-- src/interList.c: the intermediate results of a query. An intermediate holds, for each relation
-- joined so far, a column of row numbers; the list holds the intermediates that are not yet joined
-- with one another. A node is named by its place in the list, in place of its pointer.
pub mod Columns
pub mod Updates
pub mod Packages
pub mod Removal
use mathlib.Core.List.{map}
use join_operator_software_d.Prelude.{
  sub64, ℕ, zero, suc, ◌+◌, ◌-◌, List, [], ◌∷◌, ◌++◌, if◌then◌else◌, ◌==◌, ltb, get_or, set, store,
  take, replicate,
}
use join_operator_software_d.Structs.{RowTuple, ResultNode, HeadResult}

pub record Inter : Type 0 where
  pub num_of_cols : ℕ
  pub numb_of_rows : ℕ
  pub row_ids : List (List ℕ)
  pub joined_rels : List ℕ

pub record HeadInter : Type 0 where
  pub num_of_intermediates : ℕ
  pub nodes : List Inter

-- What a read outside the list gives.
abbrev pub no_inter : Inter
no_inter = record { num_of_cols = 0; numb_of_rows = 0; row_ids = []; joined_rels = [] }

unfoldable pub initialise_inter : ℕ → ℕ → List ℕ → List (List ℕ) → Inter
initialise_inter cols rows joined_rels row_ids = record {
  num_of_cols = cols;
  numb_of_rows = rows;
  row_ids = row_ids;
  joined_rels = joined_rels;
}

unfoldable pub initialise_head : HeadInter
initialise_head = record { num_of_intermediates = 0; nodes = [] }

-- The first node, or one behind the last.
unfoldable pub push_inter : HeadInter → ℕ → ℕ → List ℕ → List (List ℕ) → HeadInter
unfolding initialise_inter
push_inter head cols rows joined_rels row_ids =
    let node = initialise_inter cols rows joined_rels row_ids in
    record {
      num_of_intermediates = head.num_of_intermediates + 1;
      nodes = if head.num_of_intermediates == 0 then node ∷ [] else head.nodes ++ node ∷ [];
    }

-- All fields of the node are replaced.
pub update_inter : HeadInter → ℕ → ℕ → ℕ → List ℕ → List (List ℕ) → HeadInter
update_inter head node cols rows joined_rels row_ids = record head {
  nodes = set head.nodes node (record {
    num_of_cols = cols;
    numb_of_rows = rows;
    row_ids = row_ids;
    joined_rels = joined_rels;
  });
}

remove_at : ℕ → List Inter → List Inter
remove_at n [] = []
remove_at zero (x ∷ xs) = xs
remove_at (suc n) (x ∷ xs) = x ∷ remove_at n xs

-- The node is unlinked if it is in the list. The count falls in every case, and wraps at 0.
pub delete_inter_node : HeadInter → ℕ → HeadInter
unfolding remove_at
delete_inter_node head node = record {
  num_of_intermediates = sub64 head.num_of_intermediates 1;
  nodes = if head.num_of_intermediates == 0 then head.nodes else remove_at node head.nodes;
}

-- The loops over the nodes of a result list and the rows of each, with a body for a row.
pub each_res : {S : Type 0} → (S → RowTuple → S) → List RowTuple → S → S
each_res body [] s = s
each_res body (t ∷ ts) s = each_res body ts (body s t)

pub each_row : {S : Type 0} → (S → RowTuple → S) → ℕ → List ResultNode → S → S
unfolding each_res
each_row body zero ns s = s
each_row body (suc n) [] s = s
each_row body (suc n) (x ∷ ns) s = each_row body n ns (each_res body (take x.size x.tuples) s)

-- The row number in the first and in the second operand of the join; `switched` says that the
-- operands were exchanged.
unfoldable pub first_of_row : ℕ → RowTuple → ℕ
first_of_row switched t = if switched == 0 then t.row_r else t.row_s

unfoldable pub second_of_row : ℕ → RowTuple → ℕ
second_of_row switched t = if switched == 0 then t.row_s else t.row_r

-- One entry more in every column.
pub push_row : List (List ℕ) → ℕ → List ℕ → List (List ℕ)
push_row [] counter vs = []
push_row (a ∷ cols) counter [] = a ∷ cols
push_row (a ∷ cols) counter (v ∷ vs) = store a counter v ∷ push_row cols counter vs

-- `rowIds[whichCol][k]` for each column.
unfoldable pub row_at : List (List ℕ) → ℕ → List ℕ
row_at cols k = map (λ c. get_or c k 0) cols

-- The columns and the counter.
abbrev pub Filling : Type 0
Filling = List (List ℕ) × ℕ

unfoldable pub create_result_array : HeadResult → ℕ → List (List ℕ)
create_result_array head switched =
    (each_row
      (λ (s : Filling) t.
        (push_row s.0 s.1 (first_of_row switched t ∷ second_of_row switched t ∷ []), s.1 + 1))
      head.numb_of_nodes head.nodes ([] ∷ [] ∷ [], 0)).0

unfoldable pub create_inter_from_res : HeadInter → HeadResult → ℕ → ℕ → ℕ → HeadInter
create_inter_from_res head_int head_res rel1 rel2 switched =
    push_inter head_int 2 head_res.total_size (rel1 ∷ rel2 ∷ [])
      (create_result_array head_res switched)

-- The loop over the rows of one result node in one column, from entry `i` on.
pub fill_col : (RowTuple → ℕ) → List RowTuple → ℕ → List ℕ → List ℕ
fill_col f [] i col = col
fill_col f (t ∷ ts) i col = fill_col f ts (i + 1) (store col i (f t))

-- The loop over the columns of the intermediate and the new one behind them.
pub update_cols : ℕ → List (List ℕ) → List RowTuple → ℕ → List (List ℕ) → List (List ℕ)
update_cols switched cols ts base [] = []
update_cols switched [] ts base (a ∷ as') = fill_col (second_of_row switched) ts base a ∷ as'
update_cols switched (c ∷ cols) ts base (a ∷ as') =
    fill_col (λ t. get_or c (first_of_row switched t) 0) ts base a
    ∷ update_cols switched cols ts base as'

-- The loop over the result nodes, with `base`.
pub update_row_ids_loop :
    ℕ → ℕ → List (List ℕ) → List ResultNode → ℕ → List (List ℕ) → List (List ℕ)
update_row_ids_loop zero switched cols ns base ret = ret
update_row_ids_loop (suc n) switched cols [] base ret = ret
update_row_ids_loop (suc n) switched cols (x ∷ ns) base ret =
    update_row_ids_loop n switched cols ns (base + x.size)
      (update_cols switched cols (take x.size x.tuples) base ret)

pub update_row_ids : Inter → HeadResult → ℕ → List (List ℕ)
unfolding update_row_ids_loop
update_row_ids int_node head_res switched =
    update_row_ids_loop head_res.numb_of_nodes switched (take int_node.num_of_cols int_node.row_ids)
      head_res.nodes 0 (replicate (int_node.num_of_cols + 1) [])

pub update_inter_from_res : HeadInter → ℕ → HeadResult → ℕ → ℕ → HeadInter
update_inter_from_res head node head_res added_rel switched =
    let it = get_or head.nodes node no_inter in
    update_inter head node (it.num_of_cols + 1) head_res.total_size
      (take it.num_of_cols it.joined_rels ++ added_rel ∷ []) (update_row_ids it head_res switched)

-- One result row: the row numbers of the first intermediate, then those of the second.
pub join_body : List (List ℕ) → List (List ℕ) → ℕ → Filling → RowTuple → Filling
join_body cols1 cols2 switched s t = (
  push_row s.0 s.1
      (row_at cols1 (first_of_row switched t) ++ row_at cols2 (second_of_row switched t)),
  s.1 + 1,
)

pub join_row_ids : Inter → Inter → HeadResult → ℕ → List (List ℕ)
join_row_ids node1 node2 head_res switched =
    (each_row
      (join_body (take node1.num_of_cols node1.row_ids) (take node2.num_of_cols node2.row_ids)
        switched)
      head_res.numb_of_nodes head_res.nodes
      (replicate (node1.num_of_cols + node2.num_of_cols) [], 0)).0

pub update_inter_and_delete : HeadInter → ℕ → ℕ → HeadResult → ℕ → HeadInter
update_inter_and_delete head_int node1 node2 head_res switched =
    let it1 = get_or head_int.nodes node1 no_inter in
    let it2 = get_or head_int.nodes node2 no_inter in
    delete_inter_node
      (update_inter head_int node1 (it1.num_of_cols + it2.num_of_cols) head_res.total_size
        (take it1.num_of_cols it1.joined_rels ++ take it2.num_of_cols it2.joined_rels)
        (join_row_ids it1 it2 head_res switched))
      node2

-- The loop over the surviving rows.
pub keep_rows : List (List ℕ) → List ℕ → Filling → Filling
keep_rows cols [] s = s
keep_rows cols (k ∷ join_rows) s =
    keep_rows cols join_rows (push_row s.0 s.1 (row_at cols k), s.1 + 1)

-- The list `join_rows` is the array of `numbOfRows` row numbers.
pub update_inter_self_join : HeadInter → ℕ → List ℕ → ℕ → HeadInter
update_inter_self_join head node join_rows numb_of_rows =
    let it = get_or head.nodes node no_inter in
    let cols = take it.num_of_cols it.row_ids in
    update_inter head node it.num_of_cols numb_of_rows (take it.num_of_cols it.joined_rels)
      (keep_rows cols (take numb_of_rows join_rows) (replicate it.num_of_cols [], 0)).0

unfoldable pub create_inter_self_join : HeadInter → ℕ → List ℕ → ℕ → HeadInter
create_inter_self_join head rel rows numb_of_rows =
    push_inter head 1 numb_of_rows (rel ∷ []) (take numb_of_rows rows ∷ [])
