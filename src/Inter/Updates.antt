-- ===== src/Inter/Updates.antt =====
-- What the operations on intermediates make of the rows: a row of the new table is a row of the
-- old one, or two old rows side by side, for each row of the result that is taken over.
use mathlib.Core.Path.{ap₂}
use join_operator_software_d.Prelude.{
  ℕ, ◌+◌, ◌<◌, ◌≡◌, refl, sym, ap, ◌∙◌, arith, List, [], ◌∷◌, ◌++◌, length, length-append, get_or,
  set, take_all, replicate, All,
}
use join_operator_software_d.Structs.{RowTuple, HeadResult}
use join_operator_software_d.ResultList.Contents.{rows, IsClosed}
use join_operator_software_d.Inter.{
  Inter, HeadInter, no_inter, update_inter, update_inter_self_join, update_inter_from_res,
  update_row_ids, update_row_ids_loop, update_inter_and_delete, delete_inter_node, join_row_ids,
  push_row, join_body, Filling, keep_rows, row_at, first_of_row, second_of_row, each_row,
}
use join_operator_software_d.Inter.Columns.{
  columns, columns-nil, col_at, keep_rows-columns, row_at-columns, length-columns, readers, reads,
  length-readers, row_at-readers, update_row_ids_loop-columns, side_at, sides, length-sides,
  row_at-sides, each_row-each_res, each_res_congr, each_res-columns, push_results,
}

-- The fields of an intermediate agree: a relation for each column, and columns of one length.
pub record IsTable (it : Inter) : Type 0 where
  pub cols : it.num_of_cols ≡ length it.row_ids
  pub rels : it.num_of_cols ≡ length it.joined_rels
  pub even : All (λ c. length c ≡ it.numb_of_rows) it.row_ids

-- `it` with the rows `ks` alone.
abbrev pub kept : Inter → List ℕ → Inter
kept it ks = record it { numb_of_rows = length ks; row_ids = columns col_at it.row_ids ks }

-- `it` joined with a new relation along the result rows.
abbrev pub extended : Inter → ℕ → ℕ → List RowTuple → Inter
extended it rel switched ts = record {
  num_of_cols = it.num_of_cols + 1;
  numb_of_rows = length ts;
  row_ids = columns reads (readers switched it.row_ids) ts;
  joined_rels = it.joined_rels ++ rel ∷ [];
}

-- Two intermediates joined along the result rows.
abbrev pub merged : Inter → Inter → ℕ → List RowTuple → Inter
merged a b switched ts = record {
  num_of_cols = a.num_of_cols + b.num_of_cols;
  numb_of_rows = length ts;
  row_ids = columns (side_at switched) (sides a.row_ids b.row_ids) ts;
  joined_rels = a.joined_rels ++ b.joined_rels;
}

-- Keeping rows of an intermediate whose fields agree: the node becomes a table of exactly the kept
-- rows, in their order, whose fields agree.
pub update_inter_self_join_lem :
    (head : HeadInter) (node : ℕ) (ks : List ℕ)
    → IsTable (get_or head.nodes node no_inter)
    → let it = get_or head.nodes node no_inter in
      (update_inter_self_join head node ks (length ks)
        ≡ record head { nodes = set head.nodes node (kept it ks) })
      × IsTable (kept it ks)
      × ((i : ℕ)
          → i < length ks
          → row_at (kept it ks).row_ids i ≡ row_at it.row_ids (get_or ks i 0))
unfolding update_inter_self_join update_inter row_at
update_inter_self_join_lem head node ks v =
    let it = get_or head.nodes node no_inter in
    let filled : (keep_rows it.row_ids ks (replicate it.num_of_cols [], 0)).0
        ≡ columns col_at it.row_ids ks =
      ap (λ (cs : List (List ℕ)). (keep_rows it.row_ids ks (cs, 0)).0)
        (columns-nil col_at it.row_ids it.num_of_cols v.cols)
      ∙ keep_rows-columns it.row_ids ks [] 0 refl in
    let len = length-columns col_at it.row_ids ks in
    (
      rw (
        take_all (length ks) ks refl,
        take_all it.num_of_cols it.row_ids v.cols,
        take_all it.num_of_cols it.joined_rels v.rels,
        filled,
      ),
      record { cols = v.cols ∙ sym len.0; rels = v.rels; even = len.1 },
      λ i lt. row_at-columns col_at it.row_ids ks i 0 lt,
    )

-- A row for which there is no result.
abbrev pub no_row : RowTuple
no_row = record { row_r = 0; row_s = 0 }

update_row_ids_lem :
    (it : Inter) (res : HeadResult) (switched : ℕ)
    → IsTable it
    → IsClosed res
    → update_row_ids it res switched ≡ columns reads (readers switched it.row_ids) (rows res)
unfolding update_row_ids
update_row_ids_lem it res switched v c =
    rw (take_all it.num_of_cols it.row_ids v.cols, c.counted)
      (ap (update_row_ids_loop (length res.nodes) switched it.row_ids res.nodes 0) (
          columns-nil reads (readers switched it.row_ids) (it.num_of_cols + 1)
            (omega (arith, length-readers switched it.row_ids, v.cols)))
        ∙ update_row_ids_loop-columns switched it.row_ids res.nodes [] 0 c.filled refl)

-- Joining a new relation to an intermediate whose fields agree, along a finished result list: the
-- fields of the new table agree, and its row `i` is the old row that result `i` names with the row
-- of the new relation behind it.
pub update_inter_from_res_lem :
    (head : HeadInter) (node rel switched : ℕ) (res : HeadResult)
    → IsTable (get_or head.nodes node no_inter)
    → IsClosed res
    → let it = get_or head.nodes node no_inter in
      let new = extended it rel switched (rows res) in
      (update_inter_from_res head node res rel switched
        ≡ record head { nodes = set head.nodes node new })
      × IsTable new
      × ((i : ℕ)
          → i < length (rows res)
          → row_at new.row_ids i
            ≡ row_at it.row_ids (first_of_row switched (get_or (rows res) i no_row))
              ++ second_of_row switched (get_or (rows res) i no_row) ∷ [])
unfolding update_inter_from_res update_inter
update_inter_from_res_lem head node rel switched res v c =
    let it = get_or head.nodes node no_inter in
    let len = length-columns reads (readers switched it.row_ids) (rows res) in
    (
      rw (
        take_all it.num_of_cols it.joined_rels v.rels,
        update_row_ids_lem it res switched v c,
        c.total,
      ),
      record {
        cols = omega (arith, v.cols, len.0, length-readers switched it.row_ids);
        rels = omega (arith, v.rels, length-append {0} it.joined_rels (rel ∷ []));
        even = len.1;
      },
      λ i lt.
          row_at-columns reads (readers switched it.row_ids) (rows res) i no_row lt
          ∙ row_at-readers switched it.row_ids (get_or (rows res) i no_row),
    )

join_row_ids_lem :
    (a b : Inter) (res : HeadResult) (switched : ℕ)
    → IsTable a
    → IsTable b
    → IsClosed res
    → join_row_ids a b res switched
      ≡ columns (side_at switched) (sides a.row_ids b.row_ids) (rows res)
unfolding join_row_ids
join_row_ids_lem a b res switched v w c =
    let ds = sides a.row_ids b.row_ids in
    let body = join_body a.row_ids b.row_ids switched in
    let start = replicate (a.num_of_cols + b.num_of_cols) [] in
    ap₂
      (λ (x y : List (List ℕ)).
        (each_row (join_body x y switched) res.numb_of_nodes res.nodes (start, 0)).0)
      (take_all a.num_of_cols a.row_ids v.cols) (take_all b.num_of_cols b.row_ids w.cols)
    ∙ ap₂ (λ (n : ℕ) (cs : List (List ℕ)). (each_row body n res.nodes (cs, 0)).0) c.counted
        (columns-nil (side_at switched) ds (a.num_of_cols + b.num_of_cols)
          (omega (arith, length-sides a.row_ids b.row_ids, v.cols, w.cols)))
    ∙ ap (λ (s : Filling). s.0)
        (each_row-each_res body res.nodes (columns (side_at switched) ds [], 0))
    ∙ ap (λ (s : Filling). s.0)
        (each_res_congr body (push_results (side_at switched) ds) (rows res)
          (columns (side_at switched) ds [], 0)
          (λ s t.
            unfold join_body in
            ap (λ (vs : List ℕ). (push_row s.0 s.1 vs, s.1 + 1))
              (sym (row_at-sides switched a.row_ids b.row_ids t))))
    ∙ each_res-columns (side_at switched) ds (rows res) [] 0 refl

-- Joining two intermediates whose fields agree along a finished result list: the first node becomes
-- the table of both rows side by side, for each result in order, its fields agree again, and
-- `deleteInterNode` is called on the second node.
pub update_inter_and_delete-merged :
    (head : HeadInter) (node1 node2 switched : ℕ) (res : HeadResult)
    → IsTable (get_or head.nodes node1 no_inter)
    → IsTable (get_or head.nodes node2 no_inter)
    → IsClosed res
    → let a = get_or head.nodes node1 no_inter in
      let b = get_or head.nodes node2 no_inter in
      let new = merged a b switched (rows res) in
      (update_inter_and_delete head node1 node2 res switched
        ≡ delete_inter_node (record head { nodes = set head.nodes node1 new }) node2)
      × IsTable new
      × ((i : ℕ)
          → i < length (rows res)
          → row_at new.row_ids i
            ≡ row_at a.row_ids (first_of_row switched (get_or (rows res) i no_row))
              ++ row_at b.row_ids (second_of_row switched (get_or (rows res) i no_row)))
unfolding update_inter_and_delete update_inter
update_inter_and_delete-merged head node1 node2 switched res v w c =
    let a = get_or head.nodes node1 no_inter in
    let b = get_or head.nodes node2 no_inter in
    let ds = sides a.row_ids b.row_ids in
    let len = length-columns (side_at switched) ds (rows res) in
    (
      rw (
        take_all a.num_of_cols a.joined_rels v.rels,
        take_all b.num_of_cols b.joined_rels w.rels,
        join_row_ids_lem a b res switched v w c,
        c.total,
      ),
      record {
        cols = omega (arith, v.cols, w.cols, len.0, length-sides a.row_ids b.row_ids);
        rels = omega (arith, v.rels, w.rels, length-append {0} a.joined_rels b.joined_rels);
        even = len.1;
      },
      λ i lt.
          row_at-columns (side_at switched) ds (rows res) i no_row lt
          ∙ row_at-sides switched a.row_ids b.row_ids (get_or (rows res) i no_row),
    )
