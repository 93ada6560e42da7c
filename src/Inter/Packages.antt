-- ===== src/Inter/Packages.antt =====
-- src/interList.c and findNextRowId of src/jointPerformer.c: the variants of the joins for packages, in
-- which a row of the result stands for all neighbouring rows with its row number. The arrays grow as
-- they are filled.
use join_operator_software_d.Prelude.{
  ℕ, zero, suc, ◌+◌, ◌-◌, ◌<◌, ◌≡◌, ◌≢◌, refl, ap, ◌∙◌, arith, List, [], ◌∷◌, ◌++◌, if◌then◌else◌,
  ◌==◌, ==_eq_false, length, get_or, take, replicate,
}
use join_operator_software_d.Structs.{RowTuple, ResultNode, HeadResult}
use join_operator_software_d.ResultList.Contents.{rows, IsClosed}
use join_operator_software_d.Inter.Columns.{each_row-each_res, each_res_congr}
use join_operator_software_d.Inter.{
  Inter, HeadInter, no_inter, update_inter, delete_inter_node, push_row, row_at, Filling, each_res,
  each_row, first_of_row, second_of_row, join_body, join_row_ids, update_inter_and_delete,
}

-- `while (i < rows) { if (rowIds[i] != current) break; i++; }` with `n` rows left.
unfoldable pub next_loop : ℕ → ℕ → List ℕ → ℕ → ℕ
next_loop zero i row_ids current = i
next_loop (suc n) i row_ids current =
    let rest = next_loop n (i + 1) row_ids current in
    if get_or row_ids i 0 == current then rest else i

unfoldable pub find_next_row_id : List ℕ → ℕ → ℕ → ℕ
find_next_row_id row_ids i rows = next_loop (rows - (i + 1)) (i + 1) row_ids (get_or row_ids i 0)

-- The place of a relation among the first `n`; 0 if it is not there.
unfoldable pub place_loop : ℕ → ℕ → List ℕ → ℕ → ℕ
place_loop zero i rels rel = 0
place_loop (suc n) i rels rel =
    let rest = place_loop n (i + 1) rels rel in if get_or rels i 0 == rel then i else rest

-- `for (p = i; p < i + n; p++)`, one row for each.
unfoldable pub package_rows : ℕ → ℕ → (ℕ → List ℕ) → Filling → Filling
package_rows zero i row s = s
package_rows (suc n) i row s = package_rows n (i + 1) row (push_row s.0 s.1 (row i), s.1 + 1)

-- The two loops over the rows of both packages.
unfoldable pub package_pairs : ℕ → ℕ → ℕ → ℕ → (ℕ → ℕ → List ℕ) → Filling → Filling
package_pairs zero i m j row s = s
package_pairs (suc n) i m j row s = package_pairs n (i + 1) m j row (package_rows m j (row i) s)

unfoldable pub package_body : List (List ℕ) → ℕ → ℕ → ℕ → Filling → RowTuple → Filling
package_body cols place rows switched s t =
    let p = first_of_row switched t in
    let next = find_next_row_id (get_or cols place []) p rows in
    package_rows (next - p) p (λ i. row_at cols i ++ second_of_row switched t ∷ []) s

unfoldable pub update_row_ids2 : Inter → HeadResult → ℕ → ℕ → Filling
update_row_ids2 it head_res existing_rel switched =
    let place = place_loop it.num_of_cols 0 it.joined_rels existing_rel in
    each_row (package_body (take it.num_of_cols it.row_ids) place it.numb_of_rows switched)
      head_res.numb_of_nodes head_res.nodes (replicate (it.num_of_cols + 1) [], 0)

unfoldable pub update_inter_from_res2 : HeadInter → ℕ → HeadResult → ℕ → ℕ → ℕ → HeadInter
update_inter_from_res2 head node head_res added_rel existing_rel switched =
    let it = get_or head.nodes node no_inter in
    let s = update_row_ids2 it head_res existing_rel switched in
    update_inter head node (it.num_of_cols + 1) s.1
      (take it.num_of_cols it.joined_rels ++ added_rel ∷ []) s.0

unfoldable pub package_join_body : Inter → Inter → ℕ → ℕ → ℕ → Filling → RowTuple → Filling
package_join_body a b place1 place2 switched s t =
    let p1 = first_of_row switched t in
    let p2 = second_of_row switched t in
    let cols1 = take a.num_of_cols a.row_ids in
    let cols2 = take b.num_of_cols b.row_ids in
    let next1 = find_next_row_id (get_or cols1 place1 []) p1 a.numb_of_rows in
    let next2 = find_next_row_id (get_or cols2 place2 []) p2 b.numb_of_rows in
    package_pairs (next1 - p1) p1 (next2 - p2) p2 (λ i j. row_at cols1 i ++ row_at cols2 j) s

unfoldable pub join_row_ids2 : Inter → Inter → HeadResult → ℕ → ℕ → ℕ → Filling
join_row_ids2 a b head_res existing_rel1 existing_rel2 switched =
    let place1 = place_loop a.num_of_cols 0 a.joined_rels existing_rel1 in
    let place2 = place_loop b.num_of_cols 0 b.joined_rels existing_rel2 in
    each_row (package_join_body a b place1 place2 switched) head_res.numb_of_nodes head_res.nodes
      (replicate (a.num_of_cols + b.num_of_cols) [], 0)

unfoldable pub update_inter_and_delete2 : HeadInter → ℕ → ℕ → HeadResult → ℕ → ℕ → ℕ → HeadInter
update_inter_and_delete2 head_int node1 node2 head_res existing_rel1 existing_rel2 switched =
    let a = get_or head_int.nodes node1 no_inter in
    let b = get_or head_int.nodes node2 no_inter in
    let s = join_row_ids2 a b head_res existing_rel1 existing_rel2 switched in
    delete_inter_node
      (update_inter head_int node1 (a.num_of_cols + b.num_of_cols) s.1
        (take a.num_of_cols a.joined_rels ++ take b.num_of_cols b.joined_rels) s.0)
      node2

-- No two neighbours among the first `rows` are equal.
abbrev pub NoPackages : ℕ → List ℕ → Type 0
NoPackages rows row_ids = (i : ℕ) → i + 1 < rows → get_or row_ids (i + 1) 0 ≢ get_or row_ids i 0

find_next_row_id_lem :
    (row_ids : List ℕ) (i rows : ℕ)
    → NoPackages rows row_ids
    → find_next_row_id row_ids i rows ≡ i + 1
unfolding find_next_row_id next_loop
find_next_row_id_lem row_ids i rows no_packages = by_left (rows - (i + 1)) refl
  where
    by_left :
        (n : ℕ) → rows - (i + 1) ≡ n → next_loop n (i + 1) row_ids (get_or row_ids i 0) ≡ i + 1
    by_left zero e = refl
    by_left (suc n) e =
        rw
          (==_eq_false (get_or row_ids (i + 1) 0) (get_or row_ids i 0)
            (no_packages i (omega (arith, e))))
          refl

one_more : (i n : ℕ) → n ≡ i + 1 → n - i ≡ 1
one_more i n e = omega (arith, e)

each_row_congr :
    {S : Type 0} (f g : S → RowTuple → S) (n : ℕ) (ns : List ResultNode) (s : S)
    → ((s : S) (t : RowTuple) → f s t ≡ g s t)
    → each_row f n ns s ≡ each_row g n ns s
unfolding each_row
each_row_congr f g zero ns s same = refl
each_row_congr f g (suc n) [] s same = refl
each_row_congr f g (suc n) (x ∷ ns) s same =
    ap (each_row f n ns) (each_res_congr f g (take x.size x.tuples) s same)
    ∙ each_row_congr f g n ns (each_res g (take x.size x.tuples) s) same

module _ (a b : Inter) (switched : ℕ) where
  -- The body that the join without packages has.
  abbrev plain_body : Filling → RowTuple → Filling
  plain_body = join_body (take a.num_of_cols a.row_ids) (take b.num_of_cols b.row_ids) switched

  package_join_body-join_body :
      (place1 place2 : ℕ)
      → NoPackages a.numb_of_rows (get_or (take a.num_of_cols a.row_ids) place1 [])
      → NoPackages b.numb_of_rows (get_or (take b.num_of_cols b.row_ids) place2 [])
      → (s : Filling) (t : RowTuple)
      → package_join_body a b place1 place2 switched s t ≡ plain_body s t
  unfolding package_join_body package_pairs package_rows join_body
  package_join_body-join_body place1 place2 none1 none2 s t =
      let p1 = first_of_row switched t in
      let p2 = second_of_row switched t in
      rw
        (
          one_more p1 _ (
              find_next_row_id_lem (get_or (take a.num_of_cols a.row_ids) place1 []) p1
                a.numb_of_rows none1),
          one_more p2 _ (
              find_next_row_id_lem (get_or (take b.num_of_cols b.row_ids) place2 []) p2
                b.numb_of_rows none2),
        )
        refl

  counter_lem : (ts : List RowTuple) (s : Filling) → (each_res plain_body ts s).1 ≡ s.1 + length ts
  unfolding each_res join_body
  counter_lem [] s = omega arith
  counter_lem (t ∷ ts) s = counter_lem ts (plain_body s t) ∙ omega arith

-- Along a finished result list, and when in neither intermediate two neighbouring rows have the same
-- row number of the relation that is joined, the join of two intermediates by packages is the join
-- without packages.
pub update_inter_and_delete2-plain :
    (head : HeadInter) (node1 node2 rel1 rel2 switched : ℕ) (res : HeadResult)
    → let a = get_or head.nodes node1 no_inter in
      let b = get_or head.nodes node2 no_inter in
      NoPackages a.numb_of_rows
        (get_or (take a.num_of_cols a.row_ids) (place_loop a.num_of_cols 0 a.joined_rels rel1) [])
      → NoPackages b.numb_of_rows
          (get_or (take b.num_of_cols b.row_ids) (place_loop b.num_of_cols 0 b.joined_rels rel2) [])
      → IsClosed res
      → update_inter_and_delete2 head node1 node2 res rel1 rel2 switched
        ≡ update_inter_and_delete head node1 node2 res switched
unfolding update_inter_and_delete2 update_inter_and_delete join_row_ids2 join_row_ids
update_inter_and_delete2-plain head node1 node2 rel1 rel2 switched res none1 none2 c =
    let a = get_or head.nodes node1 no_inter in
    let b = get_or head.nodes node2 no_inter in
    let place1 = place_loop a.num_of_cols 0 a.joined_rels rel1 in
    let place2 = place_loop b.num_of_cols 0 b.joined_rels rel2 in
    let start : Filling = (replicate (a.num_of_cols + b.num_of_cols) [], 0) in
    let plain = plain_body a b switched in
    let body_eq =
      each_row_congr (package_join_body a b place1 place2 switched) plain res.numb_of_nodes
        res.nodes start (package_join_body-join_body a b switched place1 place2 none1 none2) in
    let count : (each_row plain res.numb_of_nodes res.nodes start).1 ≡ res.total_size =
      ap (λ (n : ℕ). (each_row plain n res.nodes start).1) c.counted
      ∙ ap (λ (s : Filling). s.1) (each_row-each_res plain res.nodes start)
      ∙ counter_lem a b switched (rows res) start
      ∙ omega (arith, c.total) in
    let rels = take a.num_of_cols a.joined_rels ++ take b.num_of_cols b.joined_rels in
    ap
      (λ (s : Filling).
        delete_inter_node (update_inter head node1 (a.num_of_cols + b.num_of_cols) s.1 rels s.0)
          node2)
      body_eq
    ∙ ap
        (λ (n : ℕ).
          delete_inter_node
            (update_inter head node1 (a.num_of_cols + b.num_of_cols) n rels
              (each_row plain res.numb_of_nodes res.nodes start).0)
            node2)
        count
