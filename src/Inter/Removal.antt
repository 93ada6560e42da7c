-- ===== src/Inter/Removal.antt =====
-- src/interList.c: the node of the second intermediate is taken out of the list.
use native.Mathlib.Omega.{arith}
use join_operator_software_d.Prelude.{
  ℕ, zero, suc, ◌-◌, ◌<◌, ◌≡◌, ◌≢◌, refl, ap, ◌∙◌, List, [], ◌∷◌, ◌++◌, ==_eq_false, length, get_or,
  set, take, drop, sub64, u64_mod,
}
use join_operator_software_d.Structs.{HeadResult}
use join_operator_software_d.ResultList.Contents.{IsClosed, rows}
use join_operator_software_d.Inter.{
  Inter, HeadInter, no_inter, remove_at, delete_inter_node, update_inter_and_delete, row_at,
  first_of_row, second_of_row,
}
use join_operator_software_d.Inter.Updates.{IsTable, merged, no_row, update_inter_and_delete-merged}

remove_at-take-drop : (n : ℕ) (its : List Inter) → remove_at n its ≡ take n its ++ drop (suc n) its
unfolding remove_at
remove_at-take-drop zero [] = refl
remove_at-take-drop (suc n) [] = refl
remove_at-take-drop zero (x ∷ its) = refl
remove_at-take-drop (suc n) (x ∷ its) = ap (λ (r : List Inter). x ∷ r) (remove_at-take-drop n its)

sub64_one : (n : ℕ) → 0 < n → n < u64_mod → sub64 n 1 ≡ n - 1
sub64_one n some_one small = omega (arith, some_one, small)

-- Of a list that is not empty one node goes, and the count falls by one.
delete_inter_node-take-drop :
    (hi : HeadInter) (node : ℕ)
    → 0 < hi.num_of_intermediates
    → hi.num_of_intermediates < u64_mod
    → delete_inter_node hi node ≡ record {
      num_of_intermediates = hi.num_of_intermediates - 1;
      nodes = take node hi.nodes ++ drop (suc node) hi.nodes;
    }
unfolding delete_inter_node
delete_inter_node-take-drop hi node some_one small =
    rw
      (
        sub64_one hi.num_of_intermediates some_one small,
        ==_eq_false hi.num_of_intermediates 0 (λ e. absurd (omega (arith, e, some_one))),
        remove_at-take-drop node hi.nodes,
      )
      refl

-- Joining two different intermediates of a counted list of fewer than 2^64, whose fields agree,
-- along a finished result list: the first node becomes the table of both rows side by side, for each
-- result in order, and its fields agree again; the second node is gone from the list, the others
-- stay in their order, and the count falls by one.
pub update_inter_and_delete_lem :
    (head : HeadInter) (node1 node2 switched : ℕ) (res : HeadResult)
    → head.num_of_intermediates ≡ length head.nodes
    → length head.nodes < u64_mod
    → node1 < length head.nodes
    → node2 < length head.nodes
    → node1 ≢ node2
    → IsTable (get_or head.nodes node1 no_inter)
    → IsTable (get_or head.nodes node2 no_inter)
    → IsClosed res
    → let a = get_or head.nodes node1 no_inter in
      let b = get_or head.nodes node2 no_inter in
      let new = merged a b switched (rows res) in
      let nodes = set head.nodes node1 new in
      (update_inter_and_delete head node1 node2 res switched ≡ record {
        num_of_intermediates = length head.nodes - 1;
        nodes = take node2 nodes ++ drop (suc node2) nodes;
      })
      × IsTable new
      × ((i : ℕ)
          → i < length (rows res)
          → row_at new.row_ids i
            ≡ row_at a.row_ids (first_of_row switched (get_or (rows res) i no_row))
              ++ row_at b.row_ids (second_of_row switched (get_or (rows res) i no_row)))
update_inter_and_delete_lem head node1 node2 switched res counted small lt1 lt2 other v w c =
    let a = get_or head.nodes node1 no_inter in
    let b = get_or head.nodes node2 no_inter in
    let new = merged a b switched (rows res) in
    let joined = update_inter_and_delete-merged head node1 node2 switched res v w c in
    (
      joined.0
          ∙ delete_inter_node-take-drop (record head { nodes = set head.nodes node1 new }) node2
              (omega (arith, counted, lt1)) (omega (arith, counted, small))
          ∙ ap
              (λ (n : ℕ). record {
                num_of_intermediates = n - 1;
                nodes =
                    take node2 (set head.nodes node1 new)
                    ++ drop (suc node2) (set head.nodes node1 new);
              })
              counted,
      joined.1,
      joined.2,
    )
