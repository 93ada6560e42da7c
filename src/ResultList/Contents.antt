-- ===== src/ResultList/Contents.antt =====
-- What a result list holds, and what the operations do to that.
use mathlib.Core.Option
use join_operator_software_d.Prelude.{
  ℕ, ◌+◌, ◌≤◌, ◌<◌, ◌≡◌, refl, sym, ap, ◌∙◌, ◌≢◌, inl, inr, arith, Bool-cases, ◌==◌, some, none,
  List, [], ◌∷◌, ◌++◌, append-nil, append_assoc, length, length-append, store, store-append, take,
  take_all, All, All-append, flat_map, flat_map-append, Bool, true, false, ◌&&◌, if◌then◌else◌,
}
use join_operator_software_d.Structs.{RowTuple, ResultNode, HeadResult}
use join_operator_software_d.ResultList.{
  max_tuples, initialise_result_head, initialise_result_head_no_buff, push_buffer, buffer_node,
  append_buffer, push_result_ver2, clean_list_head, connect_result_list, count_nodes,
  count_size_of_list,
}

-- The first `size` entries of a node.
abbrev pub node_rows : ResultNode → List RowTuple
node_rows n = take n.size n.tuples

-- The rows of the nodes, which is what a reader of a finished list visits.
abbrev pub rows : HeadResult → List RowTuple
rows head = flat_map node_rows head.nodes

abbrev pub buffer : HeadResult → List RowTuple
buffer head = Option.get_or head.buff_tuple []

-- The rows of the nodes and of the buffer, in the order of the pushes.
abbrev pub contents : HeadResult → List RowTuple
contents head = rows head ++ buffer head

abbrev pub IsFilled : ResultNode → Type 0
IsFilled n = (n.size ≡ length n.tuples) × (0 < n.size) × (n.size ≤ max_tuples)

-- A list that is being pushed to.
pub record IsOpen (head : HeadResult) : Type 0 where
  pub counted : head.numb_of_nodes ≡ length head.nodes
  pub filled : All IsFilled head.nodes
  pub present : head.buff_tuple ≡ some (buffer head)
  pub measured : head.buff_size ≡ length (buffer head)
  pub bounded : head.buff_size ≤ max_tuples
  pub total : head.total_size ≡ length (contents head)

-- A list that is finished, or that only takes over the nodes of others.
pub record IsClosed (head : HeadResult) : Type 0 where
  pub counted : head.numb_of_nodes ≡ length head.nodes
  pub filled : All IsFilled head.nodes
  pub total : head.total_size ≡ length (rows head)

pub initialise_result_head-IsOpen :
    IsOpen initialise_result_head × (contents initialise_result_head ≡ [])
unfolding initialise_result_head
initialise_result_head-IsOpen = (
  record {
    counted = refl;
    filled = tt;
    present = refl;
    measured = refl;
    bounded = omega arith;
    total = refl;
  },
  refl,
)

pub initialise_result_head_no_buff-IsClosed :
    IsClosed initialise_result_head_no_buff × (rows initialise_result_head_no_buff ≡ [])
unfolding initialise_result_head_no_buff
initialise_result_head_no_buff-IsClosed =
    (record { counted = refl; filled = tt; total = refl }, refl)

-- Both branches of the code put the node at the end.
nodes-append_buffer :
    (head : HeadResult)
    → head.numb_of_nodes ≡ length head.nodes
    → (append_buffer head).nodes ≡ head.nodes ++ buffer_node head ∷ []
unfolding append_buffer
nodes-append_buffer head counted = split head.nodes counted
  where
    split :
        (ns : List ResultNode)
        → head.numb_of_nodes ≡ length ns
        → (if head.numb_of_nodes == 0 then buffer_node head ∷ [] else ns ++ buffer_node head ∷ [])
          ≡ ns ++ buffer_node head ∷ []
    split [] e = ground arith
    split (n ∷ ns) e = ground arith

numb_of_nodes-append_buffer :
    (head : HeadResult) → (append_buffer head).numb_of_nodes ≡ head.numb_of_nodes + 1
unfolding append_buffer
numb_of_nodes-append_buffer head = refl

total_size-append_buffer : (head : HeadResult) → (append_buffer head).total_size ≡ head.total_size
unfolding append_buffer
total_size-append_buffer head = refl

-- A buffer that is not empty becomes a node with its rows.
append_buffer_lem :
    (head : HeadResult)
    → IsOpen head
    → head.buff_size ≢ 0
    → All IsFilled (append_buffer head).nodes
      × (rows (append_buffer head) ≡ contents head)
      × ((append_buffer head).numb_of_nodes ≡ length (append_buffer head).nodes)
unfolding buffer_node
append_buffer_lem head v ne =
    let e = nodes-append_buffer head v.counted in
    (
      rw e (All-append IsFilled head.nodes _ v.filled ((v.measured, omega arith, v.bounded), tt)),
      rw e (rw (flat_map-append, take_all head.buff_size (buffer head) v.measured, append-nil)),
      rw (e, numb_of_nodes-append_buffer)
          (omega (arith, v.counted, length-append {0} head.nodes (buffer_node head ∷ []))),
    )

-- Writing behind the rows of the buffer.
buff_tuple-push_buffer :
    (head : HeadResult) (t : RowTuple)
    → IsOpen head
    → Option.map (λ b. store b head.buff_size t) head.buff_tuple ≡ some (buffer head ++ t ∷ [])
buff_tuple-push_buffer head t v =
    ap (Option.map (λ b. store b head.buff_size t)) v.present
    ∙ ap some (store-append (buffer head) head.buff_size t v.measured)

-- A push to an open list appends the row, whether or not the buffer was full, and keeps the list
-- open: its nodes are counted and not empty, the buffer is in bounds, and `totalSize` counts all
-- rows.
pub push_result_ver2-IsOpen :
    (head : HeadResult) (t : RowTuple)
    → IsOpen head
    → IsOpen (push_result_ver2 head t)
      × (contents (push_result_ver2 head t) ≡ contents head ++ t ∷ [])
unfolding push_result_ver2 push_buffer
push_result_ver2-IsOpen head t v = elim (Bool-cases (head.buff_size == max_tuples)) [
  | inl full ↦
      let k = append_buffer_lem head v (ground arith) in
      rw full (
        record {
          counted = k.2;
          filled = k.0;
          present = refl;
          measured = refl;
          bounded = omega arith;
          total = rw k.1 (omega (arith, v.total, length-append {0} (contents head) (t ∷ [])));
        },
        rw k.1,
      )
  | inr room ↦
      let same : rows head ++ (buffer head ++ t ∷ []) ≡ contents head ++ t ∷ [] =
        sym (append_assoc (rows head) (buffer head) (t ∷ [])) in
      rw (room, buff_tuple-push_buffer head t v)
        (
          record {
            counted = v.counted;
            filled = v.filled;
            present = refl;
            measured = omega (arith, v.measured, length-append {0} (buffer head) (t ∷ []));
            bounded = ground arith;
            total = rw same (omega (arith, v.total, length-append {0} (contents head) (t ∷ [])));
          },
          same,
        )
]

nil_of_length {ℓ} : {A : Type ℓ} (xs : List A) → length xs ≡ 0 → xs ≡ []
nil_of_length [] h = refl
nil_of_length (x ∷ xs) h = absurd (omega arith)

-- A finished list without rows has no nodes.
nodes-eq-nil :
    (ns : List ResultNode) → All IsFilled ns → length (flat_map node_rows ns) ≡ 0 → ns ≡ []
nodes-eq-nil [] h e = refl
nodes-eq-nil (n ∷ ns) h e = absurd (
    omega (
      arith,
      h.0.0,
      ap length (take_all n.size n.tuples h.0.0),
      length-append {0} (node_rows n) (flat_map node_rows ns),
    ))

-- Dropping the buffer, or leaving it where there is nothing to drop.
drop_buffer-IsClosed :
    (saved : HeadResult) (b : Bool)
    → IsClosed saved
    → IsClosed (if b then saved else record saved { buff_tuple = none })
      × (rows (if b then saved else record saved { buff_tuple = none }) ≡ rows saved)
drop_buffer-IsClosed saved true c = (c, refl)
drop_buffer-IsClosed saved false c =
    (record { counted = c.counted; filled = c.filled; total = c.total }, refl)

-- Cleaning an open list leaves a finished list: every row that was pushed, in order, is then in the
-- nodes.
pub clean_list_head-IsClosed :
    (head : HeadResult)
    → IsOpen head
    → IsClosed (clean_list_head head) × (rows (clean_list_head head) ≡ contents head)
unfolding clean_list_head
clean_list_head-IsClosed head v = elim (Bool-cases (head.buff_size == 0)) [
  | inl empty ↦
      let none_left : buffer head ≡ [] = nil_of_length (buffer head) (ground (arith, v.measured)) in
      let all_in : contents head ≡ rows head =
        ap (λ (b : List RowTuple). rows head ++ b) none_left ∙ append-nil (rows head) in
      let done =
        drop_buffer-IsClosed head (head.buff_size == 0 && head.numb_of_nodes == 0)
          (record { counted = v.counted; filled = v.filled; total = v.total ∙ ap length all_in }) in
      rw empty (done.0, done.1 ∙ sym all_in)
  | inr some_left ↦
      let k = append_buffer_lem head v (ground arith) in
      let done =
        drop_buffer-IsClosed (append_buffer head)
          ((append_buffer head).buff_size == 0 && (append_buffer head).numb_of_nodes == 0)
          (record {
            counted = k.2;
            filled = k.0;
            total = rw (total_size-append_buffer, k.1) v.total;
          }) in
      rw some_left (done.0, done.1 ∙ k.1)
]

-- Connecting two finished lists gives a finished list with the rows of the second behind those of
-- the first, also when one of them is empty.
pub connect_result_list-IsClosed :
    (final joined : HeadResult)
    → IsClosed final
    → IsClosed joined
    → IsClosed (connect_result_list final joined)
      × (rows (connect_result_list final joined) ≡ rows final ++ rows joined)
unfolding connect_result_list
connect_result_list-IsClosed final joined f j = elim (Bool-cases (joined.total_size == 0)) [
  | inl empty ↦
      let no_nodes = nodes-eq-nil joined.nodes j.filled (ground (arith, j.total)) in
      rw (empty, no_nodes) (f, sym (append-nil (rows final)))
  | inr more ↦
      let joint : (ns : List ResultNode)
          → ns ≡ final.nodes ++ joined.nodes
          → IsClosed (record final {
            nodes = ns;
            total_size = final.total_size + joined.total_size;
            numb_of_nodes = final.numb_of_nodes + joined.numb_of_nodes;
          })
            × (flat_map node_rows ns ≡ rows final ++ rows joined) =
        λ ns e.
          rw (e, flat_map-append)
            (
              record {
                counted =
                    omega (arith, f.counted, j.counted, length-append {0} final.nodes joined.nodes);
                filled = All-append IsFilled final.nodes joined.nodes f.filled j.filled;
                total =
                    rw flat_map-append (
                      omega
                        (arith, f.total, j.total, length-append {0} (rows final) (rows joined)));
              },
              refl,
            ) in
      elim (Bool-cases (final.total_size == 0)) [
        | inl first ↦
            let no_nodes = nodes-eq-nil final.nodes f.filled (ground (arith, f.total)) in
            rw (more, first) (joint joined.nodes (rw no_nodes))
        | inr later ↦ rw (more, later) (joint (final.nodes ++ joined.nodes) refl)
      ]
]

count_nodes_lem :
    (ns : List ResultNode) (total : ℕ)
    → All IsFilled ns
    → count_nodes (length ns) ns total ≡ total + length (flat_map node_rows ns)
unfolding count_nodes
count_nodes_lem [] total h = omega arith
count_nodes_lem (n ∷ ns) total h =
    rw (count_nodes_lem ns (total + n.size) h.1, length-append, take_all n.size n.tuples h.0.0)
      (omega (arith, h.0.0))

-- In a finished list the walk over the nodes counts the rows that `totalSize` keeps.
pub count_size_of_list_lem :
    (head : HeadResult) → IsClosed head → count_size_of_list head ≡ head.total_size
unfolding count_size_of_list
count_size_of_list_lem head v = elim (Bool-cases (head.numb_of_nodes == 0)) [
  | inl empty ↦ rw empty (
      omega (
        arith,
        v.total,
        ap (λ (ns : List ResultNode). length (flat_map node_rows ns))
            (nil_of_length head.nodes (ground (arith, v.counted))),
      ))
  | inr more ↦ rw (more, v.counted) (count_nodes_lem head.nodes 0 v.filled ∙ omega (arith, v.total))
]
