-- ===== src/ResultList.antt =====
-- src/resultListManip.c and `connectResultList` of src/chainFollower.c: the list of result rows,
-- whose head keeps a buffer that becomes a node when it is full.
pub mod Contents
use mathlib.Core.Option
use join_operator_software_d.Prelude.{
  ℕ, zero, suc, ◌+◌, ◌-◌, ◌/◌, Bool, true, false, ◌&&◌, ◌||◌, Option, none, some, List, [], ◌∷◌,
  ◌++◌, ◌==◌, if◌then◌else◌, store, take,
}
use join_operator_software_d.Structs.{RowTuple, ResultNode, HeadResult, sizeof_tuple}

abbrev pub mb : ℕ
mb = 128000

-- `MB / sizeof(tuple)`
abbrev pub max_tuples : ℕ
max_tuples = mb / sizeof_tuple

pub initialise_result_head : HeadResult
initialise_result_head = record {
  nodes = [];
  numb_of_nodes = 0;
  total_size = 0;
  buff_tuple = some [];
  buff_size = 0;
}

pub initialise_result_head_no_buff : HeadResult
initialise_result_head_no_buff = record {
  nodes = [];
  numb_of_nodes = 0;
  total_size = 0;
  buff_tuple = none;
  buff_size = 0;
}

-- `buffTuple[buffSize] = t; buffSize += 1`. A write through `NULL` leaves `NULL`.
push_buffer : HeadResult → RowTuple → HeadResult
push_buffer head t = record head {
  buff_tuple = Option.map (λ b. store b head.buff_size t) head.buff_tuple;
  buff_size = head.buff_size + 1;
}

-- The buffer as a node behind `tail`, or as the first node.
buffer_node : HeadResult → ResultNode
buffer_node head = record { tuples = Option.get_or head.buff_tuple []; size = head.buff_size }

append_buffer : HeadResult → HeadResult
append_buffer head = record head {
  nodes =
      if head.numb_of_nodes == 0
      then buffer_node head ∷ []
      else head.nodes ++ buffer_node head ∷ [];
  numb_of_nodes = head.numb_of_nodes + 1;
}

pub push_result_ver2 : HeadResult → RowTuple → HeadResult
push_result_ver2 head t =
    let pushed =
      if head.buff_size == max_tuples
      then push_buffer (record (append_buffer head) { buff_tuple = some []; buff_size = 0 }) t
      else push_buffer head t in
    record pushed { total_size = head.total_size + 1 }

-- The buffer that is not yet full becomes the last node. `buffSize` stays as it is.
pub clean_list_head : HeadResult → HeadResult
clean_list_head head =
    let saved = if head.buff_size == 0 then head else append_buffer head in
    if saved.buff_size == 0 && saved.numb_of_nodes == 0
    then saved
    else record saved { buff_tuple = none }

pub connect_result_list : HeadResult → HeadResult → HeadResult
connect_result_list final joined = if joined.total_size == 0 then final else record final {
  nodes = if final.total_size == 0 then joined.nodes else final.nodes ++ joined.nodes;
  total_size = final.total_size + joined.total_size;
  numb_of_nodes = final.numb_of_nodes + joined.numb_of_nodes;
}

-- The loop over `numb_of_nodes` nodes.
count_nodes : ℕ → List ResultNode → ℕ → ℕ
count_nodes zero ns total = total
count_nodes (suc n) [] total = total
count_nodes (suc n) (x ∷ ns) total = count_nodes n ns (total + x.size)

pub count_size_of_list : HeadResult → ℕ
unfolding count_nodes
count_size_of_list head =
    if head.numb_of_nodes == 0 then 0 else count_nodes head.numb_of_nodes head.nodes 0
