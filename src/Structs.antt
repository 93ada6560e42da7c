-- ===== src/Structs.antt =====
-- src/basicStructs.h: tuples, relations, the reordered relation, the index and the result list.
use join_operator_software_d.Prelude.{ℕ, ◌*◌, ◌/◌, ◌^◌, List, Option}

-- `CACHE_SIZE` is `2 << 15`; `AVAILABLE_CACHE_SIZE` divides in integers.
abbrev pub cache_size : ℕ
cache_size = 2 * 2 ^ 15

abbrev pub available_cache_size : ℕ
available_cache_size = cache_size * 20 / 21

abbrev pub first_reordered : ℕ
first_reordered = 100

-- `sizeof(tuple)` and `sizeof(myint_t)`.
abbrev pub sizeof_tuple : ℕ
sizeof_tuple = 16

abbrev pub sizeof_myint : ℕ
sizeof_myint = 8

pub record Tuple : Type 0 where
  pub key : ℕ
  pub payload : ℕ

-- Without `realRel` and `realCol`, the place in the database. `tuples` points at `size` tuples, perhaps inside a longer array: the list goes on to its end.
pub record Relation : Type 0 where
  pub tuples : List Tuple
  pub size : ℕ

pub record PSumTuple : Type 0 where
  pub h1_res : ℕ
  pub offset : ℕ

pub record PSumArray : Type 0 where
  pub psum : List PSumTuple
  pub psum_size : ℕ

pub record ReorderedR : Type 0 where
  pub p_sum_arr : PSumArray
  pub rel : Relation

-- One `relationIndex` without its `next` pointer: a list of nodes is the chain of `next` pointers,
-- and `rel` is `none` for `NULL`.
pub record RelationIndex : Type 0 where
  pub chain : List ℕ
  pub buckets : List ℕ
  pub rel : Option Relation
  pub key : ℕ
  pub hash2 : ℕ

-- Each entry is the head node with the nodes that its `next` pointers reach.
pub record IndexArray : Type 0 where
  pub indexes : List (RelationIndex × List RelationIndex)
  pub size : ℕ

pub record RowTuple : Type 0 where
  pub row_r : ℕ
  pub row_s : ℕ

pub record ResultNode : Type 0 where
  pub tuples : List RowTuple
  pub size : ℕ

-- `nodes` is the list from `firstNode` on, and `tail` points at its last node. A buffer holds the
-- rows written so far; `none` is `NULL`.
pub record HeadResult : Type 0 where
  pub nodes : List ResultNode
  pub numb_of_nodes : ℕ
  pub total_size : ℕ
  pub buff_tuple : Option (List RowTuple)
  pub buff_size : ℕ
