-- ===== src/Query.antt =====
-- src/queryStructs.h: the predicates of a query.
use join_operator_software_d.Prelude.{ℕ, List}

pub record ColRel : Type 0 where
  pub real_rel : ℕ
  pub real_col : ℕ
  pub rel : ℕ
  pub num_col : ℕ
  pub col : List ℕ
  pub rows : ℕ

-- `Filter` of the source; `op` is a `char`.
pub record Filter : Type 0 where
  pub participant : ColRel
  pub op : ℕ
  pub value : ℕ

pub record Join : Type 0 where
  pub participant1 : ColRel
  pub participant2 : ColRel
  pub distinct_vals : ℕ

abbrev pub less : ℕ
less = 1

abbrev pub equal : ℕ
equal = 3

abbrev pub greater : ℕ
greater = 2
