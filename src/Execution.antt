-- ===== src/Execution.antt =====
-- src/I_O_Receiver.c: the execution of a query: its filters, its joins in the order that the optimiser
-- chose, and its sums.
pub mod Filtering
use join_operator_software_d.Prelude.{ℕ, Option, none, some, List, [], ◌∷◌, get_or}
use join_operator_software_d.Structs.{Tuple, Relation}
use join_operator_software_d.Query.{ColRel, Filter, Join}
use join_operator_software_d.Inter.{HeadInter, initialise_head}
use join_operator_software_d.Joint.{worker_f}
use join_operator_software_d.Checksum.{Checksums, perform_checksums}
use join_operator_software_d.Radix.{Warehouses}
use join_operator_software_d.Worker.{worker_j}

pub record Query : Type 0 where
  pub num_of_sums : ℕ
  pub filters : List Filter
  pub joins : List Join
  pub sums : List ColRel
  pub priorities : List (Option ℕ)

abbrev pub no_column : ColRel
no_column = record { real_rel = 0; real_col = 0; rel = 0; num_col = 0; col = []; rows = 0 }

abbrev pub no_join : Join
no_join = record { participant1 = no_column; participant2 = no_column; distinct_vals = 0 }

unfoldable pub perform_filters : List Filter → HeadInter → HeadInter
perform_filters [] hq = hq
perform_filters (pred ∷ preds) hq = perform_filters preds (worker_f pred hq)

module _ (margin : ℕ → ℕ) (fresh : Relation → List Tuple) (order : Relation → List ℕ)
    (schedule : ℕ → List ℕ) where
  -- The loop over `priorities`, where `none` is -1. The intermediates are `none` after a join that
  -- never ends.
  unfoldable pub perform_joins :
      List (Option ℕ) → List Join → Option HeadInter × Warehouses → Option HeadInter × Warehouses
  perform_joins [] joins s = s
  perform_joins (none ∷ priorities) joins s = perform_joins priorities joins s
  perform_joins (some k ∷ priorities) joins s = elim s.0 [
    | none ↦ (none, s.1)
    | some hq ↦
        perform_joins priorities joins
          (worker_j margin fresh order schedule (get_or joins k no_join) hq s.1)
  ]

  -- `words` is what `malloc` leaves for the sums. Without a result a join never ends, or the sums are
  -- read of no intermediate.
  pub execute : List ℕ → Query → Warehouses → Option Checksums × Warehouses
  execute words q w =
      let s =
        perform_joins q.priorities q.joins (some (perform_filters q.filters initialise_head), w) in
      (elim s.0 [ none ↦ none | some hq ↦ perform_checksums words q.sums q.num_of_sums hq ], s.1)
