-- ===== src/Worker/Holding.antt =====
-- src/jointPerformer.c: an intermediate that holds the rows of a join, read off the result list.
use mathlib.Core.List.{map}
use join_operator_software_d.Prelude.{
  ℕ, ◌<◌, ◌≡◌, sym, ap, ◌∙◌, arith, List, length, get_or, weigh, SameBag,
}
use join_operator_software_d.Structs.{RowTuple, HeadResult}
use join_operator_software_d.ResultList.Contents.{rows}
use join_operator_software_d.Search.Chain.{join_rows}
use join_operator_software_d.Search.Jobs.{count_from}
use join_operator_software_d.Search.Result.{Lists}
use join_operator_software_d.Inter.{Inter, row_at, first_of_row, second_of_row}
use join_operator_software_d.Inter.Updates.{IsTable, no_row}
use join_operator_software_d.Radix.{ColumnRelation}
use join_operator_software_d.Radix.Plans.{left_of, right_of}
use join_operator_software_d.Worker.Matches.{matches, row_weight, weigh-joined}
use join_operator_software_d.Worker.Rows.{table_rows, rows_by, weigh-map}

-- An intermediate whose fields agree and whose rows are those of `spec`, in some order.
pub record Holds (spec : List (List ℕ)) (it : Inter) : Type 0 where
  pub table : IsTable it
  pub same : SameBag (table_rows it) spec

-- The pairs of numbers, each made a row.
abbrev pub made : (ℕ → ℕ → List ℕ) → List (ℕ × ℕ) → List (List ℕ)
made h ps = map (λ p. h p.0 p.1) ps

-- A table with a row for each row of a result list.
pub table-Holds :
    (h : ℕ → ℕ → List ℕ) (switched : ℕ) (r s : ColumnRelation) (list : HeadResult) (it : Inter)
    → Lists
        (join_rows (left_of switched r s).relation.tuples (right_of switched r s).relation.tuples)
        list
    → IsTable it
    → it.numb_of_rows ≡ length (rows list)
    → ((k : ℕ)
        → k < length (rows list)
        → row_at it.row_ids k
          ≡ h
              (first_of_row switched (get_or (rows list) k no_row))
              (second_of_row switched (get_or (rows list) k no_row)))
    → Holds (made h (matches r.relation.tuples s.relation.tuples)) it
table-Holds h switched r s list it lists table count at =
    let row = λ (t : RowTuple). h (first_of_row switched t) (second_of_row switched t) in
    record {
      table = table;
      same = λ f.
          let g = λ (a b : ℕ). f (h a b) in
          ap (λ (n : ℕ). weigh f (map (row_at it.row_ids) (count_from 0 n))) count
          ∙ ap (weigh f) (
              rows_by (rows list) 0 (row_at it.row_ids) row
                (λ k lt. ap (row_at it.row_ids) (omega arith) ∙ at k lt))
          ∙ weigh-map f row (rows list)
          ∙ lists.same (row_weight g switched)
          ∙ weigh-joined g switched r s
          ∙ sym (
              weigh-map f (λ (p : ℕ × ℕ). h p.0 p.1) (matches r.relation.tuples s.relation.tuples));
    }
