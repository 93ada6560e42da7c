-- ===== src/Worker/Rows.antt =====
-- The rows of an intermediate as a list, and what a join of two new relations makes of its result.
use mathlib.Core.List.{map}
use mathlib.Core.Path.{ap₂}
use join_operator_software_d.Prelude.{
  ℕ, suc, ◌+◌, ◌<◌, ◌≡◌, refl, ap, ◌∙◌, arith, List, [], ◌∷◌, length, get_or, weigh,
}
use join_operator_software_d.Structs.{RowTuple, HeadResult}
use join_operator_software_d.ResultList.Contents.{rows, IsClosed}
use join_operator_software_d.Search.Jobs.{count_from}
use join_operator_software_d.Inter.{
  Inter, HeadInter, row_at, push_inter, Filling, each_row, create_result_array,
  create_inter_from_res, first_of_row, second_of_row,
}
use join_operator_software_d.Inter.Columns.{
  columns, row_at-columns, length-columns, each_row-each_res, each_res-columns, push_results, reads,
}
use join_operator_software_d.Inter.Updates.{IsTable, no_row}

-- The rows of an intermediate, from the first to the last.
abbrev pub table_rows : Inter → List (List ℕ)
table_rows it = map (row_at it.row_ids) (count_from 0 it.numb_of_rows)

pub rows_by :
    (ts : List RowTuple) (i : ℕ) (row : ℕ → List ℕ) (g : RowTuple → List ℕ)
    → ((k : ℕ) → k < length ts → row (i + k) ≡ g (get_or ts k no_row))
    → map row (count_from i (length ts)) ≡ map g ts
rows_by [] i row g same = refl
rows_by (t ∷ ts) i row g same =
    let z : i ≡ i + 0 = omega arith in
    ap₂ (λ (r : List ℕ) (rest : List (List ℕ)). r ∷ rest) (ap row z ∙ same 0 (omega arith))
      (rows_by ts (i + 1) row g (λ k lt.
        let move : i + 1 + k ≡ i + suc k = omega arith in
        ap row move ∙ same (suc k) (omega (arith, lt))))

pub weigh-map :
    {A B : Type 0} (f : B → ℕ) (g : A → B) (xs : List A)
    → weigh f (map g xs) ≡ weigh (λ x. f (g x)) xs
weigh-map f g [] = refl
weigh-map f g (x ∷ xs) = ap (λ (m : ℕ). f (g x) + m) (weigh-map f g xs)

-- Two new relations, joined along the result rows.
abbrev pub started : ℕ → ℕ → ℕ → List RowTuple → Inter
started rel1 rel2 switched ts = record {
  num_of_cols = 2;
  numb_of_rows = length ts;
  row_ids = columns reads (first_of_row switched ∷ second_of_row switched ∷ []) ts;
  joined_rels = rel1 ∷ rel2 ∷ [];
}

pub create_inter_from_res_lem :
    (hi : HeadInter) (res : HeadResult) (rel1 rel2 switched : ℕ)
    → IsClosed res
    → let it = started rel1 rel2 switched (rows res) in
      (create_inter_from_res hi res rel1 rel2 switched
        ≡ push_inter hi 2 it.numb_of_rows it.joined_rels it.row_ids)
      × IsTable it
      × ((k : ℕ)
          → k < length (rows res)
          → row_at it.row_ids k
            ≡ first_of_row switched (get_or (rows res) k no_row)
              ∷ second_of_row switched (get_or (rows res) k no_row)
              ∷ [])
unfolding create_inter_from_res create_result_array
create_inter_from_res_lem hi res rel1 rel2 switched c =
    let ds = first_of_row switched ∷ second_of_row switched ∷ [] in
    let len = length-columns reads ds (rows res) in
    let filled : create_result_array res switched ≡ columns reads ds (rows res) =
      ap (λ (n : ℕ). (each_row (push_results reads ds) n res.nodes (columns reads ds [], 0)).0)
        c.counted
      ∙ ap (λ (s : Filling). s.0)
          (each_row-each_res (push_results reads ds) res.nodes (columns reads ds [], 0))
      ∙ each_res-columns reads ds (rows res) [] 0 refl in
    (
      ap₂ (λ (n : ℕ) (cs : List (List ℕ)). push_inter hi 2 n (rel1 ∷ rel2 ∷ []) cs) c.total filled,
      record { cols = refl; rels = refl; even = len.1 },
      λ k lt. row_at-columns reads ds (rows res) k no_row lt,
    )
