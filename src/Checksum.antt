-- ===== src/Checksum.antt =====
-- src/checksum.c: the sums of the columns that a query asks for, over the rows of the last
-- intermediate, in 64-bit words.
pub mod Totals
pub mod Sums
use join_operator_software_d.Prelude.{
  Option, none, some, ltb, ◌&&◌, length, ℕ, zero, suc, ◌+◌, List, [], ◌∷◌, if◌then◌else◌, ◌==◌,
  add64, get_or, set, replicate,
}
use join_operator_software_d.Query.{ColRel}
use join_operator_software_d.Inter.{HeadInter, no_inter}

pub record Checksums : Type 0 where
  pub checksums : List ℕ
  pub numb_of_checksums : ℕ

-- `for (; whichRow < intRows; whichRow++) sum += relValues[intValues[intCol][whichRow]];`, with `n`
-- rounds left.
pub sum_loop : ℕ → ℕ → List ℕ → List ℕ → ℕ → ℕ
sum_loop zero which_row row_ids rel_values sum = sum
sum_loop (suc n) which_row row_ids rel_values sum =
    sum_loop n (which_row + 1) row_ids rel_values
      (add64 sum (get_or rel_values (get_or row_ids which_row 0) 0))

pub calc_checksum : List (List ℕ) → ℕ → ℕ → List ℕ → ℕ
calc_checksum int_values int_rows int_col rel_values =
    sum_loop int_rows 0 (get_or int_values int_col []) rel_values 0

-- The inner loop: the first column of the relation writes its sum, and without one the word keeps
-- what `malloc` left in it.
pub write_sum : HeadInter → ColRel → ℕ → ℕ → ℕ → List ℕ → List ℕ
write_sum head sum which_sum zero which_rel sums = sums
write_sum head sum which_sum (suc n) which_rel sums =
    let it = get_or head.nodes 0 no_inter in
    let rest = write_sum head sum which_sum n (which_rel + 1) sums in
    if sum.rel == get_or it.joined_rels which_rel 0
    then set sums which_sum (calc_checksum it.row_ids it.numb_of_rows which_rel sum.col)
    else rest

pub sums_loop : HeadInter → List ColRel → ℕ → List ℕ → List ℕ
sums_loop head [] which_sum sums = sums
sums_loop head (sum ∷ rest) which_sum sums =
    sums_loop head rest (which_sum + 1)
      (write_sum head sum which_sum (get_or head.nodes 0 no_inter).num_of_cols 0 sums)

-- `fresh` is what `malloc` leaves in the words. `none` is the read through `start` of a list without
-- intermediates, which is `NULL`.
pub perform_checksums : List ℕ → List ColRel → ℕ → HeadInter → Option Checksums
perform_checksums fresh sums numb_of_sums head =
    if ltb 0 numb_of_sums && length head.nodes == 0
    then none
    else some (record { checksums = sums_loop head sums 0 fresh; numb_of_checksums = numb_of_sums })
