-- ===== src/Checksum/Totals.antt =====
-- src/checksum.c: the checksum of a column as a total.
use native.Mathlib.Nat.{mod-add-mod}
use join_operator_software_d.Prelude.{
  ℕ, zero, suc, ◌+◌, ◌%◌, ◌≡◌, refl, sym, ap, ◌∙◌, arith, List, [], ◌∷◌, ◌++◌, append_assoc, length,
  length-append, get_or, get_or-append, weigh, add64, u64_mod,
}
use join_operator_software_d.Checksum.{sum_loop, calc_checksum}

-- The total of the values at the row numbers.
abbrev pub total : List ℕ → List ℕ → ℕ
total rel_values = weigh (λ row. get_or rel_values row 0)

sum_loop-total :
    (n i : ℕ) (done todo row_ids rel_values : List ℕ) (sum : ℕ)
    → row_ids ≡ done ++ todo
    → i ≡ length done
    → n ≡ length todo
    → sum_loop n i row_ids rel_values (sum % u64_mod) ≡ (sum + total rel_values todo) % u64_mod
unfolding sum_loop
sum_loop-total zero i done [] row_ids rel_values sum e h k =
    ap (λ (m : ℕ). m % u64_mod) (omega arith)
sum_loop-total (suc n) i done (x ∷ todo) row_ids rel_values sum e h k =
    let here : get_or row_ids i 0 ≡ x =
      ap (λ (r : List ℕ). get_or r i 0) e
      ∙ ap (λ (m : ℕ). get_or (done ++ x ∷ todo) m 0) h
      ∙ get_or-append done x todo 0 in
    let v = get_or rel_values x 0 in
    ap
      (λ (y : ℕ).
        sum_loop n (i + 1) row_ids rel_values (add64 (sum % u64_mod) (get_or rel_values y 0)))
      here
    ∙ ap (sum_loop n (i + 1) row_ids rel_values) (mod-add-mod sum u64_mod v)
    ∙ sum_loop-total n (i + 1) (done ++ x ∷ []) todo row_ids rel_values (sum + v)
        (e ∙ sym (append_assoc done (x ∷ []) todo))
        (omega (arith, h, length-append {0} done (x ∷ []))) (omega (arith, k))
    ∙ ap (λ (m : ℕ). m % u64_mod) (omega arith)
sum_loop-total zero i done (x ∷ todo) row_ids rel_values sum e h k = absurd (omega (arith, k))
sum_loop-total (suc n) i done [] row_ids rel_values sum e h k = absurd (omega (arith, k))

-- The checksum of a column is the total of its values, modulo 2^64, where the column has a row
-- number for each row.
pub calc_checksum-total :
    (int_values : List (List ℕ)) (int_rows int_col : ℕ) (rel_values : List ℕ)
    → length (get_or int_values int_col []) ≡ int_rows
    → calc_checksum int_values int_rows int_col rel_values
      ≡ total rel_values (get_or int_values int_col []) % u64_mod
unfolding calc_checksum
calc_checksum-total int_values int_rows int_col rel_values h =
    let col = get_or int_values int_col [] in
    sum_loop-total int_rows 0 [] col col rel_values 0 refl refl (sym h)
    ∙ ap (λ (m : ℕ). m % u64_mod) (omega arith)
