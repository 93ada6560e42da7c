-- ===== src/Checksum/Sums.antt =====
-- src/checksum.c: the sums as totals over the rows of the intermediate.
use native.Mathlib.Decide.{ℕ_discrete}
use mathlib.Core.Path.{subst}
use join_operator_software_d.Prelude.{
  Option, none, some, ℕ, zero, suc, ◌+◌, ◌%◌, ◌≤◌, ◌<◌, ◌≡◌, ◌≢◌, refl, sym, ap, ◌∙◌, arith, inl,
  inr, Bool-cases, true, false, List, [], ◌∷◌, if◌then◌else◌, ◌==◌, ==_refl, ==_eq_false, ltb,
  ltb_iff, All, length, length-set, get_or, get_or-set_self, get_or-set_ne, u64_mod,
}
use join_operator_software_d.Query.{ColRel}
use join_operator_software_d.Inter.{Inter, HeadInter, no_inter}
use join_operator_software_d.Inter.Updates.{IsTable}
use join_operator_software_d.Joint.{find_col}
use join_operator_software_d.Joint.Places.{IsColumn, find_col-FirstColumn}
use join_operator_software_d.Checksum.{
  Checksums, calc_checksum, write_sum, sums_loop, perform_checksums,
}
use join_operator_software_d.Checksum.Totals.{total, calc_checksum-total}

-- What the inner loop leaves in a word that held `old`, with `n` columns left.
sum_value : HeadInter → ColRel → ℕ → ℕ → ℕ → ℕ
sum_value head sum zero which_rel old = old
sum_value head sum (suc n) which_rel old =
    let it = get_or head.nodes 0 no_inter in
    let rest = sum_value head sum n (which_rel + 1) old in
    if sum.rel == get_or it.joined_rels which_rel 0
    then calc_checksum it.row_ids it.numb_of_rows which_rel sum.col
    else rest

get_or-write_sum :
    (head : HeadInter) (sum : ColRel) (w n which_rel : ℕ) (sums : List ℕ)
    → w < length sums
    → get_or (write_sum head sum w n which_rel sums) w 0
      ≡ sum_value head sum n which_rel (get_or sums w 0)
unfolding write_sum sum_value
get_or-write_sum head sum w zero which_rel sums lt = refl
get_or-write_sum head sum w (suc n) which_rel sums lt =
    let it = get_or head.nodes 0 no_inter in
    elim (Bool-cases (sum.rel == get_or it.joined_rels which_rel 0)) [
      | inl e ↦
          rw e (
            get_or-set_self sums w (calc_checksum it.row_ids it.numb_of_rows which_rel sum.col) 0
              lt)
      | inr e ↦ rw e (get_or-write_sum head sum w n (which_rel + 1) sums lt)
    ]

write_sum_other :
    (head : HeadInter) (sum : ColRel) (w n which_rel : ℕ) (sums : List ℕ)
    → (length (write_sum head sum w n which_rel sums) ≡ length sums)
      × ((k : ℕ) → w ≢ k → get_or (write_sum head sum w n which_rel sums) k 0 ≡ get_or sums k 0)
unfolding write_sum
write_sum_other head sum w zero which_rel sums = (refl, λ k ne. refl)
write_sum_other head sum w (suc n) which_rel sums =
    let it = get_or head.nodes 0 no_inter in
    let v = calc_checksum it.row_ids it.numb_of_rows which_rel sum.col in
    elim (Bool-cases (sum.rel == get_or it.joined_rels which_rel 0)) [
      | inl e ↦ rw e (length-set sums w v, λ k ne. get_or-set_ne sums w k v 0 ne)
      | inr e ↦ rw e (write_sum_other head sum w n (which_rel + 1) sums)
    ]

-- A sum that is asked for nowhere.
abbrev pub no_sum : ColRel
no_sum = record { real_rel = 0; real_col = 0; rel = 0; num_col = 0; col = []; rows = 0 }

sums_loop_earlier :
    (head : HeadInter) (sums : List ColRel) (w : ℕ) (words : List ℕ) (k : ℕ)
    → k < w
    → get_or (sums_loop head sums w words) k 0 ≡ get_or words k 0
unfolding sums_loop
sums_loop_earlier head [] w words k lt = refl
sums_loop_earlier head (sum ∷ rest) w words k lt =
    let n = (get_or head.nodes 0 no_inter).num_of_cols in
    sums_loop_earlier head rest (w + 1) (write_sum head sum w n 0 words) k (omega arith)
    ∙ (write_sum_other head sum w n 0 words).1 k (omega (arith, lt))

get_or-sums_loop :
    (head : HeadInter) (sums : List ColRel) (w : ℕ) (words : List ℕ) (k : ℕ)
    → w + length sums ≤ length words
    → k < length sums
    → get_or (sums_loop head sums w words) (w + k) 0
      ≡ sum_value head
          (get_or sums k no_sum)
          (get_or head.nodes 0 no_inter).num_of_cols
          0
          (get_or words (w + k) 0)
unfolding sums_loop
get_or-sums_loop head [] w words k le lt = absurd (omega (arith, lt))
get_or-sums_loop head (sum ∷ rest) w words zero le lt =
    let n = (get_or head.nodes 0 no_inter).num_of_cols in
    let z : w + 0 ≡ w = omega arith in
    ap (λ (m : ℕ). get_or (sums_loop head rest (w + 1) (write_sum head sum w n 0 words)) m 0) z
    ∙ sums_loop_earlier head rest (w + 1) (write_sum head sum w n 0 words) w (omega arith)
    ∙ get_or-write_sum head sum w n 0 words (omega (arith, le))
    ∙ ap (λ (m : ℕ). sum_value head sum n 0 (get_or words m 0)) (sym z)
get_or-sums_loop head (sum ∷ rest) w words (suc k) le lt =
    let n = (get_or head.nodes 0 no_inter).num_of_cols in
    let z : w + suc k ≡ w + 1 + k = omega arith in
    let other = write_sum_other head sum w n 0 words in
    ap (λ (m : ℕ). get_or (sums_loop head rest (w + 1) (write_sum head sum w n 0 words)) m 0) z
    ∙ get_or-sums_loop head rest (w + 1) (write_sum head sum w n 0 words) k
        (omega (arith, le, other.0)) (omega (arith, lt))
    ∙ ap (sum_value head (get_or rest k no_sum) n 0) (other.1 (w + 1 + k) (omega arith))
    ∙ ap (λ (m : ℕ). sum_value head (get_or rest k no_sum) n 0 (get_or words m 0)) (sym z)

-- What the inner loop leaves is the sum of the first column of the relation, when there is one.
sum_value-find_col :
    (head : HeadInter) (sum : ColRel) (n which_rel old : ℕ)
    → let it = get_or head.nodes 0 no_inter in
      let col = find_col n which_rel it.joined_rels sum.rel in
      (col ≤ which_rel + n)
      × (sum_value head sum n which_rel old ≡ (
          if ltb col (which_rel + n)
          then calc_checksum it.row_ids it.numb_of_rows col sum.col
          else old))
unfolding sum_value find_col
sum_value-find_col head sum zero which_rel old =
    let up : ltb which_rel (which_rel + 0) ≡ false = ground arith in (omega arith, rw up refl)
sum_value-find_col head sum (suc n) which_rel old =
    let it = get_or head.nodes 0 no_inter in
    let r = get_or it.joined_rels which_rel 0 in
    elim (ℕ_discrete r sum.rel) [
      | yes e ↦
          let here : ltb which_rel (which_rel + suc n) ≡ true = ground arith in
          rw (e, ==_refl sum.rel, here) (omega arith, refl)
      | no ne ↦
          let rest = sum_value-find_col head sum n (which_rel + 1) old in
          let col = find_col n (which_rel + 1) it.joined_rels sum.rel in
          let shift : which_rel + 1 + n ≡ which_rel + suc n = omega arith in
          rw (==_eq_false r sum.rel ne, ==_eq_false sum.rel r (λ e. ne (sym e)))
            (
              omega (arith, rest.0),
              rest.1
                  ∙ ap
                      (λ (m : ℕ).
                        if ltb col m
                        then calc_checksum it.row_ids it.numb_of_rows col sum.col
                        else old)
                      shift,
            )
    ]

-- Without a column of the relation nothing is written.
sum_value-Lacks :
    (head : HeadInter) (sum : ColRel) (n which_rel old : ℕ)
    → ((j : ℕ)
        → which_rel ≤ j
        → j < which_rel + n
        → get_or (get_or head.nodes 0 no_inter).joined_rels j 0 ≢ sum.rel)
    → sum_value head sum n which_rel old ≡ old
unfolding sum_value
sum_value-Lacks head sum zero which_rel old lacks = refl
sum_value-Lacks head sum (suc n) which_rel old lacks =
    let ne = lacks which_rel (omega arith) (omega arith) in
    rw
      (==_eq_false sum.rel (get_or (get_or head.nodes 0 no_inter).joined_rels which_rel 0)
        (λ e. ne (sym e)))
      (sum_value-Lacks head sum n (which_rel + 1) old
        (λ j le lt. lacks j (omega (arith, le)) (omega (arith, lt))))

-- Each column of a table has a row number for each row.
All-get_or :
    (m : ℕ) (cols : List (List ℕ)) (i : ℕ)
    → All (λ c. length c ≡ m) cols
    → i < length cols
    → length (get_or cols i []) ≡ m
All-get_or m [] i a lt = absurd (omega (arith, lt))
All-get_or m (c ∷ cols) zero a lt = a.0
All-get_or m (c ∷ cols) (suc i) a lt = All-get_or m cols i a.1 (omega (arith, lt))

-- The word of a sum, by the column of its relation in the intermediate, if there is one.
abbrev pub Word : Inter → ColRel → ℕ → Option ℕ → ℕ → Type 0
Word it sum old none word = word ≡ old
Word it sum old (some col) word = word ≡ total sum.col (get_or it.row_ids col []) % u64_mod

sum_value-Word :
    (head : HeadInter) (sum : ColRel) (old : ℕ) (column : Option ℕ)
    → let it = get_or head.nodes 0 no_inter in
      IsTable it
      → IsColumn it sum.rel column
      → Word it sum old column (sum_value head sum it.num_of_cols 0 old)
sum_value-Word head sum old none v lacks =
    sum_value-Lacks head sum (get_or head.nodes 0 no_inter).num_of_cols 0 old (λ j le lt.
      let it = get_or head.nodes 0 no_inter in
      lacks j (omega (arith, lt)) (omega (arith, lt, v.rels)))
sum_value-Word head sum old (some col) v c =
    let it = get_or head.nodes 0 no_inter in
    let n = it.num_of_cols in
    let zn : 0 + n ≡ n = omega arith in
    let first = find_col-FirstColumn it sum.rel col c in
    let inside : ltb (find_col n 0 it.joined_rels sum.rel) (0 + n) ≡ true =
      (ltb_iff (find_col n 0 it.joined_rels sum.rel) (0 + n)).1 (omega (arith, first, c.within)) in
    (sum_value-find_col head sum n 0 old).1
    ∙ rw (inside, first)
        (calc_checksum-total it.row_ids it.numb_of_rows col sum.col
          (All-get_or it.numb_of_rows it.row_ids col v.even (omega (arith, c.within, v.cols))))

-- For a list that has an intermediate, where the fields of the first one agree, the sums are
-- written. Each sum that is asked for is, when its relation has a column in the first intermediate,
-- the total of the values at the row numbers of that column, modulo 2^64; when it has none, the word
-- keeps what it held.
pub perform_checksums-total :
    (fresh : List ℕ) (sums : List ColRel) (head : HeadInter) (k : ℕ) (column : Option ℕ)
    → 0 < length head.nodes
    → IsTable (get_or head.nodes 0 no_inter)
    → length fresh ≡ length sums
    → k < length sums
    → IsColumn (get_or head.nodes 0 no_inter) (get_or sums k no_sum).rel column
    → (result : Checksums) × (perform_checksums fresh sums (length sums) head ≡ some result)
      × Word
          (get_or head.nodes 0 no_inter)
          (get_or sums k no_sum)
          (get_or fresh k 0)
          column
          (get_or result.checksums k 0)
unfolding perform_checksums
perform_checksums-total fresh sums head k column some_node v full lt is =
    let it = get_or head.nodes 0 no_inter in
    let sum = get_or sums k no_sum in
    let z : 0 + k ≡ k = omega arith in
    let e : sum_value head sum it.num_of_cols 0 (get_or fresh k 0)
        ≡ get_or (sums_loop head sums 0 fresh) k 0 =
      ap (λ (m : ℕ). sum_value head sum it.num_of_cols 0 (get_or fresh m 0)) (sym z)
      ∙ sym (get_or-sums_loop head sums 0 fresh k (omega (arith, full)) lt)
      ∙ ap (λ (m : ℕ). get_or (sums_loop head sums 0 fresh) m 0) z in
    (
      record { checksums = sums_loop head sums 0 fresh; numb_of_checksums = length sums },
      rw (==_eq_false (length head.nodes) 0 (λ q. absurd (omega (arith, q, some_node))))
          (ground arith),
      subst (Word it sum (get_or fresh k 0) column) e
          (sum_value-Word head sum (get_or fresh k 0) column v is),
    )
