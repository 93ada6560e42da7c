-- ===== src/Joint/Keeping.antt =====
-- src/jointPerformer.c: the loop that collects row numbers, with the intermediate that it leaves.
use native.Mathlib.Omega.{arith}
use join_operator_software_d.Prelude.{
  ◌↔◌, ◌≤◌, true, ℕ, ◌≡◌, refl, ap, ◌∙◌, Bool, Option, none, some, List, [], ◌∷◌, length, get_or,
  set, take_all,
}
use join_operator_software_d.Inter.{
  HeadInter, no_inter, update_inter_self_join, create_inter_self_join, push_inter,
}
use join_operator_software_d.Inter.Updates.{IsTable, kept, update_inter_self_join_lem}
use join_operator_software_d.Joint.{keep_where, rows_of_rel}
use join_operator_software_d.Joint.Selection.{
  keep_where_lem, survivors, Selects, survivors-Selects, Chooses, Selects-Chooses,
}
use join_operator_software_d.Joint.Places.{FirstColumn, rows_of_rel-FirstColumn}

-- The node of `hq` at `node` keeps exactly the rows that pass, in their order; the other nodes stay.
pub record Keeps (hq : HeadInter) (node : ℕ) (test : ℕ → Bool) (new : HeadInter) : Type 0 where
  pub rows_kept : List ℕ
  pub selected : Selects (get_or hq.nodes node no_inter).numb_of_rows test rows_kept
  pub updated :
      new ≡ record hq { nodes = set hq.nodes node (kept (get_or hq.nodes node no_inter) rows_kept) }
  pub table : IsTable (kept (get_or hq.nodes node no_inter) rows_kept)

-- A new node behind the others has exactly the rows of the relation that pass, as its one column.
pub record Starts (hq : HeadInter) (rel rows : ℕ) (test : ℕ → Bool) (new : HeadInter) : Type 0 where
  pub rows_kept : List ℕ
  pub selected : Selects rows test rows_kept
  pub pushed : new ≡ push_inter hq 1 (length rows_kept) (rel ∷ []) (rows_kept ∷ [])

-- The same, with the rows that have a property.
pub record KeepsRows (hq : HeadInter) (node : ℕ) (P : ℕ → Type 0) (new : HeadInter) : Type 0 where
  pub rows_kept : List ℕ
  pub chosen : Chooses (get_or hq.nodes node no_inter).numb_of_rows P rows_kept
  pub updated :
      new ≡ record hq { nodes = set hq.nodes node (kept (get_or hq.nodes node no_inter) rows_kept) }
  pub table : IsTable (kept (get_or hq.nodes node no_inter) rows_kept)

-- A new node behind the others has exactly the rows of the relation with the property, as its one
-- column.
pub record StartsRows (hq : HeadInter) (rel rows : ℕ) (P : ℕ → Type 0) (new : HeadInter)
    : Type 0 where
  pub rows_kept : List ℕ
  pub chosen : Chooses rows P rows_kept
  pub pushed : new ≡ push_inter hq 1 (length rows_kept) (rel ∷ []) (rows_kept ∷ [])

-- The intermediate where the relation stands, if any, is a table, and has no more rows than fit the
-- buffer that is allocated, which has an entry for each row of the relation.
abbrev pub FitsAt : HeadInter → Option (ℕ × ℕ) → ℕ → Type 0
FitsAt hq none rows = Unit
FitsAt hq (some (node, col)) rows =
    IsTable (get_or hq.nodes node no_inter) × ((get_or hq.nodes node no_inter).numb_of_rows ≤ rows)

-- What a property of the rows of a relation leaves: a new node, or the node where the relation
-- stands with fewer rows.
abbrev pub Leaves : HeadInter → Option (ℕ × ℕ) → ℕ → ℕ → (ℕ → Type 0) → HeadInter → Type 0
Leaves hq none rel rows P new = StartsRows hq rel rows P new
Leaves hq (some (node, col)) rel rows P new =
    KeepsRows hq node (λ i. P (get_or (get_or (get_or hq.nodes node no_inter).row_ids col []) i 0))
      new

pub keep_where-Keeps :
    (hq : HeadInter) (node size : ℕ) (test : ℕ → Bool)
    → IsTable (get_or hq.nodes node no_inter)
    → (get_or hq.nodes node no_inter).numb_of_rows ≤ size
    → let s = keep_where size test (get_or hq.nodes node no_inter).numb_of_rows 0 ([], 0) in
      Keeps hq node test (update_inter_self_join hq node s.0 s.1)
keep_where-Keeps hq node size test v room =
    let it = get_or hq.nodes node no_inter in
    let ks = survivors test 0 it.numb_of_rows in
    let lem = update_inter_self_join_lem hq node ks v in
    record {
      rows_kept = ks;
      selected = survivors-Selects test it.numb_of_rows;
      updated =
          ap (λ (s : List ℕ × ℕ). update_inter_self_join hq node s.0 s.1)
            (keep_where_lem size test it.numb_of_rows room)
          ∙ lem.0;
      table = lem.1;
    }

keep_where-Starts :
    (hq : HeadInter) (rel rows : ℕ) (test : ℕ → Bool)
    → let s = keep_where rows test rows 0 ([], 0) in
      Starts hq rel rows test (create_inter_self_join hq rel s.0 s.1)
unfolding create_inter_self_join
keep_where-Starts hq rel rows test =
    let ks = survivors test 0 rows in
    record {
      rows_kept = ks;
      selected = survivors-Selects test rows;
      pushed =
          ap (λ (s : List ℕ × ℕ). create_inter_self_join hq rel s.0 s.1)
            (keep_where_lem rows test rows (omega arith))
          ∙ ap (λ (c : List ℕ). push_inter hq 1 (length ks) (rel ∷ []) (c ∷ []))
              (take_all (length ks) ks refl);
    }

-- The loop over the rows of the intermediate where the relation stands.
pub keep_where-KeepsRows :
    (hq : HeadInter) (rel node col size : ℕ) (test : ℕ → Bool) (P : ℕ → Type 0)
    → ((j : ℕ) → (test j ≡ true) ↔ P j)
    → FirstColumn (get_or hq.nodes node no_inter) rel col
    → FitsAt hq (some (node, col)) size
    → let it = get_or hq.nodes node no_inter in
      let s =
        keep_where size (λ i. test (get_or (rows_of_rel it rel) i 0)) it.numb_of_rows 0 ([], 0) in
      KeepsRows hq node
        (λ i. P (get_or (get_or it.row_ids col []) i 0))
        (update_inter_self_join hq node s.0 s.1)
keep_where-KeepsRows hq rel node col size test P same c fits =
    let it = get_or hq.nodes node no_inter in
    rw (rows_of_rel-FirstColumn it rel col c) (
      let at = λ (i : ℕ). get_or (get_or it.row_ids col []) i 0 in
      let done = keep_where-Keeps hq node size (λ i. test (at i)) fits.0 fits.1 in
      record {
        rows_kept = done.rows_kept;
        chosen =
            Selects-Chooses it.numb_of_rows (λ i. test (at i)) (λ i. P (at i)) done.rows_kept
              (λ i. same (at i)) done.selected;
        updated = done.updated;
        table = done.table;
      })

-- The loop over the rows of a relation that stands nowhere.
pub keep_where-StartsRows :
    (hq : HeadInter) (rel rows : ℕ) (test : ℕ → Bool) (P : ℕ → Type 0)
    → ((j : ℕ) → (test j ≡ true) ↔ P j)
    → let s = keep_where rows test rows 0 ([], 0) in
      StartsRows hq rel rows P (create_inter_self_join hq rel s.0 s.1)
keep_where-StartsRows hq rel rows test P same =
    let done = keep_where-Starts hq rel rows test in
    record {
      rows_kept = done.rows_kept;
      chosen = Selects-Chooses rows test P done.rows_kept same done.selected;
      pushed = done.pushed;
    }
