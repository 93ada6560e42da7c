-- ===== src/Warehouse/Fetches.antt =====
-- src/functions.c: what is added to a warehouse is what is fetched from it.
use join_operator_software_d.Prelude.{
  ℕ, ◌<◌, ◌≡◌, ◌≢◌, refl, ap, ◌∙◌, inl, inr, Bool-cases, Option, none, some, List, [], ◌∷◌, ◌++◌,
  if◌then◌else◌, ◌==◌, ==_refl, ==_eq_false, ◌&&◌, length, get_or, get_or-set_self, set,
}
use join_operator_software_d.Structs.{IndexArray, ReorderedR, first_reordered}
use join_operator_software_d.Warehouse.{
  IndexWare, ReWare, ReWarehouse, fetch_from_index_warehouse, fetch_loop, fetch_from_re_warehouse,
  add_to_index_warehouse, add_to_re_warehouse,
}

-- What is fetched once something is added: what was there before, if it was, else what was added.
abbrev pub first_of {ℓ} : {A : Type ℓ} → Option A → A → Option A
first_of none a = some a
first_of (some b) a = some b

-- After an index of a column is added, fetching an index of the column gives the one that was there
-- before, when there was one, and otherwise the added one, with its number of bits; what is fetched
-- for another column stays.
pub fetch_from_index_warehouse-add :
    (ws : List IndexWare) (rel col hash1 : ℕ) (indexes : IndexArray) (rel2 col2 : ℕ)
    → fetch_from_index_warehouse (add_to_index_warehouse ws rel col hash1 indexes) rel2 col2 ≡ (
        if rel == rel2 && col == col2
        then first_of (fetch_from_index_warehouse ws rel2 col2) (indexes, hash1)
        else fetch_from_index_warehouse ws rel2 col2)
unfolding fetch_from_index_warehouse add_to_index_warehouse
fetch_from_index_warehouse-add [] rel col hash1 indexes rel2 col2 = refl
fetch_from_index_warehouse-add (w ∷ ws) rel col hash1 indexes rel2 col2 =
    elim (Bool-cases (w.rel == rel2 && w.col == col2)) [
      | inl e ↦
          rw e (elim (Bool-cases (rel == rel2 && col == col2)) [
            | inl f ↦ rw f refl
            | inr f ↦ rw f refl
          ])
      | inr e ↦ rw e (fetch_from_index_warehouse-add ws rel col hash1 indexes rel2 col2)
    ]

fetch_loop-append :
    (ws : List ReWare) (rel col hash1 : ℕ) (array : ReorderedR)
    → fetch_loop
        (ws ++ record { rel = rel; col = col; hash1 = hash1; array = array } ∷ [])
        rel
        col
        hash1
      ≡ first_of (fetch_loop ws rel col hash1) array
fetch_loop-append [] rel col hash1 array = rw (==_refl rel, ==_refl col, ==_refl hash1) refl
fetch_loop-append (w ∷ ws) rel col hash1 array =
    elim (Bool-cases (w.rel == rel && (w.col == col && w.hash1 == hash1))) [
      | inl e ↦ rw e refl
      | inr e ↦ rw e (fetch_loop-append ws rel col hash1 array)
    ]

-- After a reordered relation is added as the best one of a column of the database, asking for the
-- best one gives it, and asking for its own number of bits, when that is not the mark for the best
-- one, gives the one that was there before, when there was one, and otherwise the added one.
pub fetch_from_re_warehouse-add :
    (w : ReWarehouse) (rel col hash1 : ℕ) (array : ReorderedR)
    → rel < length w.best_hash_values
    → col < length (get_or w.best_hash_values rel [])
    → hash1 ≢ first_reordered
    → let new = add_to_re_warehouse w rel col hash1 array 1 in
      (fetch_from_re_warehouse new rel col first_reordered ≡ some array)
      × (fetch_from_re_warehouse new rel col hash1
          ≡ first_of (fetch_from_re_warehouse w rel col hash1) array)
unfolding fetch_from_re_warehouse add_to_re_warehouse
fetch_from_re_warehouse-add w rel col hash1 array rel_lt col_lt ne =
    let of_rel = get_or w.best_hash_values rel [] in
    (
      ap (λ (cs : List (Option ReorderedR)). get_or cs col none)
            (get_or-set_self w.best_hash_values rel (set of_rel col (some array)) [] rel_lt)
          ∙ get_or-set_self of_rel col (some array) none col_lt,
      rw (==_eq_false hash1 first_reordered ne) (fetch_loop-append w.wares rel col hash1 array),
    )
