-- ===== src/Warehouse.antt =====
-- src/functions.c: the warehouses, which keep each index and each reordered relation for later joins.
-- The parallel arrays of a warehouse are one list of rows.
pub mod Fetches
use join_operator_software_d.Prelude.{
  ℕ, suc, ◌+◌, Option, none, some, List, [], ◌∷◌, ◌++◌, if◌then◌else◌, ◌==◌, ◌&&◌, get_or, set,
  replicate,
}
use join_operator_software_d.Structs.{IndexArray, ReorderedR, first_reordered}

pub record IndexWare : Type 0 where
  pub rel : ℕ
  pub col : ℕ
  pub hash1 : ℕ
  pub indexes : IndexArray

pub record ReWare : Type 0 where
  pub rel : ℕ
  pub col : ℕ
  pub hash1 : ℕ
  pub array : ReorderedR

-- `bestHashValues[rel][col]`, with `none` for `NULL`.
pub record ReWarehouse : Type 0 where
  pub wares : List ReWare
  pub best_hash_values : List (List (Option ReorderedR))

-- An entry for each column of each relation; `cols` are their numbers.
abbrev pub no_best : List ℕ → List (List (Option ReorderedR))
no_best [] = []
no_best (c ∷ cols) = replicate c none ∷ no_best cols

unfoldable pub initialise_warehouses : List ℕ → List IndexWare × ReWarehouse
initialise_warehouses cols = ([], record { wares = []; best_hash_values = no_best cols })

-- The first index of the column, with its `hash1`, which the source stores through a pointer.
unfoldable pub fetch_from_index_warehouse : List IndexWare → ℕ → ℕ → Option (IndexArray × ℕ)
fetch_from_index_warehouse [] rel col = none
fetch_from_index_warehouse (w ∷ ws) rel col =
    let rest = fetch_from_index_warehouse ws rel col in
    if w.rel == rel && w.col == col then some (w.indexes, w.hash1) else rest

abbrev pub fetch_loop : List ReWare → ℕ → ℕ → ℕ → Option ReorderedR
fetch_loop [] rel col hash1 = none
fetch_loop (w ∷ ws) rel col hash1 =
    let rest = fetch_loop ws rel col hash1 in
    if w.rel == rel && (w.col == col && w.hash1 == hash1) then some w.array else rest

unfoldable pub fetch_from_re_warehouse : ReWarehouse → ℕ → ℕ → ℕ → Option ReorderedR
fetch_from_re_warehouse w rel col hash1 =
    if hash1 == first_reordered
    then get_or (get_or w.best_hash_values rel []) col none
    else fetch_loop w.wares rel col hash1

unfoldable pub add_to_index_warehouse : List IndexWare → ℕ → ℕ → ℕ → IndexArray → List IndexWare
add_to_index_warehouse ws rel col hash1 indexes =
    ws ++ record { rel = rel; col = col; hash1 = hash1; indexes = indexes } ∷ []

unfoldable pub add_to_re_warehouse : ReWarehouse → ℕ → ℕ → ℕ → ReorderedR → ℕ → ReWarehouse
add_to_re_warehouse w rel col hash1 array best =
    let of_rel = get_or w.best_hash_values rel [] in
    record {
      wares = w.wares ++ record { rel = rel; col = col; hash1 = hash1; array = array } ∷ [];
      best_hash_values =
          if best == 0
          then w.best_hash_values
          else set w.best_hash_values rel (set of_rel col (some array));
    }
