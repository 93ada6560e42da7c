-- ===== src/Inter/Columns.antt =====
-- The loops that fill the columns of an intermediate: each column ends as the list of its entry for
-- every row, in order.
use mathlib.Core.List.{map}
use mathlib.Core.Path.{ap₂}
use join_operator_software_d.Prelude.{
  ℕ, zero, suc, ◌+◌, ◌<◌, ◌≡◌, refl, sym, ap, ◌∙◌, arith, List, [], ◌∷◌, ◌++◌, append-nil,
  append_assoc, length, length-append, get_or, store-append, take_all, replicate, flat_map, All,
}
use join_operator_software_d.Structs.{RowTuple, ResultNode}
use join_operator_software_d.ResultList.Contents.{node_rows, IsFilled}
use join_operator_software_d.Inter.{
  each_res, each_row, first_of_row, second_of_row, push_row, row_at, Filling, fill_col, update_cols,
  update_row_ids_loop, keep_rows,
}

each_res-append :
    {S : Type 0} (body : S → RowTuple → S) (a b : List RowTuple) (s : S)
    → each_res body b (each_res body a s) ≡ each_res body (a ++ b) s
unfolding each_res
each_res-append body [] b s = refl
each_res-append body (t ∷ a) b s = each_res-append body a b (body s t)

-- The two loops are one loop over the rows of the list.
pub each_row-each_res :
    {S : Type 0} (body : S → RowTuple → S) (ns : List ResultNode) (s : S)
    → each_row body (length ns) ns s ≡ each_res body (flat_map node_rows ns) s
unfolding each_row each_res
each_row-each_res body [] s = refl
each_row-each_res body (n ∷ ns) s =
    each_row-each_res body ns (each_res body (node_rows n) s)
    ∙ each_res-append body (node_rows n) (flat_map node_rows ns) s

module _ {D E : Type 0} (f : D → E → ℕ) where
  -- The column of each `d` holds its entry for every row of the list.
  abbrev pub columns : List D → List E → List (List ℕ)
  columns ds es = map (λ d. map (f d) es) ds

pub length-map {ℓ κ} :
    {A : Type ℓ} {B : Type κ} (f : A → B) (xs : List A) → length (map f xs) ≡ length xs
length-map f [] = refl
length-map f (x ∷ xs) = ap suc (length-map f xs)

pub map_append {ℓ κ} :
    {A : Type ℓ} {B : Type κ} (f : A → B) (xs ys : List A) → map f (xs ++ ys) ≡ map f xs ++ map f ys
map_append f [] ys = refl
map_append f (x ∷ xs) ys = ap (λ r. f x ∷ r) (map_append f xs ys)

pub push_row-columns :
    {D E : Type 0} (f : D → E → ℕ) (ds : List D) (es : List E) (e : E) (counter : ℕ)
    → counter ≡ length es
    → push_row (columns f ds es) counter (map (λ d. f d e) ds) ≡ columns f ds (es ++ e ∷ [])
unfolding push_row
push_row-columns f [] es e counter h = refl
push_row-columns f (d ∷ ds) es e counter h =
    ap₂ ◌∷◌
      (store-append (map (f d) es) counter (f d e) (h ∙ sym (length-map (f d) es))
        ∙ sym (map_append (f d) es (e ∷ [])))
      (push_row-columns f ds es e counter h)

abbrev pub col_at : List ℕ → ℕ → ℕ
col_at c k = get_or c k 0

pub columns-nil :
    {D E : Type 0} (f : D → E → ℕ) (ds : List D) (n : ℕ)
    → n ≡ length ds
    → replicate n [] ≡ columns f ds []
columns-nil f [] zero h = refl
columns-nil f [] (suc n) h = absurd (omega arith)
columns-nil f (d ∷ ds) zero h = absurd (omega arith)
columns-nil f (d ∷ ds) (suc n) h = ap (λ r. [] ∷ r) (columns-nil f ds n (omega arith))

-- Keeping rows: the new columns are the old ones at the kept rows.
pub keep_rows-columns :
    (cols : List (List ℕ)) (ks before : List ℕ) (counter : ℕ)
    → counter ≡ length before
    → (keep_rows cols ks (columns col_at cols before, counter)).0
      ≡ columns col_at cols (before ++ ks)
unfolding keep_rows row_at
keep_rows-columns cols [] before counter h = rw append-nil
keep_rows-columns cols (k ∷ ks) before counter h =
    ap (λ (cs : List (List ℕ)). (keep_rows cols ks (cs, counter + 1)).0)
      (push_row-columns col_at cols before k counter h)
    ∙ keep_rows-columns cols ks (before ++ k ∷ []) (counter + 1)
        (omega (arith, length-append {0} before (k ∷ [])))
    ∙ ap (columns col_at cols) (append_assoc before (k ∷ []) ks)

-- The body that pushes one row for a result.
abbrev pub push_results : {D : Type 0} → (D → RowTuple → ℕ) → List D → Filling → RowTuple → Filling
push_results f ds s t = (push_row s.0 s.1 (map (λ d. f d t) ds), s.1 + 1)

-- A loop that pushes one row for each result.
pub each_res-columns :
    {D : Type 0} (f : D → RowTuple → ℕ) (ds : List D) (ts before : List RowTuple) (counter : ℕ)
    → counter ≡ length before
    → (each_res (push_results f ds) ts (columns f ds before, counter)).0
      ≡ columns f ds (before ++ ts)
unfolding each_res
each_res-columns f ds [] before counter h = rw append-nil
each_res-columns f ds (t ∷ ts) before counter h =
    ap (λ (cs : List (List ℕ)). (each_res (push_results f ds) ts (cs, counter + 1)).0)
      (push_row-columns f ds before t counter h)
    ∙ each_res-columns f ds ts (before ++ t ∷ []) (counter + 1)
        (omega (arith, length-append {0} before (t ∷ [])))
    ∙ ap (columns f ds) (append_assoc before (t ∷ []) ts)

fill_col-append :
    (f : RowTuple → ℕ) (ts : List RowTuple) (i : ℕ) (col : List ℕ)
    → i ≡ length col
    → fill_col f ts i col ≡ col ++ map f ts
unfolding fill_col
fill_col-append f [] i col h = sym (append-nil col)
fill_col-append f (t ∷ ts) i col h =
    rw
      (
        store-append col i (f t) h,
        fill_col-append f ts (i + 1) (col ++ f t ∷ [])
            (omega (arith, length-append {0} col (f t ∷ []))),
      )
      (append_assoc col (f t ∷ []) (map f ts))

-- The columns of an intermediate with a new one behind them: what each takes from a result row.
abbrev pub readers : ℕ → List (List ℕ) → List (RowTuple → ℕ)
readers switched [] = second_of_row switched ∷ []
readers switched (c ∷ cols) = (λ t. get_or c (first_of_row switched t) 0) ∷ readers switched cols

abbrev pub reads : (RowTuple → ℕ) → RowTuple → ℕ
reads g t = g t

update_cols-columns :
    (switched : ℕ) (cols : List (List ℕ)) (ts before : List RowTuple) (base : ℕ)
    → base ≡ length before
    → update_cols switched cols ts base (columns reads (readers switched cols) before)
      ≡ columns reads (readers switched cols) (before ++ ts)
unfolding update_cols
update_cols-columns switched [] ts before base h =
    let f = second_of_row switched in
    ap (λ (c : List ℕ). c ∷ [])
      (fill_col-append f ts base (map f before) (h ∙ sym (length-map f before))
        ∙ sym (map_append f before ts))
update_cols-columns switched (c ∷ cols) ts before base h =
    let f : RowTuple → ℕ = λ t. get_or c (first_of_row switched t) 0 in
    ap₂ ◌∷◌
      (fill_col-append f ts base (map f before) (h ∙ sym (length-map f before))
        ∙ sym (map_append f before ts))
      (update_cols-columns switched cols ts before base h)

-- The loop over the nodes, column by column, fills each column with its entry for every result row.
pub update_row_ids_loop-columns :
    (switched : ℕ) (cols : List (List ℕ)) (ns : List ResultNode) (before : List RowTuple) (base : ℕ)
    → All IsFilled ns
    → base ≡ length before
    → update_row_ids_loop
        (length ns)
        switched
        cols
        ns
        base
        (columns reads (readers switched cols) before)
      ≡ columns reads (readers switched cols) (before ++ flat_map node_rows ns)
unfolding update_row_ids_loop
update_row_ids_loop-columns switched cols [] before base h e = rw append-nil
update_row_ids_loop-columns switched cols (n ∷ ns) before base h e =
    ap (update_row_ids_loop (length ns) switched cols ns (base + n.size))
      (update_cols-columns switched cols (node_rows n) before base e)
    ∙ update_row_ids_loop-columns switched cols ns (before ++ node_rows n) (base + n.size) h.1 (
        omega (
          arith,
          h.0.0,
          e,
          length-append {0} before (node_rows n),
          ap length (take_all n.size n.tuples h.0.0),
        ))
    ∙ ap (columns reads (readers switched cols))
        (append_assoc before (node_rows n) (flat_map node_rows ns))

get_or-map :
    {E : Type 0} (f : E → ℕ) (es : List E) (i : ℕ) (d : E)
    → i < length es
    → get_or (map f es) i 0 ≡ f (get_or es i d)
get_or-map f [] i d h = absurd (omega arith)
get_or-map f (e ∷ es) zero d h = refl
get_or-map f (e ∷ es) (suc i) d h = get_or-map f es i d (omega arith)

-- Row `i` of filled columns holds the entries for result `i`.
pub row_at-columns :
    {D E : Type 0} (f : D → E → ℕ) (ds : List D) (es : List E) (i : ℕ) (e : E)
    → i < length es
    → row_at (columns f ds es) i ≡ map (λ d. f d (get_or es i e)) ds
unfolding row_at
row_at-columns f [] es i e h = refl
row_at-columns f (d ∷ ds) es i e h =
    ap₂ ◌∷◌ (get_or-map (f d) es i e h) (row_at-columns f ds es i e h)

pub length-columns :
    {D E : Type 0} (f : D → E → ℕ) (ds : List D) (es : List E)
    → (length (columns f ds es) ≡ length ds) × All (λ c. length c ≡ length es) (columns f ds es)
length-columns f [] es = (refl, tt)
length-columns f (d ∷ ds) es =
    let (len, all) = length-columns f ds es in (ap suc len, (length-map (f d) es, all))

pub row_at-readers :
    (switched : ℕ) (cols : List (List ℕ)) (t : RowTuple)
    → map (λ g. reads g t) (readers switched cols)
      ≡ row_at cols (first_of_row switched t) ++ second_of_row switched t ∷ []
unfolding row_at
row_at-readers switched [] t = refl
row_at-readers switched (c ∷ cols) t =
    ap (λ r. get_or c (first_of_row switched t) 0 ∷ r) (row_at-readers switched cols t)

pub length-readers :
    (switched : ℕ) (cols : List (List ℕ)) → length (readers switched cols) ≡ length cols + 1
length-readers switched [] = omega arith
length-readers switched (c ∷ cols) = omega (arith, length-readers switched cols)

-- A column of the first operand, or of the second.
pub data Side : Type 0 where
  first : List ℕ → Side
  second : List ℕ → Side

abbrev pub side_at : ℕ → Side → RowTuple → ℕ
side_at switched (first c) t = get_or c (first_of_row switched t) 0
side_at switched (second c) t = get_or c (second_of_row switched t) 0

abbrev pub sides : List (List ℕ) → List (List ℕ) → List Side
sides cols1 cols2 = map first cols1 ++ map second cols2

pub length-sides :
    (cols1 cols2 : List (List ℕ)) → length (sides cols1 cols2) ≡ length cols1 + length cols2
length-sides cols1 cols2 =
    length-append (map first cols1) (map second cols2)
    ∙ ap₂ ◌+◌ (length-map first cols1) (length-map second cols2)

pub row_at-sides :
    (switched : ℕ) (cols1 cols2 : List (List ℕ)) (t : RowTuple)
    → map (λ d. side_at switched d t) (sides cols1 cols2)
      ≡ row_at cols1 (first_of_row switched t) ++ row_at cols2 (second_of_row switched t)
unfolding row_at
row_at-sides switched [] [] t = refl
row_at-sides switched [] (c ∷ cols2) t =
    ap (λ r. get_or c (second_of_row switched t) 0 ∷ r) (row_at-sides switched [] cols2 t)
row_at-sides switched (c ∷ cols1) cols2 t =
    ap (λ r. get_or c (first_of_row switched t) 0 ∷ r) (row_at-sides switched cols1 cols2 t)

pub each_res_congr :
    {S : Type 0} (f g : S → RowTuple → S) (ts : List RowTuple) (s : S)
    → ((s : S) (t : RowTuple) → f s t ≡ g s t)
    → each_res f ts s ≡ each_res g ts s
unfolding each_res
each_res_congr f g [] s h = refl
each_res_congr f g (t ∷ ts) s h = ap (each_res f ts) (h s t) ∙ each_res_congr f g ts (g s t) h
