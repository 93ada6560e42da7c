-- ===== src/Joint/Forge.antt =====
-- src/jointPerformer.c: the relation that a join searches, made of a column or of an intermediate.
use join_operator_software_d.Prelude.{
  ℕ, zero, suc, ◌+◌, ◌<◌, ◌≡◌, refl, sym, ap, ◌∙◌, arith, Option, none, some, List, [], ◌∷◌, ◌++◌,
  append-nil, append_assoc, length, length-append, get_or, store-append,
}
use join_operator_software_d.Structs.{Tuple, Relation}
use join_operator_software_d.Query.{ColRel}
use join_operator_software_d.Inter.{HeadInter, no_inter}
use join_operator_software_d.Index.{no_tuple}
use join_operator_software_d.Joint.{forge_loop, forge_relationsheep}
use join_operator_software_d.Joint.Places.{IsPlace, find_node-node_of, rows_of_rel-FirstColumn}

-- The numbers from `i` on, `n` of them, with their values.
numbered : (ℕ → ℕ) → ℕ → ℕ → List Tuple
numbered value i zero = []
numbered value i (suc n) = record { key = value i; payload = i } ∷ numbered value (i + 1) n

length-numbered : (value : ℕ → ℕ) (i n : ℕ) → length (numbered value i n) ≡ n
unfolding numbered
length-numbered value i zero = refl
length-numbered value i (suc n) = omega (arith, length-numbered value (i + 1) n)

get_or-numbered :
    (value : ℕ → ℕ) (i n k : ℕ)
    → k < n
    → get_or (numbered value i n) k no_tuple ≡ record { key = value (i + k); payload = i + k }
unfolding numbered
get_or-numbered value i zero k lt = absurd (omega (arith, lt))
get_or-numbered value i (suc n) zero lt =
    ap (λ (m : ℕ). record { key = value m; payload = m }) (omega arith)
get_or-numbered value i (suc n) (suc k) lt =
    get_or-numbered value (i + 1) n k (omega arith)
    ∙ ap (λ (m : ℕ). record { key = value m; payload = m }) (omega arith)

forge_loop-numbered :
    (value : ℕ → ℕ) (n i : ℕ) (t : List Tuple)
    → i ≡ length t
    → forge_loop value n i t ≡ t ++ numbered value i n
unfolding forge_loop numbered
forge_loop-numbered value zero i t h = sym (append-nil t)
forge_loop-numbered value (suc n) i t h =
    let x : Tuple = record { key = value i; payload = i } in
    rw (store-append t i x h) (
      forge_loop-numbered value n (i + 1) (t ++ x ∷ [])
        (omega (arith, length-append {0} t (x ∷ [])))
      ∙ append_assoc t (x ∷ []) (numbered value (i + 1) n))

-- The relation has a tuple for each number below `rows`: the value of the number, and the number.
pub record Numbers (value : ℕ → ℕ) (rows : ℕ) (r : Relation) : Type 0 where
  pub sized : r.size ≡ rows
  pub full : length r.tuples ≡ rows
  pub numbered_at :
      (k : ℕ) → k < rows → get_or r.tuples k no_tuple ≡ record { key = value k; payload = k }

forge_loop-Numbers :
    (value : ℕ → ℕ) (rows : ℕ)
    → Numbers value rows (record { tuples = forge_loop value rows 0 []; size = rows })
forge_loop-Numbers value rows =
    let e = forge_loop-numbered value rows 0 [] refl in
    record {
      sized = refl;
      full = ap length e ∙ length-numbered value 0 rows;
      numbered_at = λ k lt.
          ap (λ (t : List Tuple). get_or t k no_tuple) e
          ∙ get_or-numbered value 0 rows k lt
          ∙ ap (λ (m : ℕ). record { key = value m; payload = m }) (omega arith);
    }

-- The value that row `k` of what is joined has, and how many rows it has, by the place where the
-- relation stands.
abbrev pub value_of : HeadInter → Option (ℕ × ℕ) → ColRel → ℕ → ℕ
value_of hi none r k = get_or r.col k 0
value_of hi (some (node, col)) r k =
    get_or r.col (get_or (get_or (get_or hi.nodes node no_inter).row_ids col []) k 0) 0

abbrev pub rows_joined : HeadInter → Option (ℕ × ℕ) → ColRel → ℕ
rows_joined hi none r = r.rows
rows_joined hi (some (node, col)) r = (get_or hi.nodes node no_inter).numb_of_rows

-- The relation that is made for a join pairs each row number of what is joined with the value of the
-- column in that row: of the intermediate where the relation stands, or, when it stands in none, of
-- the relation itself.
pub forge_relationsheep-Numbers :
    (hi : HeadInter) (r : ColRel) (place : Option (ℕ × ℕ))
    → IsPlace hi r.rel place
    → Numbers (value_of hi place r) (rows_joined hi place r) (forge_relationsheep hi r)
unfolding forge_relationsheep
forge_relationsheep-Numbers hi r none p =
    rw (forge_relationsheep, find_node-node_of hi r.rel none p)
      (forge_loop-Numbers (λ i. get_or r.col i 0) r.rows)
forge_relationsheep-Numbers hi r (some (node, col)) p =
    let it = get_or hi.nodes node no_inter in
    rw
      (
        forge_relationsheep,
        find_node-node_of hi r.rel (some (node, col)) p,
        rows_of_rel-FirstColumn it r.rel col p.column,
      )
      (forge_loop-Numbers (λ i. get_or r.col (get_or (get_or it.row_ids col []) i 0) 0)
        it.numb_of_rows)
