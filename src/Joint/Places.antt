-- ===== src/Joint/Places.antt =====
-- src/jointPerformer.c: where a relation stands among the intermediates, and that the loops which
-- look for it find that place.
use native.Mathlib.Decide.{ℕ_discrete}
use join_operator_software_d.Prelude.{
  ℕ, zero, suc, ◌+◌, ◌≤◌, ◌<◌, ◌≡◌, ◌≢◌, refl, ap, ◌∙◌, arith, Option, none, some, List, [], ◌∷◌,
  ==_iff, ==_eq_false, true, false, length, get_or,
}
use join_operator_software_d.Inter.{Inter, HeadInter, no_inter}
use join_operator_software_d.Joint.{find_col, has_rel, find_node_from, find_node, rows_of_rel}

-- No column of the intermediate is of the relation.
abbrev pub Lacks : Inter → ℕ → Type 0
Lacks it rel =
    (j : ℕ) → j < it.num_of_cols → j < length it.joined_rels → get_or it.joined_rels j 0 ≢ rel

-- The column is the first one of the relation.
pub record FirstColumn (it : Inter) (rel col : ℕ) : Type 0 where
  pub within : col < it.num_of_cols
  pub held : col < length it.joined_rels
  pub is_rel : get_or it.joined_rels col 0 ≡ rel
  pub others : (j : ℕ) → j < col → get_or it.joined_rels j 0 ≢ rel

-- The node is the first one with the relation, and the column its first one in the node.
pub record FirstNode (hq : HeadInter) (rel node col : ℕ) : Type 0 where
  pub inside : node < length hq.nodes
  pub column : FirstColumn (get_or hq.nodes node no_inter) rel col
  pub before : (k : ℕ) → k < node → Lacks (get_or hq.nodes k no_inter) rel

-- Where the relation stands: nowhere, or first in a node and a column.
abbrev pub IsPlace : HeadInter → ℕ → Option (ℕ × ℕ) → Type 0
IsPlace hq rel none = (k : ℕ) → k < length hq.nodes → Lacks (get_or hq.nodes k no_inter) rel
IsPlace hq rel (some (node, col)) = FirstNode hq rel node col

-- The same in one intermediate.
abbrev pub IsColumn : Inter → ℕ → Option ℕ → Type 0
IsColumn it rel none = Lacks it rel
IsColumn it rel (some col) = FirstColumn it rel col

has_rel-true :
    (n : ℕ) (rels : List ℕ) (rel col : ℕ)
    → col < n
    → col < length rels
    → get_or rels col 0 ≡ rel
    → has_rel n rels rel ≡ true
has_rel-true zero rels rel col lt held e = absurd (omega (arith, lt))
has_rel-true (suc n) [] rel col lt held e = absurd (omega (arith, held))
has_rel-true (suc n) (r ∷ rels) rel zero lt held e = rw ((==_iff r rel).1 e) refl
has_rel-true (suc n) (r ∷ rels) rel (suc col) lt held e =
    let rest = has_rel-true n rels rel col (omega (arith, lt)) (omega (arith, held)) e in
    ground (arith, rest)

has_rel-false :
    (n : ℕ) (rels : List ℕ) (rel : ℕ)
    → ((j : ℕ) → j < n → j < length rels → get_or rels j 0 ≢ rel)
    → has_rel n rels rel ≡ false
has_rel-false zero rels rel lacks = refl
has_rel-false (suc n) [] rel lacks = refl
has_rel-false (suc n) (r ∷ rels) rel lacks =
    rw (==_eq_false r rel (lacks 0 (omega arith) (omega arith))) (
      has_rel-false n rels rel
        (λ j lt held. lacks (suc j) (omega (arith, lt)) (omega (arith, held))))

find_node_from-none :
    (its : List Inter) (place rel : ℕ)
    → ((k : ℕ) → k < length its → Lacks (get_or its k no_inter) rel)
    → find_node_from its place rel ≡ none
find_node_from-none [] place rel lacks = refl
find_node_from-none (it ∷ its) place rel lacks =
    rw (has_rel-false it.num_of_cols it.joined_rels rel (lacks 0 (omega arith)))
      (find_node_from-none its (place + 1) rel (λ k lt. lacks (suc k) (omega (arith, lt))))

find_node_from-some :
    (its : List Inter) (place rel node col : ℕ)
    → node < length its
    → FirstColumn (get_or its node no_inter) rel col
    → ((k : ℕ) → k < node → Lacks (get_or its k no_inter) rel)
    → find_node_from its place rel ≡ some (place + node)
find_node_from-some [] place rel node col lt c lacks = absurd (omega (arith, lt))
find_node_from-some (it ∷ its) place rel zero col lt c lacks =
    rw (has_rel-true it.num_of_cols it.joined_rels rel col c.within c.held c.is_rel)
      (ap some (omega arith))
find_node_from-some (it ∷ its) place rel (suc node) col lt c lacks =
    rw (has_rel-false it.num_of_cols it.joined_rels rel (lacks 0 (omega arith))) (
      find_node_from-some its (place + 1) rel node col (omega (arith, lt)) c
        (λ k k_lt. lacks (suc k) (omega (arith, k_lt)))
      ∙ ap some (omega arith))

-- The place without its column.
abbrev pub node_of : Option (ℕ × ℕ) → Option ℕ
node_of none = none
node_of (some (node, col)) = some node

pub find_node-node_of :
    (hq : HeadInter) (rel : ℕ) (place : Option (ℕ × ℕ))
    → IsPlace hq rel place
    → find_node hq rel ≡ node_of place
unfolding find_node
find_node-node_of hq rel none p = find_node_from-none hq.nodes 0 rel p
find_node-node_of hq rel (some (node, col)) p =
    find_node_from-some hq.nodes 0 rel node col p.inside p.column p.before ∙ ap some (omega arith)

find_col_first :
    (n i : ℕ) (rels : List ℕ) (rel col : ℕ)
    → i ≤ col
    → col < i + n
    → get_or rels col 0 ≡ rel
    → ((j : ℕ) → j < col → get_or rels j 0 ≢ rel)
    → find_col n i rels rel ≡ col
unfolding find_col
find_col_first zero i rels rel col le lt e others = absurd (omega (arith, le, lt))
find_col_first (suc n) i rels rel col le lt e others = elim (ℕ_discrete i col) [
  | yes same ↦
      let here : get_or rels i 0 ≡ rel = ap (λ (k : ℕ). get_or rels k 0) same ∙ e in
      rw ((==_iff (get_or rels i 0) rel).1 here) same
  | no ne ↦
      rw (==_eq_false (get_or rels i 0) rel (others i (omega (arith, le, ne))))
        (find_col_first n (i + 1) rels rel col (omega (arith, le, ne)) (omega (arith, lt)) e others)
]

pub find_col-FirstColumn :
    (it : Inter) (rel col : ℕ)
    → FirstColumn it rel col
    → find_col it.num_of_cols 0 it.joined_rels rel ≡ col
find_col-FirstColumn it rel col c =
    find_col_first it.num_of_cols 0 it.joined_rels rel col (omega arith) (omega (arith, c.within))
      c.is_rel c.others

pub rows_of_rel-FirstColumn :
    (it : Inter) (rel col : ℕ)
    → FirstColumn it rel col
    → rows_of_rel it rel ≡ get_or it.row_ids col []
unfolding rows_of_rel
rows_of_rel-FirstColumn it rel col c =
    ap (λ (k : ℕ). get_or it.row_ids k []) (find_col-FirstColumn it rel col c)
