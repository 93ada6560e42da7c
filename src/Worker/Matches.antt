-- ===== src/Worker/Matches.antt =====
-- The pairs of row numbers that a join is to find, and that the result list of the join holds them.
use join_operator_software_d.Prelude.{
  ℕ, ◌+◌, ◌≡◌, refl, sym, ap, ◌∙◌, arith, inl, inr, Bool-cases, List, [], ◌∷◌, ◌++◌, if◌then◌else◌,
  ◌==◌, weigh, weigh-append, weigh_congr,
}
use join_operator_software_d.Structs.{Tuple, RowTuple}
use join_operator_software_d.Inter.{first_of_row, second_of_row}
use join_operator_software_d.Radix.{ColumnRelation}
use join_operator_software_d.Radix.Plans.{left_of, right_of}
use join_operator_software_d.Search.{row_of}
use join_operator_software_d.Search.Chain.{equi_rows, join_rows}
use join_operator_software_d.Search.Bags.{weigh-equi_rows, weigh-flat_map}

-- The numbers of each tuple of `rs` and each tuple of `ss` that has its key.
abbrev pub partners : Tuple → List Tuple → List (ℕ × ℕ)
partners r [] = []
partners r (s ∷ ss) =
    let rest = partners r ss in if r.key == s.key then (r.payload, s.payload) ∷ rest else rest

abbrev pub matches : List Tuple → List Tuple → List (ℕ × ℕ)
matches [] ss = []
matches (r ∷ rs) ss = partners r ss ++ matches rs ss

-- The weight of a pair, if it matches.
abbrev pub pair_weight : (ℕ → ℕ → ℕ) → Tuple → Tuple → ℕ
pair_weight g r s = if r.key == s.key then g r.payload s.payload else 0

weigh-partners :
    (g : ℕ → ℕ → ℕ) (r : Tuple) (ss : List Tuple)
    → weigh (λ p. g p.0 p.1) (partners r ss) ≡ weigh (pair_weight g r) ss
weigh-partners g r [] = refl
weigh-partners g r (s ∷ ss) = elim (Bool-cases (r.key == s.key)) [
  | inl e ↦ rw e (ap (λ (m : ℕ). g r.payload s.payload + m) (weigh-partners g r ss))
  | inr e ↦ rw e (omega (arith, weigh-partners g r ss))
]

weigh-matches :
    (g : ℕ → ℕ → ℕ) (rs ss : List Tuple)
    → weigh (λ p. g p.0 p.1) (matches rs ss) ≡ weigh (λ r. weigh (pair_weight g r) ss) rs
weigh-matches g [] ss = refl
weigh-matches g (r ∷ rs) ss = omega (
  arith,
  weigh-append {0} (λ (p : ℕ × ℕ). g p.0 p.1) (partners r ss) (matches rs ss),
  weigh-partners g r ss,
  weigh-matches g rs ss,
)

weigh_zero : (ss : List Tuple) → weigh (λ s. 0) ss ≡ 0
weigh_zero [] = refl
weigh_zero (s ∷ ss) = omega (arith, weigh_zero ss)

weigh_add :
    (f g : Tuple → ℕ) (ss : List Tuple) → weigh (λ s. f s + g s) ss ≡ weigh f ss + weigh g ss
weigh_add f g [] = refl
weigh_add f g (s ∷ ss) = omega (arith, weigh_add f g ss)

-- A sum over pairs in either order.
weigh_swap :
    (h : Tuple → Tuple → ℕ) (rs ss : List Tuple)
    → weigh (λ r. weigh (h r) ss) rs ≡ weigh (λ s. weigh (λ r. h r s) rs) ss
weigh_swap h [] ss = sym (weigh_zero ss)
weigh_swap h (r ∷ rs) ss =
    ap (λ (m : ℕ). weigh (h r) ss + m) (weigh_swap h rs ss)
    ∙ sym (weigh_add (h r) (λ s. weigh (λ r. h r s) rs) ss)

key_swap : (a b x : ℕ) → (if a == b then x else 0) ≡ (if b == a then x else 0)
key_swap a b x = ground arith

-- The rows of the join of `rs` with an index over `rs`, or the other way round, are the matches.
weigh-join_rows :
    (f : RowTuple → ℕ) (rs ts : List Tuple)
    → weigh f (join_rows rs ts)
      ≡ weigh (λ t. weigh (λ r. if r.key == t.key then f (row_of r t) else 0) rs) ts
unfolding join_rows
weigh-join_rows f rs ts =
    weigh-flat_map f (equi_rows rs) ts
    ∙ weigh_congr (λ t. weigh f (equi_rows rs t))
        (λ t. weigh (λ r. if r.key == t.key then f (row_of r t) else 0) rs) ts
        (weigh-equi_rows f rs)

abbrev pub row_weight : (ℕ → ℕ → ℕ) → ℕ → RowTuple → ℕ
row_weight g switched t = g (first_of_row switched t) (second_of_row switched t)

-- Whichever relation has the index, the rows of the result name the matches, each as often.
pub weigh-joined :
    (g : ℕ → ℕ → ℕ) (switched : ℕ) (r s : ColumnRelation)
    → weigh
        (row_weight g switched)
        (join_rows (left_of switched r s).relation.tuples (right_of switched r s).relation.tuples)
      ≡ weigh (λ p. g p.0 p.1) (matches r.relation.tuples s.relation.tuples)
unfolding first_of_row second_of_row
weigh-joined g switched r s =
    let rs = r.relation.tuples in
    let ss = s.relation.tuples in
    elim (Bool-cases (switched == 0)) [
      | inl e ↦ rw e (
          weigh_congr (row_weight g switched) (λ t. g t.row_r t.row_s) (join_rows rs ss)
            (λ t. rw e refl)
          ∙ weigh-join_rows (λ t. g t.row_r t.row_s) rs ss
          ∙ sym (weigh_swap (pair_weight g) rs ss)
          ∙ sym (weigh-matches g rs ss))
      | inr e ↦ rw e (
          weigh_congr (row_weight g switched) (λ t. g t.row_s t.row_r) (join_rows ss rs)
            (λ t. rw e refl)
          ∙ weigh-join_rows (λ t. g t.row_s t.row_r) ss rs
          ∙ weigh_congr (λ x. weigh (λ y. if y.key == x.key then g x.payload y.payload else 0) ss)
              (λ x. weigh (pair_weight g x) ss) rs
              (λ x.
                weigh_congr (λ y. if y.key == x.key then g x.payload y.payload else 0)
                  (pair_weight g x) ss (λ y. key_swap y.key x.key (g x.payload y.payload)))
          ∙ sym (weigh-matches g rs ss))
    ]
