-- ===== src/Search/Bags.antt =====
-- The join of two relations does not depend on the order of their tuples.
use join_operator_software_d.Prelude.{
  ℕ, ◌+◌, ◌≡◌, refl, sym, ap, ◌∙◌, arith, inl, inr, Bool-cases, List, [], ◌∷◌, if◌then◌else◌, ◌==◌,
  flat_map, weigh, weigh-append, weigh_congr, SameBag,
}
use join_operator_software_d.Structs.{Tuple, RowTuple}
use join_operator_software_d.Search.{row_of}
use join_operator_software_d.Search.Chain.{equi_rows, join_rows}

pub weigh-equi_rows :
    (f : RowTuple → ℕ) (rs : List Tuple) (t : Tuple)
    → weigh f (equi_rows rs t) ≡ weigh (λ r. if r.key == t.key then f (row_of r t) else 0) rs
unfolding equi_rows
weigh-equi_rows f [] t = refl
weigh-equi_rows f (r ∷ rs) t = elim (Bool-cases (r.key == t.key)) [
  | inl e ↦ rw e (ap (λ (m : ℕ). f (row_of r t) + m) (weigh-equi_rows f rs t))
  | inr e ↦ rw e (omega (arith, weigh-equi_rows f rs t))
]

pub weigh-flat_map :
    (f : RowTuple → ℕ) (g : Tuple → List RowTuple) (ts : List Tuple)
    → weigh f (flat_map g ts) ≡ weigh (λ t. weigh f (g t)) ts
weigh-flat_map f g [] = refl
weigh-flat_map f g (t ∷ ts) =
    omega (arith, weigh-append {0} f (g t) (flat_map g ts), weigh-flat_map f g ts)

pub join_rows-SameBag :
    (rs us ts vs : List Tuple)
    → SameBag rs us
    → SameBag ts vs
    → SameBag (join_rows rs ts) (join_rows us vs)
unfolding join_rows
join_rows-SameBag rs us ts vs same_r same_t f =
    weigh-flat_map f (equi_rows rs) ts
    ∙ weigh_congr (λ t. weigh f (equi_rows rs t)) (λ t. weigh f (equi_rows us t)) ts
        (λ t.
          weigh-equi_rows f rs t
          ∙ same_r (λ r. if r.key == t.key then f (row_of r t) else 0)
          ∙ sym (weigh-equi_rows f us t))
    ∙ same_t (λ t. weigh f (equi_rows us t))
    ∙ sym (weigh-flat_map f (equi_rows us) vs)
