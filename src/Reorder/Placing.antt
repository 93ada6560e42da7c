-- ===== src/Reorder/Placing.antt =====
-- src/H1.c: the tuples of a hash end up in its segment, in the order in which they are placed.
use mathlib.Core.Path.{subst}
use native.Mathlib.Decide.{ℕ_discrete}
use join_operator_software_d.Prelude.{
  ℕ, suc, ◌+◌, ◌-◌, ◌<◌, ◌≡◌, refl, sym, ap, ◌∙◌, arith, List, [], ◌∷◌, ◌++◌, append_assoc,
  if◌then◌else◌, ◌==◌, ==_iff, ==_refl, ==_eq_false, ltb, ltb_iff, ltb_eq_false, length,
  length-append, length-set, get_or, get_or-set_self, get_or-set_ne, set, All, sub64, u64_mod,
}
use join_operator_software_d.Structs.{Tuple, Relation}
use join_operator_software_d.Index.{no_tuple}
use join_operator_software_d.Hashing.{hash1_2-lt}
use join_operator_software_d.Histogram.Counts.{hash_at}
use join_operator_software_d.Reorder.{construction_step, construct}
use join_operator_software_d.Reorder.Offsets.{start, start_zero, start_next, Filled}
use join_operator_software_d.Reorder.Segments.{flat, flat_congr, set-flat, start-le}

-- The tuples of the hash `h`, in the order of a list of tuple numbers.
abbrev pub in_order : List Tuple → ℕ → ℕ → List ℕ → List Tuple
in_order t range h [] = []
in_order t range h (i ∷ is) =
    let rest = in_order t range h is in
    if hash_at t range i == h then get_or t i no_tuple ∷ rest else rest

-- A list that is not empty.
record Cons (xs : List Tuple) (n : ℕ) : Type 0 where
  first : Tuple
  rest : List Tuple
  whole : xs ≡ first ∷ rest
  shorter : length rest ≡ n

uncons : (xs : List Tuple) (n : ℕ) → length xs ≡ suc n → Cons xs n
uncons [] n e = absurd (omega (arith, e))
uncons (x ∷ xs) n e = record { first = x; rest = xs; whole = refl; shorter = omega (arith, e) }

pub no_places : (xs : List Tuple) → length xs ≡ 0 → xs ≡ []
no_places [] e = refl
no_places (x ∷ xs) e = absurd (omega (arith, e))

-- What is placed (`filled`) and the places left (`gap`) of each hash, with the tuples to come.
pub record Placed (r : Relation) (range : ℕ) (counts : List ℕ) (order : List ℕ)
    (filled gap : ℕ → List Tuple) (s : List ℕ × List Tuple) : Type 0 where
  pub numbers : All (λ i. i < r.size) order
  pub sized : length s.0 ≡ range
  pub left : (h : ℕ) → h < range → get_or s.0 h 0 ≡ length (in_order r.tuples range h order)
  pub places_left : (h : ℕ) → h < range → length (gap h) ≡ length (in_order r.tuples range h order)
  pub full : (h : ℕ) → h < range → length (filled h) + length (gap h) ≡ get_or counts h 0
  pub tuples_eq : s.1 ≡ flat (λ h. filled h ++ gap h) 0 range

module _ (r : Relation) (range : ℕ) (counts hash_values help : List ℕ) (small : r.size < u64_mod)
    (positive : 0 < range) (helped : Filled counts help range) (total : start counts range ≡ r.size)
    (values : (i : ℕ) → i < r.size → get_or hash_values i 0 ≡ hash_at r.tuples range i) where
  -- The end of a segment.
  end_eq :
      (h : ℕ)
      → h < range
      → (if ltb h (range - 1) then get_or help (h + 1) 0 else r.size) ≡ start counts (h + 1)
  end_eq h lt = elim (ℕ_discrete (h + 1) range) [
    | yes e ↦
        rw (ltb_eq_false h (range - 1) (omega (arith, e))) (sym total ∙ ap (start counts) (sym e))
    | no ne ↦
        rw ((ltb_iff h (range - 1)).1 (omega (arith, lt, ne)))
          (helped (h + 1) (omega (arith, lt, ne)))
  ]

  start_small : (h : ℕ) → h < range → start counts (h + 1) < u64_mod
  start_small h lt =
      let move : h + 1 + (range - (h + 1)) ≡ range = omega (arith, lt) in
      omega (arith, small, total, start-le counts (h + 1) (range - (h + 1)), ap (start counts) move)

  -- One tuple is placed.
  construction_step-Placed :
      (i : ℕ) (order : List ℕ) (filled gap : ℕ → List Tuple) (s : List ℕ × List Tuple)
      → let h = hash_at r.tuples range i in
        let t = get_or r.tuples i no_tuple in
        (p : Placed r range counts (i ∷ order) filled gap s)
        → (c : Cons (gap h) (length (in_order r.tuples range h order)))
        → Placed r range counts order
            (λ g. if g == h then filled h ++ t ∷ [] else filled g)
            (λ g. if g == h then c.rest else gap g)
            (construction_step r range hash_values help i s)
  unfolding construction_step
  construction_step-Placed i order filled gap s p c =
      let h = hash_at r.tuples range i in
      let t = get_or r.tuples i no_tuple in
      let inside : h < range = hash1_2-lt t.key range positive in
      let v : get_or hash_values i 0 ≡ h = values i p.numbers.0 in
      let temp = get_or s.0 h 0 in
      let here : temp ≡ suc (length (in_order r.tuples range h order)) =
        p.left h inside ∙ rw (==_refl h) in
      let wide : length (gap h) ≡ suc (length (in_order r.tuples range h order)) =
        p.places_left h inside ∙ rw (==_refl h) in
      let place : sub64 (start counts (h + 1)) temp ≡ start counts h + length (filled h) =
        omega (arith, here, wide, start_next counts h, p.full h inside, start_small h inside) in
      rw (v, end_eq h inside, place)
        (record {
          numbers = p.numbers.1;
          sized = length-set s.0 h (sub64 temp 1) ∙ p.sized;
          left = λ g lt. elim (ℕ_discrete h g) [
            | yes e ↦
                let down : sub64 temp 1 ≡ length (in_order r.tuples range h order) =
                  omega (
                    arith,
                    here,
                    wide,
                    start_next counts h,
                    p.full h inside,
                    start_small h inside,
                  ) in
                subst
                  (λ (k : ℕ).
                    get_or (set s.0 h (sub64 temp 1)) k 0
                    ≡ length (in_order r.tuples range k order))
                  e (get_or-set_self s.0 h (sub64 temp 1) 0 (omega (arith, p.sized, inside)) ∙ down)
            | no ne ↦
                get_or-set_ne s.0 h g (sub64 temp 1) 0 ne ∙ p.left g lt ∙ rw (==_eq_false h g ne)
          ];
          places_left = λ g lt. elim (ℕ_discrete g h) [
            | yes e ↦
                rw ((==_iff g h).1 e)
                  (c.shorter ∙ ap (λ (k : ℕ). length (in_order r.tuples range k order)) (sym e))
            | no ne ↦
                rw (==_eq_false g h ne)
                  (p.places_left g lt ∙ rw (==_eq_false h g (λ e. ne (sym e))))
          ];
          full = λ g lt. elim (ℕ_discrete g h) [
            | yes e ↦ rw ((==_iff g h).1 e) (
                omega (
                  arith,
                  p.full h inside,
                  wide,
                  c.shorter,
                  length-append {0} (filled h) (t ∷ []),
                  ap (λ (k : ℕ). get_or counts k 0) e,
                ))
            | no ne ↦ rw (==_eq_false g h ne) (p.full g lt)
          ];
          tuples_eq =
              ap (λ (xs : List Tuple). set xs (start counts h + length (filled h)) t) p.tuples_eq
              ∙ set-flat counts (λ g. filled g ++ gap g) 0 range h
                  (start counts h + length (filled h)) (filled h) c.rest c.first t (omega arith)
                  (omega (arith, inside)) (ap (λ (xs : List Tuple). filled h ++ xs) c.whole)
                  (λ g lt. length-append (filled g) (gap g) ∙ p.full g (omega (arith, lt)))
                  (omega (arith, start_zero counts))
              ∙ flat_congr (λ g. if g == h then filled h ++ t ∷ c.rest else filled g ++ gap g)
                  (λ g.
                    (if g == h then filled h ++ t ∷ [] else filled g)
                    ++ (if g == h then c.rest else gap g))
                  0 range
                  (λ g ge lt. elim (ℕ_discrete g h) [
                    | yes e ↦ rw ((==_iff g h).1 e) (sym (append_assoc (filled h) (t ∷ []) c.rest))
                    | no ne ↦ rw (==_eq_false g h ne)
                  ]);
        })

  pub construct-flat :
      (order : List ℕ) (filled gap : ℕ → List Tuple) (s : List ℕ × List Tuple)
      → Placed r range counts order filled gap s
      → (construct r range hash_values help order s).1
        ≡ flat (λ h. filled h ++ in_order r.tuples range h order) 0 range
  unfolding construct
  construct-flat [] filled gap s p =
      p.tuples_eq
      ∙ flat_congr (λ h. filled h ++ gap h) (λ h. filled h ++ []) 0 range
          (λ h ge lt.
            ap (λ (xs : List Tuple). filled h ++ xs)
              (no_places (gap h) (p.places_left h (omega (arith, lt)))))
  construct-flat (i ∷ order) filled gap s p =
      let h = hash_at r.tuples range i in
      let t = get_or r.tuples i no_tuple in
      let inside : h < range = hash1_2-lt t.key range positive in
      let c =
        uncons (gap h) (length (in_order r.tuples range h order))
          (p.places_left h inside ∙ rw (==_refl h)) in
      construct-flat order (λ g. if g == h then filled h ++ t ∷ [] else filled g)
        (λ g. if g == h then c.rest else gap g) (construction_step r range hash_values help i s)
        (construction_step-Placed i order filled gap s p c)
      ∙ flat_congr
          (λ g.
            (if g == h then filled h ++ t ∷ [] else filled g) ++ in_order r.tuples range g order)
          (λ g. filled g ++ in_order r.tuples range g (i ∷ order)) 0 range
          (λ g ge lt. elim (ℕ_discrete g h) [
            | yes e ↦
                rw ((==_iff g h).1 e, (==_iff h g).1 (sym e))
                  (append_assoc (filled h) (t ∷ []) (in_order r.tuples range g order)
                    ∙ ap (λ (k : ℕ). filled k ++ t ∷ in_order r.tuples range g order) (sym e))
            | no ne ↦ rw (==_eq_false g h ne) (rw (==_eq_false h g (λ e. ne (sym e))))
          ])
