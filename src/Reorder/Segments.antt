-- ===== src/Reorder/Segments.antt =====
-- The reordered tuples as segments, one for each hash, that lie behind one another.
use native.Mathlib.Decide.{ℕ_discrete}
use join_operator_software_d.Prelude.{
  ℕ, zero, suc, ◌+◌, ◌-◌, ◌≤◌, ◌<◌, ◌≡◌, refl, sym, ap, ◌∙◌, arith, List, [], ◌∷◌, ◌++◌,
  append_assoc, if◌then◌else◌, ◌==◌, ==_iff, ==_eq_false, length, length-append, get_or, set,
  set-append, set-append_right,
}
use mathlib.Core.Path.{ap₂}
use join_operator_software_d.Structs.{Tuple}
use join_operator_software_d.Reorder.Offsets.{start, start_next}

-- The segments of the `n` hashes from `i` on.
abbrev pub flat : (ℕ → List Tuple) → ℕ → ℕ → List Tuple
flat f i zero = []
flat f i (suc n) = f i ++ flat f (i + 1) n

pub flat_congr :
    (f g : ℕ → List Tuple) (i n : ℕ)
    → ((h : ℕ) → i ≤ h → h < i + n → f h ≡ g h)
    → flat f i n ≡ flat g i n
flat_congr f g i zero same = refl
flat_congr f g i (suc n) same =
    ap₂ (λ (a b : List Tuple). a ++ b) (same i (omega arith) (omega arith))
      (flat_congr f g (i + 1) n (λ h ge lt. same h (omega (arith, ge)) (omega (arith, lt))))

module _ (hist : List ℕ) where
  -- The segments have the sizes of the histogram.
  abbrev pub Sized : (ℕ → List Tuple) → ℕ → Type 0
  Sized f range = (h : ℕ) → h < range → length (f h) ≡ get_or hist h 0

  pub length-flat :
      (f : ℕ → List Tuple) (i n : ℕ)
      → Sized f (i + n)
      → length (flat f i n) + start hist i ≡ start hist (i + n)
  length-flat f i zero sized = let z : i ≡ i + 0 = omega arith in omega (arith, ap (start hist) z)
  length-flat f i (suc n) sized =
      let move : i + 1 + n ≡ i + suc n = omega arith in
      omega (
        arith,
        length-append {0} (f i) (flat f (i + 1) n),
        sized i (omega arith),
        start_next hist i,
        length-flat f (i + 1) n (λ h lt. sized h (omega (arith, lt))),
        ap (start hist) move,
      )

  pub start-le : (i n : ℕ) → start hist i ≤ start hist (i + n)
  start-le i zero = let z : i ≡ i + 0 = omega arith in omega (arith, ap (start hist) z)
  start-le i (suc n) =
      let move : i + 1 + n ≡ i + suc n = omega arith in
      omega (arith, start_next hist i, start-le (i + 1) n, ap (start hist) move)

  start_gap : (i h : ℕ) → i < h → start hist (i + 1) ≤ start hist h
  start_gap i h lt =
      let move : i + 1 + (h - (i + 1)) ≡ h = omega (arith, lt) in
      omega (arith, start-le (i + 1) (h - (i + 1)), ap (start hist) move)

  -- A write inside the segment of `h`.
  pub set-flat :
      (f : ℕ → List Tuple) (i n h p : ℕ) (a b : List Tuple) (x v : Tuple)
      → i ≤ h
      → h < i + n
      → f h ≡ a ++ x ∷ b
      → Sized f (i + n)
      → p + start hist i ≡ start hist h + length a
      → set (flat f i n) p v ≡ flat (λ g. if g == h then a ++ v ∷ b else f g) i n
  set-flat f i zero h p a b x v ge lt e sized at = absurd (omega (arith, ge, lt))
  set-flat f i (suc n) h p a b x v ge lt e sized at = elim (ℕ_discrete i h) [
    | yes same ↦
        let rest = flat f (i + 1) n in
        let here : f i ≡ a ++ x ∷ b = ap f same ∙ e in
        let place : p ≡ length a = omega (arith, at, ap (start hist) same) in
        rw ((==_iff i h).1 same) (
          ap₂ (λ (xs : List Tuple) (k : ℕ). set (xs ++ rest) k v) here place
          ∙ ap (λ (xs : List Tuple). set xs (length a) v) (append_assoc a (x ∷ b) rest)
          ∙ set-append a x (b ++ rest) v
          ∙ sym (append_assoc a (v ∷ b) rest)
          ∙ ap (λ (ys : List Tuple). (a ++ v ∷ b) ++ ys)
              (flat_congr f (λ g. if g == h then a ++ v ∷ b else f g) (i + 1) n
                (λ g g_ge g_lt. rw (==_eq_false g h (λ q. absurd (omega (arith, q, same, g_ge)))))))
    | no ne ↦
        let rest = flat f (i + 1) n in
        let far : length (f i) ≤ p = omega (
          arith,
          at,
          sized i (omega arith),
          start_next hist i,
          start_gap i h (omega (arith, ge, ne)),
        ) in
        let k = p - length (f i) in
        let split : p ≡ length (f i) + k = omega (arith, far) in
        rw (==_eq_false i h ne) (
          set-append_right (f i) rest p k v split
          ∙ ap (λ (ys : List Tuple). f i ++ ys)
              (set-flat f (i + 1) n h k a b x v (omega (arith, ge, ne)) (omega (arith, lt)) e
                (λ g g_lt. sized g (omega (arith, g_lt)))
                (omega (arith, at, far, sized i (omega arith), start_next hist i))))
  ]
