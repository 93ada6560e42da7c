-- ===== src/Reorder/Layouts.antt =====
-- src/H1.c: the loops that fill the prefix sums, from the first bucket to the end.
use mathlib.Core.Path.{subst, ap₂}
use native.Mathlib.Decide.{ℕ_discrete}
use join_operator_software_d.Prelude.{
  ℕ, zero, suc, ◌+◌, ◌-◌, ◌≤◌, ◌<◌, ◌≡◌, refl, sym, ap, ◌∙◌, arith, List, [], ◌∷◌, if◌then◌else◌,
  ltb, ltb_iff, ==_iff, ==_eq_false, length, length-set, length-replicate, get_or, set, replicate,
}
use join_operator_software_d.Structs.{PSumTuple}
use join_operator_software_d.Index.{no_psum}
use join_operator_software_d.Reorder.{skip_empty, empty_loop, Layout, psum_loop, fill_loop, layout}
use join_operator_software_d.Reorder.Offsets.{
  start, start_next, kept, entries, Filled, set-Filled, skip_empty-Skipped, same_end, Pending,
  psum_loop-Laid,
}

pub empty_loop-length :
    (hist : List ℕ) (n i b : ℕ) → empty_loop n hist i (b + n) ≡ b + length (kept hist i n)
unfolding empty_loop kept
empty_loop-length hist zero i b = omega arith
empty_loop-length hist (suc n) i b = elim (ℕ_discrete (get_or hist i 0) 0) [
  | yes e ↦
      let one : b + suc n - 1 ≡ b + n = omega arith in
      rw ((==_iff (get_or hist i 0) 0).1 e)
        (ap (empty_loop n hist (i + 1)) one ∙ empty_loop-length hist n (i + 1) b)
  | no ne ↦
      let one : b + suc n ≡ b + 1 + n = omega arith in
      rw (==_eq_false (get_or hist i 0) 0 ne) (
        ap (empty_loop n hist (i + 1)) one ∙ empty_loop-length hist n (i + 1) (b + 1) ∙ omega arith)
]

length-kept-le : (hist : List ℕ) (n i : ℕ) → length (kept hist i n) ≤ n
unfolding kept
length-kept-le hist zero i = omega arith
length-kept-le hist (suc n) i = elim (ℕ_discrete (get_or hist i 0) 0) [
  | yes e ↦ rw ((==_iff (get_or hist i 0) 0).1 e) (omega (arith, length-kept-le hist n (i + 1)))
  | no ne ↦ rw (==_eq_false (get_or hist i 0) 0 ne) (omega (arith, length-kept-le hist n (i + 1)))
]

-- Where no hash has tuples, the starts do not rise.
start-level :
    (hist : List ℕ) (n i m : ℕ) → kept hist i n ≡ [] → m ≤ n → start hist (i + m) ≡ start hist i
unfolding kept
start-level hist n i zero k le = ap (start hist) (omega arith)
start-level hist zero i (suc m) k le = absurd (omega (arith, le))
start-level hist (suc n) i (suc m) k le = elim (ℕ_discrete (get_or hist i 0) 0) [
  | yes e ↦
      let on = rw ((==_iff (get_or hist i 0) 0).1 e) at k in
      let move : i + suc m ≡ i + 1 + m = omega arith in
      ap (start hist) move
      ∙ start-level hist n (i + 1) m on (omega (arith, le))
      ∙ omega (arith, start_next hist i, e)
  | no ne ↦ let on = rw (==_eq_false (get_or hist i 0) 0 ne) at k in cc on
]

fill_loop-Filled :
    (hist : List ℕ) (size n j : ℕ) (help : List ℕ)
    → j + n ≤ length help
    → Filled hist help j
    → ((m : ℕ) → m < n → size ≡ start hist (j + m))
    → Filled hist (fill_loop n size j help) (j + n)
unfolding fill_loop
fill_loop-Filled hist size zero j help le f same = subst (Filled hist help) (omega arith) f
fill_loop-Filled hist size (suc n) j help le f same =
    let z : j + 0 ≡ j = omega arith in
    let move : j + 1 + n ≡ j + suc n = omega arith in
    subst (Filled hist (fill_loop n size (j + 1) (set help j size))) move (
      fill_loop-Filled hist size n (j + 1) (set help j size)
        (omega (arith, le, length-set help j size))
        (set-Filled hist help j size (omega (arith, le)) (same 0 (omega arith) ∙ ap (start hist) z)
          f)
        (λ m lt.
          let step : j + suc m ≡ j + 1 + m = omega arith in
          same (suc m) (omega (arith, lt)) ∙ ap (start hist) step))

-- After the first bucket, one round for each other bucket.
first-Pending :
    (hist : List ℕ) (size range h : ℕ) (rest : List ℕ)
    → kept hist 0 range ≡ h ∷ rest
    → let s = skip_empty range hist 0 (0, replicate range 0) in
      (s.0 ≡ h)
      × (start hist h ≡ 0)
      × Pending hist range rest 1 (record { h1_res = s.0; offset = 0 } ∷ []) (record {
        psum = set (replicate (suc (length rest)) no_psum) 0 (record { h1_res = s.0; offset = 0 });
        help_psum = set s.1 s.0 0;
        j = s.0 + 1;
        prev_j = s.0;
        temp = if ltb 0 (range - 1) then get_or hist s.0 0 else size;
      })
unfolding start
first-Pending hist size range h rest k =
    let s = skip_empty range hist 0 (0, replicate range 0) in
    let sk =
      skip_empty-Skipped hist range 0 0 h rest (replicate range 0) k refl
        (omega (arith, length-replicate {0} {A = ℕ} range 0))
        (λ g lt. absurd (omega (arith, lt))) in
    (
      sk.stops,
      sk.level,
      record {
        todo =
            ap (λ (m : ℕ). kept hist (m + 1) (range - (m + 1))) sk.stops
            ∙ ap (kept hist (h + 1)) (same_end range 0 h (omega arith) ∙ omega arith)
            ∙ sk.behind;
        psum_eq = refl;
        counted = refl;
        positive = omega arith;
        last_start = sym sk.level ∙ ap (start hist) (sym sk.stops);
        previous = refl;
        in_range = omega (arith, sk.stops, sk.below);
        level = λ more.
            let two : 0 < range - 1 = omega (
              arith,
              more,
              ap length sk.behind,
              length-kept-le hist (0 + range - (h + 1)) (h + 1),
            ) in
            rw ((ltb_iff 0 (range - 1)).1 two)
              (omega (arith, start_next hist s.0, ap (start hist) sk.stops, sk.level));
        sized = length-set s.1 s.0 0 ∙ sk.sized ∙ length-replicate range 0;
        filled =
            set-Filled hist s.1 s.0 0
              (omega (arith, sk.stops, sk.below, sk.sized, length-replicate {0} {A = ℕ} range 0))
              (sym sk.level ∙ ap (start hist) (sym sk.stops))
              (subst (Filled hist s.1) (sym sk.stops) sk.filled);
      },
    )

start_zero : (hist : List ℕ) → start hist 0 ≡ 0
unfolding start
start_zero hist = refl

layout-cons :
    (hist : List ℕ) (size range h : ℕ) (rest : List ℕ)
    → start hist range ≡ size
    → kept hist 0 range ≡ h ∷ rest
    → let l = layout size range (length (h ∷ rest)) hist in
      (l.psum ≡ entries hist (h ∷ rest)) × Filled hist l.help_psum range
unfolding layout
layout-cons hist size range h rest total e =
    let s = skip_empty range hist 0 (0, replicate range 0) in
    let x : PSumTuple = record { h1_res = s.0; offset = 0 } in
    let p = first-Pending hist size range h rest e in
    let first : Layout = record {
      psum = set (replicate (suc (length rest)) no_psum) 0 x;
      help_psum = set s.1 s.0 0;
      j = s.0 + 1;
      prev_j = s.0;
      temp = if ltb 0 (range - 1) then get_or hist s.0 0 else size;
    } in
    let l = psum_loop (length rest) 1 range (suc (length rest)) hist first in
    let laid =
      psum_loop-Laid hist range (suc (length rest)) rest 1 (x ∷ []) first (omega arith) p.2 in
    let x_eq : x ≡ record { h1_res = h; offset = start hist h } =
      ap₂ (λ (a b : ℕ). record { h1_res = a; offset = b }) p.0 (sym p.1) in
    let one : suc (length rest) - 1 ≡ length rest = omega arith in
    let end : l.j + (range - l.j) ≡ range = omega (arith, laid.in_range) in
    rw one (
      laid.psum_eq ∙ ap (λ (t : PSumTuple). t ∷ entries hist rest) x_eq,
      subst (Filled hist (fill_loop (range - l.j) size l.j l.help_psum)) end (
          fill_loop-Filled hist size (range - l.j) l.j l.help_psum
            (omega (arith, laid.sized, laid.in_range)) laid.filled
            (λ m lt.
              sym total
              ∙ ap (start hist) (sym end)
              ∙ start-level hist (range - l.j) l.j (range - l.j) laid.rest_empty (omega arith)
              ∙ sym (start-level hist (range - l.j) l.j m laid.rest_empty (omega (arith, lt))))),
    )

-- With `buckets` buckets that are not empty, the prefix sums have an entry for each, and `helpPSum`
-- holds the start of every bucket.
pub layout_lem :
    (hist : List ℕ) (size range : ℕ)
    → 0 < size
    → start hist range ≡ size
    → let l = layout size range (length (kept hist 0 range)) hist in
      (l.psum ≡ entries hist (kept hist 0 range)) × Filled hist l.help_psum range
layout_lem hist size range pos total = cases (kept hist 0 range) refl
  where
    cases :
        (hs : List ℕ)
        → kept hist 0 range ≡ hs
        → let l = layout size range (length (kept hist 0 range)) hist in
          (l.psum ≡ entries hist (kept hist 0 range)) × Filled hist l.help_psum range
    cases [] e =
        let z : 0 + range ≡ range = omega arith in
        absurd (
          omega (
            arith,
            pos,
            total,
            ap (start hist) z,
            start-level hist range 0 range e (omega arith),
            start_zero hist,
          ))
    cases (h ∷ rest) e = rw e (layout-cons hist size range h rest total e)
