-- ===== src/Reorder/Offsets.antt =====
-- src/H1.c: the prefix sums. The buckets that are not empty get an entry each, and `helpPSum` holds
-- the start of every bucket, empty ones included.
use mathlib.Core.Path.{subst, ap₂}
use native.Mathlib.Decide.{ℕ_discrete}
use native.Mathlib.Numerals.{add-one}
use join_operator_software_d.Prelude.{
  ℕ, zero, suc, ◌+◌, ◌-◌, ◌≤◌, ◌<◌, ◌≡◌, ◌≢◌, refl, sym, ap, ◌∙◌, arith, false, List, [], ◌∷◌, ◌++◌,
  append_assoc, if◌then◌else◌, ◌==◌, ==_iff, ==_eq_false, length, length-append, length-set, get_or,
  get_or-append, get_or-append_left, set-append, get_or-set_self, get_or-set_ne, set, replicate,
}
use join_operator_software_d.Structs.{PSumTuple}
use join_operator_software_d.Index.{no_psum}
use join_operator_software_d.Reorder.{skip_empty, Layout, psum_loop}

module _ (hist : List ℕ) where
  -- Where the bucket of a hash starts.
  unfoldable pub start : ℕ → ℕ
  start zero = 0
  start (suc h) = start h + get_or hist h 0

  -- The hashes that have tuples, among the `n` from `i` on.
  unfoldable pub kept : ℕ → ℕ → List ℕ
  kept i zero = []
  kept i (suc n) = let rest = kept (i + 1) n in if get_or hist i 0 == 0 then rest else i ∷ rest

  -- Their entries of the prefix sums.
  abbrev pub entries : List ℕ → List PSumTuple
  entries [] = []
  entries (h ∷ hs) = record { h1_res = h; offset = start h } ∷ entries hs

  -- `helpPSum` is filled below `j`.
  abbrev pub Filled : List ℕ → ℕ → Type 0
  Filled help j = (g : ℕ) → g < j → get_or help g 0 ≡ start g

pub start_zero : (hist : List ℕ) → start hist 0 ≡ 0
unfolding start
start_zero hist = refl

pub start_next : (hist : List ℕ) (h : ℕ) → start hist (h + 1) ≡ start hist h + get_or hist h 0
unfolding start
start_next hist h = ap (start hist) (add-one h)

pub set-Filled :
    (hist help : List ℕ) (j v : ℕ)
    → j < length help
    → v ≡ start hist j
    → Filled hist help j
    → Filled hist (set help j v) (j + 1)
set-Filled hist help j v lt e f g g_lt = elim (ℕ_discrete j g) [
  | yes same ↦
      subst (λ (k : ℕ). get_or (set help j v) k 0 ≡ start hist k) same
        (get_or-set_self help j v 0 lt ∙ e)
  | no ne ↦ get_or-set_ne help j g v 0 ne ∙ f g (omega (arith, g_lt, ne))
]

-- Where the loop over empty buckets stops: at `h`, with `rest` the hashes behind it.
pub record Skipped (hist : List ℕ) (j n h : ℕ) (rest help : List ℕ) (s : ℕ × List ℕ) : Type 0 where
  pub stops : s.0 ≡ h
  pub below : h < j + n
  pub behind : kept hist (h + 1) (j + n - (h + 1)) ≡ rest
  pub not_empty : get_or hist h 0 ≢ 0
  pub level : start hist h ≡ start hist j
  pub from_j : j ≤ h
  pub sized : length s.1 ≡ length help
  pub filled : Filled hist s.1 h

pub skip_empty-Skipped :
    (hist : List ℕ) (n j temp h : ℕ) (rest help : List ℕ)
    → kept hist j n ≡ h ∷ rest
    → temp ≡ start hist j
    → j + n ≤ length help
    → Filled hist help j
    → Skipped hist j n h rest help (skip_empty n hist temp (j, help))
unfolding skip_empty kept
skip_empty-Skipped hist zero j temp h rest help k t le f = cc
skip_empty-Skipped hist (suc n) j temp h rest help k t le f =
    elim (ℕ_discrete (get_or hist j 0) 0) [
      | yes e ↦
          let kept_on = rw ((==_iff (get_or hist j 0) 0).1 e) at k in
          let up = start_next hist j in
          let rec =
            skip_empty-Skipped hist n (j + 1) temp h rest (set help j temp) kept_on
              (omega (arith, t, up, e)) (omega (arith, le, length-set help j temp))
              (set-Filled hist help j temp (omega (arith, le)) t f) in
          let same : j + 1 + n - (h + 1) ≡ j + suc n - (h + 1) = omega arith in
          rw ((==_iff (get_or hist j 0) 0).1 e) (record {
            stops = rec.stops;
            below = omega (arith, rec.below);
            behind = ap (kept hist (h + 1)) (sym same) ∙ rec.behind;
            not_empty = rec.not_empty;
            level = omega (arith, rec.level, up, e);
            from_j = omega (arith, rec.from_j);
            sized = rec.sized ∙ length-set help j temp;
            filled = rec.filled;
          })
      | no ne ↦
          let here = rw (==_eq_false (get_or hist j 0) 0 ne) at k in
          let head_eq : j ≡ h = cc here in
          let tail_eq : kept hist (j + 1) n ≡ rest = cc here in
          let same : j + suc n - (j + 1) ≡ n = omega arith in
          rw (==_eq_false (get_or hist j 0) 0 ne) (
            subst (λ (m : ℕ). Skipped hist j (suc n) m rest help (j, help)) head_eq
              (record {
                stops = refl;
                below = omega arith;
                behind = ap (kept hist (j + 1)) same ∙ tail_eq;
                not_empty = ne;
                level = refl;
                from_j = omega arith;
                sized = refl;
                filled = f;
              }))
    ]

-- The state before a round of the loop over the buckets: `done` are the entries so far, and `hs` the
-- hashes that are left.
pub record Pending (hist : List ℕ) (range : ℕ) (hs : List ℕ) (i : ℕ) (done : List PSumTuple)
    (l : Layout) : Type 0 where
  pub todo : kept hist l.j (range - l.j) ≡ hs
  pub psum_eq : l.psum ≡ done ++ replicate (length hs) no_psum
  pub counted : i ≡ length done
  pub positive : 0 < i
  pub last_start : (get_or done (i - 1) no_psum).offset ≡ start hist l.prev_j
  pub previous : l.j ≡ l.prev_j + 1
  pub in_range : l.j ≤ range
  pub level : 0 < length hs → l.temp ≡ start hist l.j
  pub sized : length l.help_psum ≡ range
  pub filled : Filled hist l.help_psum l.j

-- What the loops leave.
pub record Laid (hist : List ℕ) (range : ℕ) (es : List PSumTuple) (l : Layout) : Type 0 where
  pub psum_eq : l.psum ≡ es
  pub in_range : l.j ≤ range
  pub sized : length l.help_psum ≡ range
  pub filled : Filled hist l.help_psum l.j
  pub rest_empty : kept hist l.j (range - l.j) ≡ []

pub same_end : (range j h : ℕ) → j ≤ range → range - (h + 1) ≡ j + (range - j) - (h + 1)
same_end range j h le = omega arith

one_back : (i n : ℕ) → i ≡ n → i + 1 - 1 ≡ n
one_back i n e = omega arith

pub psum_loop-Laid :
    (hist : List ℕ) (range buckets : ℕ) (hs : List ℕ) (i : ℕ) (done : List PSumTuple) (l : Layout)
    → buckets ≡ i + length hs
    → Pending hist range hs i done l
    → Laid hist range (done ++ entries hist hs) (psum_loop (length hs) i range buckets hist l)
unfolding psum_loop
psum_loop-Laid hist range buckets [] i done l b p = record {
  psum_eq = p.psum_eq;
  in_range = p.in_range;
  sized = p.sized;
  filled = p.filled;
  rest_empty = p.todo;
}
psum_loop-Laid hist range buckets (h ∷ rest) i done l b p =
    let sk =
      skip_empty-Skipped hist (range - l.j) l.j l.temp h rest l.help_psum p.todo
        (p.level (omega arith)) (omega (arith, p.sized, p.in_range)) p.filled in
    let s = skip_empty (range - l.j) hist l.temp (l.j, l.help_psum) in
    let offset = (get_or l.psum (i - 1) no_psum).offset + get_or hist l.prev_j 0 in
    let x : PSumTuple = record { h1_res = s.0; offset = offset } in
    let inside : h < range = omega (arith, sk.below, p.in_range) in
    let go_on : (s.0 == range) ≡ false =
      ==_eq_false s.0 range (λ e. absurd (omega (arith, e, sk.stops, inside))) in
    let last : get_or l.psum (i - 1) no_psum ≡ get_or done (i - 1) no_psum =
      ap (λ (ps : List PSumTuple). get_or ps (i - 1) no_psum) p.psum_eq
      ∙ get_or-append_left done (replicate (suc (length rest)) no_psum) (i - 1) no_psum
          (omega (arith, p.counted, p.positive)) in
    let offset_eq : offset ≡ start hist h = omega (
      arith,
      ap (λ (t : PSumTuple). t.offset) last,
      p.last_start,
      start_next hist l.prev_j,
      ap (start hist) p.previous,
      sk.level,
    ) in
    let x_eq : x ≡ record { h1_res = h; offset = start hist h } =
      ap₂ (λ (a b : ℕ). record { h1_res = a; offset = b }) sk.stops offset_eq in
    let next : Layout = record {
      psum = set l.psum i x;
      help_psum = set s.1 s.0 offset;
      j = s.0 + 1;
      prev_j = s.0;
      temp = if i == buckets - 1 then l.temp else l.temp + get_or hist s.0 0;
    } in
    rw go_on (
      subst
        (λ (es : List PSumTuple).
          Laid hist range es (psum_loop (length rest) (i + 1) range buckets hist next))
        (append_assoc done (x ∷ []) (entries hist rest)
          ∙ ap (λ (y : PSumTuple). done ++ y ∷ entries hist rest) x_eq)
        (psum_loop-Laid hist range buckets rest (i + 1) (done ++ x ∷ []) next (omega (arith, b))
          (record {
            todo =
                ap (λ (m : ℕ). kept hist (m + 1) (range - (m + 1))) sk.stops
                ∙ ap (kept hist (h + 1)) (same_end range l.j h p.in_range)
                ∙ sk.behind;
            psum_eq =
                ap₂ (λ (ps : List PSumTuple) (k : ℕ). set ps k x) p.psum_eq p.counted
                ∙ set-append done no_psum (replicate (length rest) no_psum) x
                ∙ sym (append_assoc done (x ∷ []) (replicate (length rest) no_psum));
            counted = omega (arith, p.counted, length-append {0} done (x ∷ []));
            positive = omega arith;
            last_start =
                ap (λ (k : ℕ). (get_or (done ++ x ∷ []) k no_psum).offset)
                  (one_back i (length done) p.counted)
                ∙ ap (λ (t : PSumTuple). t.offset) (get_or-append done x [] no_psum)
                ∙ offset_eq
                ∙ ap (start hist) (sym sk.stops);
            previous = refl;
            in_range = omega (arith, sk.stops, inside);
            level = λ more.
                rw (==_eq_false i (buckets - 1) (λ e. absurd (omega (arith, e, b, more)))) (
                  omega (
                    arith,
                    p.level (omega arith),
                    sk.level,
                    ap (start hist) sk.stops,
                    start_next hist s.0,
                  ));
            sized = length-set s.1 s.0 offset ∙ sk.sized ∙ p.sized;
            filled =
                set-Filled hist s.1 s.0 offset (omega (arith, sk.stops, sk.sized, p.sized, inside))
                  (offset_eq ∙ ap (start hist) (sym sk.stops))
                  (subst (Filled hist s.1) (sym sk.stops) sk.filled);
          })))
