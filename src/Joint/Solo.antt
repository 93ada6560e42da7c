-- ===== src/Joint/Solo.antt =====
-- src/jointPerformer.c: filters on a relation that is the only one so far.
use native.Mathlib.Omega.{arith}
use mathlib.Core.List.{map}
use mathlib.Core.Path.{subst, ap₂}
use join_operator_software_d.Prelude.{
  ℕ, zero, suc, ◌+◌, ◌≤◌, ◌≡◌, refl, sym, ap, ◌∙◌, inl, inr, Bool, true, false, Bool-cases, ◌&&◌,
  if◌then◌else◌, none, some, List, [], ◌∷◌, ◌++◌, append_assoc, length, length-append, get_or,
  get_or-append, take_all,
}
use join_operator_software_d.Query.{Filter}
use join_operator_software_d.Inter.{
  HeadInter, no_inter, initialise_head, initialise_inter, push_inter, create_inter_self_join,
}
use join_operator_software_d.Inter.Columns.{length-map}
use join_operator_software_d.Inter.Updates.{update_inter_self_join_lem}
use join_operator_software_d.Joint.{passes, worker_f}
use join_operator_software_d.Joint.Places.{
  FirstNode, IsPlace, find_node-node_of, rows_of_rel-FirstColumn,
}
use join_operator_software_d.Joint.Selection.{survivors, keep_where_lem}

-- The numbers of a list that pass.
pub passing : (ℕ → Bool) → List ℕ → List ℕ
passing t [] = []
passing t (k ∷ ks) = let rest = passing t ks in if t k then k ∷ rest else rest

pub passing-survivors :
    (t u : ℕ → Bool) (i n : ℕ) → passing t (survivors u i n) ≡ survivors (λ k. u k && t k) i n
unfolding passing survivors
passing-survivors t u i zero = refl
passing-survivors t u i (suc n) =
    let rest = passing-survivors t u (i + 1) n in
    elim (Bool-cases (u i)) [
      | inl e ↦ rw e (ap (λ (r : List ℕ). if t i then i ∷ r else r) rest)
      | inr e ↦ rw e rest
    ]

pub length-survivors : (u : ℕ → Bool) (i n : ℕ) → length (survivors u i n) ≤ n
unfolding survivors
length-survivors u i zero = omega arith
length-survivors u i (suc n) = ground (arith, length-survivors u (i + 1) n)

map-survivors :
    (t : ℕ → Bool) (before ks : List ℕ) (i : ℕ)
    → i ≡ length before
    → map
        (λ j. get_or (before ++ ks) j 0)
        (survivors (λ j. t (get_or (before ++ ks) j 0)) i (length ks))
      ≡ passing t ks
unfolding survivors passing
map-survivors t before [] i at = refl
map-survivors t before (k ∷ ks) i at =
    let here : get_or (before ++ k ∷ ks) i 0 ≡ k =
      ap (λ (m : ℕ). get_or (before ++ k ∷ ks) m 0) at ∙ get_or-append before k ks 0 in
    let later =
      subst
        (λ (all : List ℕ).
          map (λ j. get_or all j 0) (survivors (λ j. t (get_or all j 0)) (i + 1) (length ks))
          ≡ passing t ks)
        (append_assoc before (k ∷ []) ks)
        (map-survivors t (before ++ k ∷ []) ks (i + 1)
          (omega (arith, at, length-append {0} before (k ∷ [])))) in
    elim (Bool-cases (t k)) [
      | inl e ↦
          let pass : t (get_or (before ++ k ∷ ks) i 0) ≡ true = ap t here ∙ e in
          rw (pass, e) (rw here (ap (λ (r : List ℕ). k ∷ r) later))
      | inr e ↦
          let fail : t (get_or (before ++ k ∷ ks) i 0) ≡ false = ap t here ∙ e in rw (fail, e) later
    ]

-- One intermediate with one column.
abbrev pub solo : ℕ → List ℕ → HeadInter
solo rel ks = record {
  num_of_intermediates = 1;
  nodes =
      record {
        num_of_cols = 1;
        numb_of_rows = length ks;
        row_ids = ks ∷ [];
        joined_rels = rel ∷ [];
      }
      ∷ [];
}

solo-FirstNode : (rel : ℕ) (ks : List ℕ) → FirstNode (solo rel ks) rel 0 0
solo-FirstNode rel ks = record {
  inside = omega arith;
  column = record {
    within = omega arith;
    held = omega arith;
    is_rel = refl;
    others = λ j lt. absurd (omega (arith, lt));
  };
  before = λ k lt. absurd (omega (arith, lt));
}

pub worker_f-solo :
    (pred : Filter) (ks : List ℕ)
    → length ks ≤ pred.participant.rows
    → worker_f pred (solo pred.participant.rel ks)
      ≡ solo pred.participant.rel (passing (passes pred) ks)
unfolding worker_f
worker_f-solo pred ks room =
    let r = pred.participant in
    let hq = solo r.rel ks in
    let first = solo-FirstNode r.rel ks in
    let test = λ (i : ℕ). passes pred (get_or ks i 0) in
    let picked = map-survivors (passes pred) [] ks 0 refl in
    rw
      (
        worker_f,
        find_node-node_of hq r.rel (some (0, 0)) first,
        rows_of_rel-FirstColumn (get_or hq.nodes 0 no_inter) r.rel 0 first.column,
        keep_where_lem r.rows test (length ks) room,
      )
      ((update_inter_self_join_lem hq 0 (survivors test 0 (length ks))
          (record { cols = refl; rels = refl; even = (refl, tt) })).0
        ∙ ap₂
            (λ (n : ℕ) (cs : List ℕ). record {
              num_of_intermediates = 1;
              nodes =
                  record {
                    num_of_cols = 1;
                    numb_of_rows = n;
                    row_ids = cs ∷ [];
                    joined_rels = r.rel ∷ [];
                  }
                  ∷ [];
            })
            (sym (length-map (λ j. get_or ks j 0) (survivors test 0 (length ks)))
              ∙ ap length picked)
            picked)

nowhere : (rel : ℕ) → IsPlace initialise_head rel none
unfolding initialise_head
nowhere rel k lt = absurd (omega (arith, lt))

pub worker_f-first :
    (pred : Filter)
    → worker_f pred initialise_head
      ≡ solo pred.participant.rel (survivors (passes pred) 0 pred.participant.rows)
unfolding worker_f create_inter_self_join
worker_f-first pred =
    let r = pred.participant in
    let ks = survivors (passes pred) 0 r.rows in
    rw
      (
        worker_f,
        find_node-node_of initialise_head r.rel none (nowhere r.rel),
        keep_where_lem r.rows (passes pred) r.rows (omega arith),
        take_all (length ks) ks refl,
      )
      (unfold push_inter initialise_inter initialise_head in refl)
