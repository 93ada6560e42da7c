-- ===== src/Execution/Filtering.antt =====
-- src/I_O_Receiver.c: what the filters of one relation leave, one after another.
use native.Mathlib.Omega.{arith}
use mathlib.Core.Bool.{false≢true}
use mathlib.Core.Path.{subst}
use join_operator_software_d.Prelude.{
  ℕ, ◌≤◌, ◌≡◌, ◌↔◌, refl, ap, ◌∙◌, Bool, true, false, ◌&&◌, List, [], ◌∷◌, length, get_or, All,
}
use join_operator_software_d.Query.{Filter}
use join_operator_software_d.Inter.{initialise_head}
use join_operator_software_d.Joint.{passes, worker_f}
use join_operator_software_d.Joint.Selection.{
  survivors, survivors-Selects, Chooses, Selects-Chooses,
}
use join_operator_software_d.Joint.Filters.{Admits, passes-Admits}
use join_operator_software_d.Joint.Solo.{
  solo, passing, passing-survivors, length-survivors, worker_f-solo, worker_f-first,
}
use join_operator_software_d.Execution.{perform_filters}

-- The filters are on the relation.
abbrev pub FiltersOf : ℕ → ℕ → List Filter → Type 0
FiltersOf rel rows = All (λ (p : Filter). (p.participant.rel ≡ rel) × (p.participant.rows ≡ rows))

-- Row `k` passes all filters.
abbrev pub AdmitsAll : List Filter → ℕ → Type 0
AdmitsAll preds k = All (λ (p : Filter). Admits p (get_or p.participant.col k 0)) preds

all_pass : (ℕ → Bool) → List Filter → ℕ → Bool
all_pass t [] k = t k
all_pass t (p ∷ preds) k = all_pass (λ j. t j && passes p j) preds k

perform_filters-solo :
    (preds : List Filter) (rel rows : ℕ) (t : ℕ → Bool)
    → FiltersOf rel rows preds
    → perform_filters preds (solo rel (survivors t 0 rows))
      ≡ solo rel (survivors (all_pass t preds) 0 rows)
unfolding perform_filters all_pass
perform_filters-solo [] rel rows t of = refl
perform_filters-solo (p ∷ preds) rel rows t of =
    let ks = survivors t 0 rows in
    let room : length ks ≤ p.participant.rows = omega (arith, length-survivors t 0 rows, of.0.1) in
    let one =
      subst
        (λ (r : ℕ).
          perform_filters preds (worker_f p (solo r ks))
          ≡ perform_filters preds (solo r (passing (passes p) ks)))
        of.0.0 (ap (perform_filters preds) (worker_f-solo p ks room)) in
    one
    ∙ ap (λ (l : List ℕ). perform_filters preds (solo rel l))
        (passing-survivors (passes p) t 0 rows)
    ∙ perform_filters-solo preds rel rows (λ j. t j && passes p j) of.1

and-true : (a b : Bool) → ((a && b) ≡ true) ↔ ((a ≡ true) × (b ≡ true))
and-true true b = (λ e. (refl, e), λ e. e.1)
and-true false b = (λ e. (e, absurd (false≢true e)), λ e. e.0)

all_pass-AdmitsAll :
    (t : ℕ → Bool) (preds : List Filter) (k : ℕ)
    → (all_pass t preds k ≡ true) ↔ ((t k ≡ true) × AdmitsAll preds k)
unfolding all_pass
all_pass-AdmitsAll t [] k = (λ e. (e, tt), λ e. e.0)
all_pass-AdmitsAll t (p ∷ preds) k =
    let rest = all_pass-AdmitsAll (λ j. t j && passes p j) preds k in
    let both = and-true (t k) (passes p k) in
    let here = passes-Admits p k in
    (
      λ e. let later = rest.0 e in let now = both.0 later.0 in (now.0, (here.0 now.1, later.1)),
      λ e. rest.1 (both.1 (e.0, here.1 e.1.0), e.1.1),
    )

-- From no intermediate on, filters of one relation, of which there is one at least, leave a single
-- intermediate, which has the relation as its one column, with exactly the rows of the relation that
-- pass all the filters, each once and in order.
pub perform_filters-AdmitsAll :
    (pred : Filter) (preds : List Filter)
    → FiltersOf pred.participant.rel pred.participant.rows preds
    → (ks : List ℕ) × Chooses pred.participant.rows (AdmitsAll (pred ∷ preds)) ks
      × (perform_filters (pred ∷ preds) initialise_head ≡ solo pred.participant.rel ks)
unfolding perform_filters
perform_filters-AdmitsAll pred preds of =
    let r = pred.participant in
    let t = all_pass (passes pred) preds in
    (
      survivors t 0 r.rows,
      Selects-Chooses r.rows t (AdmitsAll (pred ∷ preds)) (survivors t 0 r.rows)
          (λ k.
            let all = all_pass-AdmitsAll (passes pred) preds k in
            let here = passes-Admits pred k in
            (λ e. (here.0 (all.0 e).0, (all.0 e).1), λ e. all.1 (here.1 e.0, e.1)))
          (survivors-Selects t r.rows),
      ap (perform_filters preds) (worker_f-first pred)
          ∙ perform_filters-solo preds r.rel r.rows (passes pred) of,
    )
