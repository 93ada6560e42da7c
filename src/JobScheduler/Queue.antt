-- ===== src/JobScheduler/Queue.antt =====
-- src/jobScheduler.c: what `insertInQueue` and `popFromQueue` make of the jobs.
use native.Mathlib.Decide.{ℕ_discrete}
use join_operator_software_d.Prelude.{
  ℕ, ◌+◌, ◌-◌, ◌≡◌, ◌≢◌, refl, sym, ◌∙◌, arith, ==_eq_false, some, List, [], ◌∷◌, ◌++◌, length,
}
use join_operator_software_d.JobScheduler.{JobScheduler, insert_in_queue, pop_from_queue}

length_zero : (js : List ℕ) → length js ≡ 0 → js ≡ []
length_zero [] h = refl
length_zero (j ∷ js) h = absurd (omega (arith, h))

pub insert_in_queue-jobs :
    (job : ℕ) (s : JobScheduler)
    → s.size ≡ length s.jobs
    → insert_in_queue job s ≡ record s { jobs = s.jobs ++ job ∷ []; size = s.size + 1 }
unfolding insert_in_queue
insert_in_queue-jobs job s h = elim (ℕ_discrete s.size 0) [
  | yes e ↦ let none_there : s.jobs ≡ [] = length_zero s.jobs (sym h ∙ e) in rw (e, none_there) refl
  | no ne ↦ rw (==_eq_false s.size 0 ne) refl
]

-- The first job of a queue that has one.
pub record Popped (s : JobScheduler) : Type 0 where
  pub job : ℕ
  pub rest : List ℕ
  pub queued : s.jobs ≡ job ∷ rest
  pub result : pop_from_queue s ≡ (some job, record s { jobs = rest; size = s.size - 1 })

pub pop_from_queue-Popped :
    (s : JobScheduler) (jobs : List ℕ)
    → s.jobs ≡ jobs
    → s.size ≡ length jobs
    → s.size ≢ 0
    → Popped s
unfolding pop_from_queue
pop_from_queue-Popped s [] e h ne = absurd (ne h)
pop_from_queue-Popped s (j ∷ []) e h ne = record {
  job = j;
  rest = [];
  queued = e;
  result = rw (e, h) refl;
}
pop_from_queue-Popped s (j ∷ k ∷ js) e h ne =
    let one : s.size ≢ 1 = λ f. absurd (omega (arith, f, h)) in
    record {
      job = j;
      rest = k ∷ js;
      queued = e;
      result = rw (==_eq_false s.size 0 ne, ==_eq_false s.size 1 one, e) refl;
    }
