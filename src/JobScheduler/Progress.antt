-- ===== src/JobScheduler/Progress.antt =====
-- src/jobScheduler.c: a thread that holds the queue can always give it back.
use native.Mathlib.Decide.{ℕ_discrete}
use join_operator_software_d.Prelude.{
  ℕ, zero, suc, ◌+◌, ◌≤◌, ◌<◌, ◌≡◌, refl, ap, arith, Option, List, [], ◌∷◌, ==_eq_false, length,
  length-set, get_or, get_or-set_self, weigh,
}
use join_operator_software_d.JobScheduler.{
  JobScheduler, exit_write, exit_read, insert_in_queue, pop_from_queue, Phase, idle, asleep_write,
  asleep_read, to_insert, inserted, to_pop, popped, gone, System,
}
use join_operator_software_d.JobScheduler.Phases.{is_writer, is_reader, IsOrderly}
use join_operator_software_d.JobScheduler.Runs.{
  Step, inserts, exits_write, pops, exits_read, Reachable,
}
use join_operator_software_d.JobScheduler.Order.{Reachable-IsOrderly}

-- A run of some steps.
pub data Run (s : System) : ℕ → System → Type 0 where
  stays : Run s 0 s
  then_step : {k : ℕ} {t u : System} → Run s k t → Step t u → Run s (suc k) u

-- Nobody holds the queue.
pub record IsFree (s : System) : Type 0 where
  pub no_writer : s.scheduler.writing ≡ 0
  pub no_reader : s.scheduler.reading ≡ 0

-- Where a thread stands that holds the queue.
data Holder (ps : List Phase) : Type 0 where
  before_insert : (i job : ℕ) → i < length ps → get_or ps i gone ≡ to_insert job → Holder ps
  after_insert : (i : ℕ) → i < length ps → get_or ps i gone ≡ inserted → Holder ps
  before_pop : (i : ℕ) → i < length ps → get_or ps i gone ≡ to_pop → Holder ps
  after_pop : (i : ℕ) (job : Option ℕ) → i < length ps → get_or ps i gone ≡ popped job → Holder ps

Holder-next : (p : Phase) (ps : List Phase) → Holder ps → Holder (p ∷ ps)
Holder-next p ps (before_insert i job lt e) = before_insert (suc i) job (omega (arith, lt)) e
Holder-next p ps (after_insert i lt e) = after_insert (suc i) (omega (arith, lt)) e
Holder-next p ps (before_pop i lt e) = before_pop (suc i) (omega (arith, lt)) e
Holder-next p ps (after_pop i job lt e) = after_pop (suc i) job (omega (arith, lt)) e

find-Holder : (ps : List Phase) → 0 < weigh is_writer ps + weigh is_reader ps → Holder ps
find-Holder [] lt = absurd (omega (arith, lt))
find-Holder (idle ∷ ps) lt = Holder-next idle ps (find-Holder ps (omega (arith, lt)))
find-Holder (asleep_write job ∷ ps) lt =
    Holder-next (asleep_write job) ps (find-Holder ps (omega (arith, lt)))
find-Holder (asleep_read ∷ ps) lt = Holder-next asleep_read ps (find-Holder ps (omega (arith, lt)))
find-Holder (to_insert job ∷ ps) lt = before_insert 0 job (omega arith) refl
find-Holder (inserted ∷ ps) lt = after_insert 0 (omega arith) refl
find-Holder (to_pop ∷ ps) lt = before_pop 0 (omega arith) refl
find-Holder (popped job ∷ ps) lt = after_pop 0 job (omega arith) refl
find-Holder (gone ∷ ps) lt = Holder-next gone ps (find-Holder ps (omega (arith, lt)))

weigh-at :
    (f : Phase → ℕ) (ps : List Phase) (i : ℕ) → i < length ps → f (get_or ps i gone) ≤ weigh f ps
weigh-at f [] i lt = absurd (omega (arith, lt))
weigh-at f (p ∷ ps) zero lt = omega arith
weigh-at f (p ∷ ps) (suc i) lt = omega (arith, weigh-at f ps i (omega (arith, lt)))

holds :
    (f : Phase → ℕ) (ps : List Phase) (i : ℕ) (p : Phase)
    → i < length ps
    → get_or ps i gone ≡ p
    → f p ≤ weigh f ps
holds f ps i p lt e = omega (arith, weigh-at f ps i lt, ap f e)

pop_keeps :
    (s : JobScheduler)
    → ((pop_from_queue s).1.writing ≡ s.writing) × ((pop_from_queue s).1.reading ≡ s.reading)
unfolding pop_from_queue
pop_keeps s = elim (ℕ_discrete s.size 0) [
  | yes e ↦ rw e (refl, refl)
  | no ne ↦ rw (==_eq_false s.size 0 ne) (refl, refl)
]

-- From every state that `n` threads can reach, a run of at most two steps leads to a state where
-- nobody writes to the queue or reads from it.
pub Reachable-IsFree :
    (n : ℕ) (s : System) → Reachable n s → (k : ℕ) × (t : System) × (k ≤ 2) × Run s k t × IsFree t
unfolding exit_write exit_read insert_in_queue
Reachable-IsFree n s past = by_holder (ℕ_discrete (s.scheduler.writing + s.scheduler.reading) 0)
  where
    v : IsOrderly s
    v = Reachable-IsOrderly n s past

    release : Holder s.threads → (k : ℕ) × (t : System) × (k ≤ 2) × Run s k t × IsFree t
    release (before_insert i job lt e) = (
      2,
      _,
      omega arith,
      then_step (then_step stays (inserts i job lt e)) (
          exits_write i (omega (arith, lt, length-set s.threads i inserted))
            (get_or-set_self s.threads i inserted gone lt)),
      record {
        no_writer = omega (arith, v.exclusive);
        no_reader =
            omega (arith, v.exclusive, v.writers, holds is_writer s.threads i (to_insert job) lt e);
      },
    )
    release (after_insert i lt e) = (
      1,
      _,
      omega arith,
      then_step stays (exits_write i lt e),
      record {
        no_writer = omega (arith, v.exclusive);
        no_reader =
            omega (arith, v.exclusive, v.writers, holds is_writer s.threads i inserted lt e);
      },
    )
    release (before_pop i lt e) =
        let job = (pop_from_queue s.scheduler).0 in
        let same = pop_keeps s.scheduler in
        (
          2,
          _,
          omega arith,
          then_step (then_step stays (pops i lt e)) (
              exits_read i job (omega (arith, lt, length-set s.threads i (popped job)))
                (get_or-set_self s.threads i (popped job) gone lt)),
          record {
            no_writer =
                omega
                  (arith, same, v.exclusive, v.readers, holds is_reader s.threads i to_pop lt e);
            no_reader = omega (arith, same, v.exclusive);
          },
        )
    release (after_pop i job lt e) = (
      1,
      _,
      omega arith,
      then_step stays (exits_read i job lt e),
      record {
        no_writer =
            omega (arith, v.exclusive, v.readers, holds is_reader s.threads i (popped job) lt e);
        no_reader = omega (arith, v.exclusive);
      },
    )

    by_holder :
        Dec (s.scheduler.writing + s.scheduler.reading ≡ 0)
        → (k : ℕ) × (t : System) × (k ≤ 2) × Run s k t × IsFree t
    by_holder (yes e) = (
      0,
      s,
      omega arith,
      stays,
      record { no_writer = omega (arith, e); no_reader = omega (arith, e) },
    )
    by_holder (no ne) = release (find-Holder s.threads (omega (arith, v.writers, v.readers, ne)))
