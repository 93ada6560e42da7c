-- ===== src/JobScheduler/Phases.antt =====
-- src/jobScheduler.c: the threads that are in, counted by their phases.
use join_operator_software_d.Prelude.{
  ℕ, zero, suc, ◌+◌, ◌≤◌, ◌<◌, ◌≡◌, sym, ap, ◌∙◌, arith, List, [], ◌∷◌, ◌++◌, length, get_or, set,
  weigh,
}
use join_operator_software_d.JobScheduler.{
  Phase, idle, asleep_write, asleep_read, to_insert, inserted, to_pop, popped, gone, System,
}

abbrev pub is_writer : Phase → ℕ
is_writer idle = 0
is_writer (asleep_write job) = 0
is_writer asleep_read = 0
is_writer (to_insert job) = 1
is_writer inserted = 1
is_writer to_pop = 0
is_writer (popped job) = 0
is_writer gone = 0

abbrev pub is_reader : Phase → ℕ
is_reader idle = 0
is_reader (asleep_write job) = 0
is_reader asleep_read = 0
is_reader (to_insert job) = 0
is_reader inserted = 0
is_reader to_pop = 1
is_reader (popped job) = 1
is_reader gone = 0

abbrev pub is_to_pop : Phase → ℕ
is_to_pop idle = 0
is_to_pop (asleep_write job) = 0
is_to_pop asleep_read = 0
is_to_pop (to_insert job) = 0
is_to_pop inserted = 0
is_to_pop to_pop = 1
is_to_pop (popped job) = 0
is_to_pop gone = 0

-- The counters count the threads that are in, of which there is one at most; a thread that came to
-- take a job finds one; and the jobs come out in the order in which they went in.
pub record IsOrderly (s : System) : Type 0 where
  pub writers : weigh is_writer s.threads ≡ s.scheduler.writing
  pub readers : weigh is_reader s.threads ≡ s.scheduler.reading
  pub exclusive : s.scheduler.writing + s.scheduler.reading ≤ 1
  pub provided : weigh is_to_pop s.threads ≤ s.scheduler.size
  pub sized : s.scheduler.size ≡ length s.scheduler.jobs
  pub in_order : s.sent ≡ s.taken ++ s.scheduler.jobs

-- A thread in this phase is not in.
pub record IsOut (p : Phase) : Type 0 where
  pub no_write : is_writer p ≡ 0
  pub no_read : is_reader p ≡ 0
  pub no_pop : is_to_pop p ≡ 0

weigh-set :
    (f : Phase → ℕ) (ps : List Phase) (i : ℕ) (p : Phase)
    → i < length ps
    → weigh f (set ps i p) + f (get_or ps i gone) ≡ weigh f ps + f p
weigh-set f [] i p lt = absurd (omega (arith, lt))
weigh-set f (q ∷ ps) zero p lt = omega arith
weigh-set f (q ∷ ps) (suc i) p lt = omega (arith, weigh-set f ps i p (omega (arith, lt)))

-- The change of a count when thread `i` goes from one phase to another.
pub moves :
    (f : Phase → ℕ) (s : System) (i : ℕ) (old new : Phase)
    → i < length s.threads
    → get_or s.threads i gone ≡ old
    → weigh f (set s.threads i new) + f old ≡ weigh f s.threads + f new
moves f s i old new lt e =
    ap (λ (p : Phase). weigh f (set s.threads i new) + f p) (sym e) ∙ weigh-set f s.threads i new lt

pub to_pop_le_reader : (ps : List Phase) → weigh is_to_pop ps ≤ weigh is_reader ps
to_pop_le_reader [] = omega arith
to_pop_le_reader (idle ∷ ps) = omega (arith, to_pop_le_reader ps)
to_pop_le_reader (asleep_write job ∷ ps) = omega (arith, to_pop_le_reader ps)
to_pop_le_reader (asleep_read ∷ ps) = omega (arith, to_pop_le_reader ps)
to_pop_le_reader (to_insert job ∷ ps) = omega (arith, to_pop_le_reader ps)
to_pop_le_reader (inserted ∷ ps) = omega (arith, to_pop_le_reader ps)
to_pop_le_reader (to_pop ∷ ps) = omega (arith, to_pop_le_reader ps)
to_pop_le_reader (popped job ∷ ps) = omega (arith, to_pop_le_reader ps)
to_pop_le_reader (gone ∷ ps) = omega (arith, to_pop_le_reader ps)
