-- ===== src/JobScheduler/Runs.antt =====
-- src/jobScheduler.c: the runs of the threads, as steps between which any thread may be next.
use join_operator_software_d.Prelude.{
  if◌then◌else◌, ◌==◌, ℕ, ◌<◌, ◌≡◌, Option, none, some, List, [], ◌∷◌, ◌++◌, length, get_or, set,
  replicate,
}
use join_operator_software_d.JobScheduler.{
  Phase, JobScheduler, initialise_scheduler, enter_write, exit_write, exits, waits, enters,
  enter_read, wake_read, exit_read, insert_in_queue, pop_from_queue, idle, asleep_write,
  asleep_read, to_insert, inserted, to_pop, popped, gone, System,
}

-- What a job that came out, if any, adds to those taken.
abbrev pub taken_with : List ℕ → Option ℕ → List ℕ
taken_with taken none = taken
taken_with taken (some job) = taken ++ job ∷ []

-- A thread that has read exits, without running its job, if the scheduler is shut down.
abbrev pub after_read : JobScheduler → Phase
after_read s = if s.shutdown == 1 then gone else idle

-- A step of thread `i`. `pthread_cond_wait` may return with or without a signal, so a thread that is
-- asleep may wake in any state; one that finds its condition false sleeps on, which is no step. The
-- signals change none of the fields and therefore add no step.
pub data Step (s : System) : System → Type 0 where
  enters_write :
      (i job : ℕ) (sch : JobScheduler)
      → i < length s.threads
      → get_or s.threads i gone ≡ idle
      → enter_write s.scheduler ≡ some sch
      → Step s (record s { scheduler = sch; threads = set s.threads i (to_insert job) })
  sleeps_write :
      (i job : ℕ)
      → i < length s.threads
      → get_or s.threads i gone ≡ idle
      → enter_write s.scheduler ≡ none
      → Step s (record s { threads = set s.threads i (asleep_write job) })
  wakes_write :
      (i job : ℕ) (sch : JobScheduler)
      → i < length s.threads
      → get_or s.threads i gone ≡ asleep_write job
      → enter_write s.scheduler ≡ some sch
      → Step s (record s { scheduler = sch; threads = set s.threads i (to_insert job) })
  inserts :
      (i job : ℕ)
      → i < length s.threads
      → get_or s.threads i gone ≡ to_insert job
      → Step s (record s {
        scheduler = insert_in_queue job s.scheduler;
        threads = set s.threads i inserted;
        sent = s.sent ++ job ∷ [];
      })
  exits_write :
      (i : ℕ)
      → i < length s.threads
      → get_or s.threads i gone ≡ inserted
      → Step s (record s { scheduler = exit_write s.scheduler; threads = set s.threads i idle })
  enters_read :
      (i : ℕ) (sch : JobScheduler)
      → i < length s.threads
      → get_or s.threads i gone ≡ idle
      → enter_read s.scheduler ≡ enters sch
      → Step s (record s { scheduler = sch; threads = set s.threads i to_pop })
  sleeps_read :
      (i : ℕ)
      → i < length s.threads
      → get_or s.threads i gone ≡ idle
      → enter_read s.scheduler ≡ waits
      → Step s (record s { threads = set s.threads i asleep_read })
  wakes_read :
      (i : ℕ) (sch : JobScheduler)
      → i < length s.threads
      → get_or s.threads i gone ≡ asleep_read
      → wake_read s.scheduler ≡ enters sch
      → Step s (record s { scheduler = sch; threads = set s.threads i to_pop })
  pops :
      (i : ℕ)
      → i < length s.threads
      → get_or s.threads i gone ≡ to_pop
      → Step s (record s {
        scheduler = (pop_from_queue s.scheduler).1;
        threads = set s.threads i (popped (pop_from_queue s.scheduler).0);
        taken = taken_with s.taken (pop_from_queue s.scheduler).0;
      })
  exits_read :
      (i : ℕ) (job : Option ℕ)
      → i < length s.threads
      → get_or s.threads i gone ≡ popped job
      → Step s (record s {
        scheduler = exit_read s.scheduler;
        threads = set s.threads i (after_read s.scheduler);
      })
  shuts_down : Step s (record s { scheduler = record s.scheduler { shutdown = 1 } })
  leaves :
      (i : ℕ)
      → i < length s.threads
      → get_or s.threads i gone ≡ idle
      → enter_read s.scheduler ≡ exits
      → Step s (record s { threads = set s.threads i gone })
  leaves_asleep :
      (i : ℕ)
      → i < length s.threads
      → get_or s.threads i gone ≡ asleep_read
      → wake_read s.scheduler ≡ exits
      → Step s (record s { threads = set s.threads i gone })

abbrev pub start : ℕ → System
start n = record {
  scheduler = initialise_scheduler;
  threads = replicate n idle;
  sent = [];
  taken = [];
}

-- The states that `n` threads can reach.
pub data Reachable (n : ℕ) : System → Type 0 where
  starts : Reachable n (start n)
  goes_on : {s t : System} → Reachable n s → Step s t → Reachable n t
