-- ===== src/JobScheduler.antt =====
-- src/jobScheduler.c: the queue of jobs, and the counters that let a thread in to write or to read.
pub mod Runs
pub mod Phases
pub mod Gates
pub mod Entering
pub mod Queue
pub mod Order
pub mod Progress
use join_operator_software_d.Prelude.{
  ℕ, zero, suc, ◌+◌, ◌-◌, Bool, true, false, ◌||◌, Option, none, some, List, [], ◌∷◌, ◌++◌,
  if◌then◌else◌, ◌==◌, ltb, drop,
}

-- The fields of `JobScheduler` that the queue's protocol reads and writes. A job is a number; the
-- list holds the jobs from `firstNode` to `lastNode`.
pub record JobScheduler : Type 0 where
  pub writing : ℕ
  pub reading : ℕ
  pub shutdown : ℕ
  pub size : ℕ
  pub jobs : List ℕ

unfoldable pub initialise_scheduler : JobScheduler
initialise_scheduler = record { writing = 0; reading = 0; shutdown = 0; size = 0; jobs = [] }

-- `none` where the thread waits.
unfoldable pub enter_write : JobScheduler → Option JobScheduler
enter_write s =
    if ltb 0 s.writing || ltb 0 s.reading then none else some (record s { writing = s.writing + 1 })

unfoldable pub exit_write : JobScheduler → JobScheduler
exit_write s = record s { writing = s.writing - 1 }

-- What a thread finds that comes to read: it exits, it waits, or it goes on.
pub data Entry : Type 0 where
  exits : Entry
  waits : Entry
  enters : JobScheduler → Entry

-- A round of the loop in `enterRead`, at first and after each wait.
unfoldable pub wake_read : JobScheduler → Entry
wake_read s =
    if ltb 0 s.writing || (ltb 0 s.reading || s.size == 0)
    then (if s.shutdown == 1 then exits else waits)
    else enters (record s { reading = s.reading + 1 })

unfoldable pub enter_read : JobScheduler → Entry
enter_read s = if s.shutdown == 1 then exits else wake_read s

unfoldable pub exit_read : JobScheduler → JobScheduler
exit_read s = record s { reading = s.reading - 1 }

unfoldable pub insert_in_queue : ℕ → JobScheduler → JobScheduler
insert_in_queue job s = record s {
  jobs = if s.size == 0 then job ∷ [] else s.jobs ++ job ∷ [];
  size = s.size + 1;
}

abbrev pub first_job : List ℕ → Option ℕ
first_job [] = none
first_job (job ∷ jobs) = some job

-- The job, or `none` for `NULL`.
unfoldable pub pop_from_queue : JobScheduler → Option ℕ × JobScheduler
pop_from_queue s = if s.size == 0 then (none, s) else (
  first_job s.jobs,
  record s { jobs = if s.size == 1 then [] else drop 1 s.jobs; size = s.size - 1 },
)

-- Where a thread is in `writeOnQueue` (`to_insert`, `inserted`) or in `readFromQueue` (`to_pop`,
-- `popped`), or in `pthread_cond_wait` (`asleep_write`, `asleep_read`).
pub data Phase : Type 0 where
  idle : Phase
  asleep_write : ℕ → Phase
  asleep_read : Phase
  to_insert : ℕ → Phase
  inserted : Phase
  to_pop : Phase
  popped : Option ℕ → Phase
  gone : Phase

-- The scheduler with its threads, and the jobs that have gone in and come out so far.
pub record System : Type 0 where
  pub scheduler : JobScheduler
  pub threads : List Phase
  pub sent : List ℕ
  pub taken : List ℕ
