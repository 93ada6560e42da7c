-- ===== src/Tests/Threads.antt =====
-- Runs of two threads over the queue of jobs.
use native.Mathlib.Omega.{arith}
use join_operator_software_d.Prelude.{ℕ, ◌≤◌, refl, [], ◌∷◌}
use join_operator_software_d.JobScheduler.{
  System, initialise_scheduler, enter_write, idle, to_insert,
}
use join_operator_software_d.JobScheduler.Runs.{Reachable, starts, goes_on, enters_write, start}
use join_operator_software_d.JobScheduler.Progress.{Run, IsFree, Reachable-IsFree}

abbrev one_holds : System
one_holds = record {
  scheduler = record { writing = 1; reading = 0; shutdown = 0; size = 0; jobs = [] };
  threads = to_insert 7 ∷ idle ∷ [];
  sent = [];
  taken = [];
}

one_holds-Reachable : Reachable 2 one_holds
unfolding initialise_scheduler enter_write
one_holds-Reachable = goes_on {s = start 2} starts (
    enters_write 0 7 (record { writing = 1; reading = 0; shutdown = 0; size = 0; jobs = [] })
      (omega arith) refl refl)

Reachable-IsFree_example : (k : ℕ) × (t : System) × (k ≤ 2) × Run one_holds k t × IsFree t
Reachable-IsFree_example = Reachable-IsFree 2 one_holds one_holds-Reachable
