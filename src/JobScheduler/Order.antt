-- ===== src/JobScheduler/Order.antt =====
-- src/jobScheduler.c: in every run of the threads the queue is in one thread's hands, and the jobs come
-- out in the order in which they went in.
use mathlib.Core.Path.{subst}
use join_operator_software_d.Prelude.{
  Bool, true, false, if◌then◌else◌, ◌==◌, ℕ, zero, suc, ◌<◌, ◌≡◌, ◌≢◌, refl, sym, ap, ◌∙◌, arith,
  Option, some, List, [], ◌∷◌, ◌++◌, append_assoc, length, length-append, get_or, set, replicate,
  weigh,
}
use join_operator_software_d.JobScheduler.{
  JobScheduler, initialise_scheduler, exit_write, exit_read, insert_in_queue, pop_from_queue, Phase,
  asleep_write, asleep_read, idle, to_insert, inserted, to_pop, popped, gone, System,
}
use join_operator_software_d.JobScheduler.Phases.{
  is_writer, is_reader, is_to_pop, IsOrderly, IsOut, moves, to_pop_le_reader,
}
use join_operator_software_d.JobScheduler.Runs.{
  Step, enters_write, inserts, exits_write, enters_read, pops, exits_read, shuts_down, leaves,
  sleeps_write, wakes_write, sleeps_read, wakes_read, leaves_asleep, taken_with, after_read,
  Reachable, starts, goes_on,
}
use join_operator_software_d.JobScheduler.Gates.{enter_read_in}
use join_operator_software_d.JobScheduler.Entering.{enters_write-IsOrderly, enters_read-IsOrderly}
use join_operator_software_d.JobScheduler.Queue.{insert_in_queue-jobs, pop_from_queue-Popped}

inserts-IsOrderly :
    (s : System) (i job : ℕ)
    → i < length s.threads
    → get_or s.threads i gone ≡ to_insert job
    → IsOrderly s
    → IsOrderly (record s {
      scheduler = insert_in_queue job s.scheduler;
      threads = set s.threads i inserted;
      sent = s.sent ++ job ∷ [];
    })
inserts-IsOrderly s i job lt e v =
    let old = to_insert job in
    subst
      (λ (t : JobScheduler).
        IsOrderly (record s {
          scheduler = t;
          threads = set s.threads i inserted;
          sent = s.sent ++ job ∷ [];
        }))
      (sym (insert_in_queue-jobs job s.scheduler v.sized))
      (record {
        writers = omega (arith, v.writers, moves is_writer s i old inserted lt e);
        readers = omega (arith, v.readers, moves is_reader s i old inserted lt e);
        exclusive = v.exclusive;
        provided = omega (arith, v.provided, moves is_to_pop s i old inserted lt e);
        sized = omega (arith, v.sized, length-append {0} s.scheduler.jobs (job ∷ []));
        in_order =
            ap (λ (js : List ℕ). js ++ job ∷ []) v.in_order
            ∙ append_assoc s.taken s.scheduler.jobs (job ∷ []);
      })

pops-IsOrderly :
    (s : System) (i : ℕ)
    → i < length s.threads
    → get_or s.threads i gone ≡ to_pop
    → IsOrderly s
    → IsOrderly (record s {
      scheduler = (pop_from_queue s.scheduler).1;
      threads = set s.threads i (popped (pop_from_queue s.scheduler).0);
      taken = taken_with s.taken (pop_from_queue s.scheduler).0;
    })
pops-IsOrderly s i lt e v =
    let some_size : s.scheduler.size ≢ 0 =
      λ z. absurd (omega (arith, z, v.provided, moves is_to_pop s i to_pop gone lt e)) in
    let p = pop_from_queue-Popped s.scheduler s.scheduler.jobs refl v.sized some_size in
    let new = popped (some p.job) in
    subst
      (λ (q : Option ℕ × JobScheduler). IsOrderly (record s {
        scheduler = q.1;
        threads = set s.threads i (popped q.0);
        taken = taken_with s.taken q.0;
      }))
      (sym p.result)
      (record {
        writers = omega (arith, v.writers, moves is_writer s i to_pop new lt e);
        readers = omega (arith, v.readers, moves is_reader s i to_pop new lt e);
        exclusive = v.exclusive;
        provided = omega (
          arith,
          v.exclusive,
          v.readers,
          to_pop_le_reader s.threads,
          moves is_to_pop s i to_pop new lt e,
        );
        sized = omega (arith, v.sized, ap length p.queued);
        in_order =
            v.in_order
            ∙ ap (λ (js : List ℕ). s.taken ++ js) p.queued
            ∙ sym (append_assoc s.taken (p.job ∷ []) p.rest);
      })

-- A thread that is not in changes its phase for another in which it is not in.
out-IsOrderly :
    (s : System) (i : ℕ) (old new : Phase)
    → i < length s.threads
    → get_or s.threads i gone ≡ old
    → IsOut old
    → IsOut new
    → IsOrderly s
    → IsOrderly (record s { threads = set s.threads i new })
out-IsOrderly s i old new lt e was is v = record {
  writers = omega (arith, v.writers, was.no_write, is.no_write, moves is_writer s i old new lt e);
  readers = omega (arith, v.readers, was.no_read, is.no_read, moves is_reader s i old new lt e);
  exclusive = v.exclusive;
  provided = omega (arith, v.provided, was.no_pop, is.no_pop, moves is_to_pop s i old new lt e);
  sized = v.sized;
  in_order = v.in_order;
}

-- Who comes, sleeps or has gone is not in.
idle-IsOut : IsOut idle
idle-IsOut = record { no_write = refl; no_read = refl; no_pop = refl }

asleep_write-IsOut : (job : ℕ) → IsOut (asleep_write job)
asleep_write-IsOut job = record { no_write = refl; no_read = refl; no_pop = refl }

asleep_read-IsOut : IsOut asleep_read
asleep_read-IsOut = record { no_write = refl; no_read = refl; no_pop = refl }

gone-IsOut : IsOut gone
gone-IsOut = record { no_write = refl; no_read = refl; no_pop = refl }

out_after_read :
    (b : Bool)
    → let p = if b then gone else idle in (is_writer p ≡ 0) × (is_reader p ≡ 0) × (is_to_pop p ≡ 0)
out_after_read true = (refl, refl, refl)
out_after_read false = (refl, refl, refl)

exits_read-IsOrderly :
    (s : System) (i : ℕ) (job : Option ℕ)
    → i < length s.threads
    → get_or s.threads i gone ≡ popped job
    → IsOrderly s
    → IsOrderly (record s {
      scheduler = exit_read s.scheduler;
      threads = set s.threads i (after_read s.scheduler);
    })
unfolding exit_read
exits_read-IsOrderly s i job lt e v =
    let new = after_read s.scheduler in
    let out = out_after_read (s.scheduler.shutdown == 1) in
    record {
      writers = omega (arith, v.writers, moves is_writer s i (popped job) new lt e, out.0);
      readers = omega (arith, v.readers, moves is_reader s i (popped job) new lt e, out.1);
      exclusive = omega (arith, v.exclusive);
      provided = omega (arith, v.provided, moves is_to_pop s i (popped job) new lt e, out.2);
      sized = v.sized;
      in_order = v.in_order;
    }

Step-IsOrderly : (s t : System) → Step s t → IsOrderly s → IsOrderly t
unfolding exit_write exit_read
Step-IsOrderly s t (enters_write i job sch lt e ok) v =
    enters_write-IsOrderly s i job idle sch lt e idle-IsOut ok v
Step-IsOrderly s t (sleeps_write i job lt e busy) v =
    out-IsOrderly s i idle (asleep_write job) lt e idle-IsOut (asleep_write-IsOut job) v
Step-IsOrderly s t (wakes_write i job sch lt e ok) v =
    enters_write-IsOrderly s i job (asleep_write job) sch lt e (asleep_write-IsOut job) ok v
Step-IsOrderly s t (inserts i job lt e) v = inserts-IsOrderly s i job lt e v
Step-IsOrderly s t (exits_write i lt e) v = record {
  writers = omega (arith, v.writers, moves is_writer s i inserted idle lt e);
  readers = omega (arith, v.readers, moves is_reader s i inserted idle lt e);
  exclusive = omega (arith, v.exclusive);
  provided = omega (arith, v.provided, moves is_to_pop s i inserted idle lt e);
  sized = v.sized;
  in_order = v.in_order;
}
Step-IsOrderly s t (enters_read i sch lt e ok) v =
    enters_read-IsOrderly s i idle sch lt e idle-IsOut (enter_read_in s.scheduler sch ok) v
Step-IsOrderly s t (sleeps_read i lt e busy) v =
    out-IsOrderly s i idle asleep_read lt e idle-IsOut asleep_read-IsOut v
Step-IsOrderly s t (wakes_read i sch lt e ok) v =
    enters_read-IsOrderly s i asleep_read sch lt e asleep_read-IsOut ok v
Step-IsOrderly s t (pops i lt e) v = pops-IsOrderly s i lt e v
Step-IsOrderly s t (exits_read i job lt e) v = exits_read-IsOrderly s i job lt e v
Step-IsOrderly s t shuts_down v = record {
  writers = v.writers;
  readers = v.readers;
  exclusive = v.exclusive;
  provided = v.provided;
  sized = v.sized;
  in_order = v.in_order;
}
Step-IsOrderly s t (leaves i lt e down) v = out-IsOrderly s i idle gone lt e idle-IsOut gone-IsOut v
Step-IsOrderly s t (leaves_asleep i lt e down) v =
    out-IsOrderly s i asleep_read gone lt e asleep_read-IsOut gone-IsOut v

-- None of the threads that start is in.
weigh-start : (f : Phase → ℕ) (n : ℕ) → f idle ≡ 0 → weigh f (replicate n idle) ≡ 0
weigh-start f zero z = refl
weigh-start f (suc n) z = omega (arith, z, weigh-start f n z)

-- In every state that `n` threads can reach by steps in any order, the counters count the threads
-- that write and that read, of which there is one at most; there are as many jobs in the queue as
-- threads that have come to take one, or more; and the jobs taken, with those in the queue behind
-- them, are the jobs sent, in their order.
pub Reachable-IsOrderly : (n : ℕ) (s : System) → Reachable n s → IsOrderly s
unfolding initialise_scheduler
Reachable-IsOrderly n s starts = record {
  writers = weigh-start is_writer n refl;
  readers = weigh-start is_reader n refl;
  exclusive = omega arith;
  provided = omega (arith, weigh-start is_to_pop n refl);
  sized = refl;
  in_order = refl;
}
Reachable-IsOrderly n t (goes_on {s} r step) = Step-IsOrderly s t step (Reachable-IsOrderly n s r)
