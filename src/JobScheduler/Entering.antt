-- ===== src/JobScheduler/Entering.antt =====
-- src/jobScheduler.c: a thread that goes in, to write or to read, keeps the queue in order.
use native.Mathlib.Decide.{ℕ_discrete}
use mathlib.Core.Option.{some-injective, some-ne-none}
use mathlib.Core.Path.{subst}
use join_operator_software_d.Prelude.{ℕ, ◌+◌, ◌<◌, ◌≡◌, sym, ◌∙◌, arith, some, length, get_or, set}
use join_operator_software_d.JobScheduler.{
  JobScheduler, enter_write, enters, Phase, wake_read, to_insert, to_pop, gone, System,
}
use join_operator_software_d.JobScheduler.Phases.{
  is_writer, is_reader, is_to_pop, IsOrderly, IsOut, moves, to_pop_le_reader,
}
use join_operator_software_d.JobScheduler.Gates.{enter_write_free, enter_write_busy, wake_read_in}

pub enters_write-IsOrderly :
    (s : System) (i job : ℕ) (old : Phase) (sch : JobScheduler)
    → i < length s.threads
    → get_or s.threads i gone ≡ old
    → IsOut old
    → enter_write s.scheduler ≡ some sch
    → IsOrderly s
    → IsOrderly (record s { scheduler = sch; threads = set s.threads i (to_insert job) })
enters_write-IsOrderly s i job old sch lt e out ok v =
    elim (ℕ_discrete (s.scheduler.writing + s.scheduler.reading) 0) [
      | no busy ↦ absurd (some-ne-none sch (sym ok ∙ enter_write_busy s.scheduler busy))
      | yes free ↦
          let new = to_insert job in
          let into =
            some-injective (record s.scheduler { writing = s.scheduler.writing + 1 }) sch
              (sym (enter_write_free s.scheduler free) ∙ ok) in
          subst
            (λ (t : JobScheduler).
              IsOrderly (record s { scheduler = t; threads = set s.threads i (to_insert job) }))
            into
            (record {
              writers = omega (arith, v.writers, out.no_write, moves is_writer s i old new lt e);
              readers = omega (arith, v.readers, out.no_read, moves is_reader s i old new lt e);
              exclusive = omega (arith, free);
              provided = omega (arith, v.provided, out.no_pop, moves is_to_pop s i old new lt e);
              sized = v.sized;
              in_order = v.in_order;
            })
    ]

pub enters_read-IsOrderly :
    (s : System) (i : ℕ) (old : Phase) (sch : JobScheduler)
    → i < length s.threads
    → get_or s.threads i gone ≡ old
    → IsOut old
    → wake_read s.scheduler ≡ enters sch
    → IsOrderly s
    → IsOrderly (record s { scheduler = sch; threads = set s.threads i to_pop })
enters_read-IsOrderly s i old sch lt e out ok v =
    let inside = wake_read_in s.scheduler sch ok in
    subst
      (λ (t : JobScheduler).
        IsOrderly (record s { scheduler = t; threads = set s.threads i to_pop }))
      inside.2
      (record {
        writers = omega (arith, v.writers, out.no_write, moves is_writer s i old to_pop lt e);
        readers = omega (arith, v.readers, out.no_read, moves is_reader s i old to_pop lt e);
        exclusive = omega (arith, inside.0);
        provided = omega (
          arith,
          inside.0,
          inside.1,
          v.readers,
          to_pop_le_reader s.threads,
          out.no_pop,
          moves is_to_pop s i old to_pop lt e,
        );
        sized = v.sized;
        in_order = v.in_order;
      })
