-- ===== src/JobScheduler/Gates.antt =====
-- src/jobScheduler.c: when a thread that comes to write or to read goes in.
use native.Mathlib.Decide.{ℕ_discrete}
use mathlib.Core.Bool.{false≢true}
use join_operator_software_d.Prelude.{
  refl, ==_eq_false, ◌+◌, ◌≡◌, ◌≢◌, sym, ap, ◌∙◌, arith, Bool, true, false, ◌⊎◌, inl, inr, none,
  some,
}
use join_operator_software_d.JobScheduler.{
  JobScheduler, enter_write, Entry, exits, waits, enters, enter_read, wake_read,
}

pub enter_write_free :
    (s : JobScheduler)
    → s.writing + s.reading ≡ 0
    → enter_write s ≡ some (record s { writing = s.writing + 1 })
unfolding enter_write
enter_write_free s h = ground (arith, h)

pub enter_write_busy : (s : JobScheduler) → s.writing + s.reading ≢ 0 → enter_write s ≡ none
unfolding enter_write
enter_write_busy s h = ground (arith, h)

pub wake_read_free :
    (s : JobScheduler)
    → s.writing + s.reading ≡ 0
    → s.size ≢ 0
    → wake_read s ≡ enters (record s { reading = s.reading + 1 })
unfolding wake_read
wake_read_free s h k = ground (arith, h, k)

is_in : Entry → Bool
is_in exits = false
is_in waits = false
is_in (enters s) = true

entered : JobScheduler → Entry → JobScheduler
entered d exits = d
entered d waits = d
entered d (enters s) = s

wake_read_busy :
    (s : JobScheduler) → (s.writing + s.reading ≢ 0) ⊎ (s.size ≡ 0) → is_in (wake_read s) ≡ false
unfolding wake_read is_in
wake_read_busy s (inl h) = ground (arith, h)
wake_read_busy s (inr h) = ground (arith, h)

enter_read_down : (s : JobScheduler) → s.shutdown ≡ 1 → is_in (enter_read s) ≡ false
unfolding enter_read is_in
enter_read_down s d = rw d refl

enter_read_up : (s : JobScheduler) → s.shutdown ≢ 1 → enter_read s ≡ wake_read s
unfolding enter_read
enter_read_up s d = rw (==_eq_false s.shutdown 1 d) refl

shut_out : (sch : JobScheduler) (o : Entry) → o ≡ enters sch → is_in o ≡ false → false ≡ true
unfolding is_in
shut_out sch o ok e = sym e ∙ ap is_in ok

-- A thread that is awake goes in to read only when no thread is in and there is a job.
pub wake_read_in :
    (s sch : JobScheduler)
    → wake_read s ≡ enters sch
    → (s.writing + s.reading ≡ 0) × (s.size ≢ 0) × (record s { reading = s.reading + 1 } ≡ sch)
unfolding entered
wake_read_in s sch ok = elim (ℕ_discrete (s.writing + s.reading) 0) [
  | no h ↦ absurd (false≢true (shut_out sch (wake_read s) ok (wake_read_busy s (inl h))))
  | yes h ↦ elim (ℕ_discrete s.size 0) [
    | yes k ↦ absurd (false≢true (shut_out sch (wake_read s) ok (wake_read_busy s (inr k))))
    | no k ↦ (h, k, ap (entered s) (sym (wake_read_free s h k) ∙ ok))
  ]
]

-- A thread that comes goes in to read under the same condition.
pub enter_read_in : (s sch : JobScheduler) → enter_read s ≡ enters sch → wake_read s ≡ enters sch
enter_read_in s sch ok = elim (ℕ_discrete s.shutdown 1) [
  | yes d ↦ absurd (false≢true (shut_out sch (enter_read s) ok (enter_read_down s d)))
  | no d ↦ sym (enter_read_up s d) ∙ ok
]
