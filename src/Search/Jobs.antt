-- ===== src/Search/Jobs.antt =====
-- The jobs of the threaded search: whatever the order in which they finish, every entry of
-- `jobLists` ends as the list of its own job.
use native.Mathlib.Decide.{ℕ_discrete}
use mathlib.Core.Path.{ap₂}
use mathlib.Core.List.{map}
use native.Mathlib.Nat.{zero-add, add-zero}
use join_operator_software_d.Prelude.{
  ℕ, zero, suc, ◌+◌, ◌≤◌, ◌<◌, ◌≡◌, refl, sym, ap, ◌∙◌, arith, ◌==◌, ==_eq_false, if◌then◌else◌,
  List, [], ◌∷◌, length, length-set, length-replicate, get_or, set, get_or-set_self, get_or-set_ne,
  weigh, SameBag, replicate,
}
use join_operator_software_d.Structs.{ReorderedR, IndexArray, HeadResult}
use join_operator_software_d.ResultList.{initialise_result_head_no_buff}
use join_operator_software_d.Search.{join_bucket, run_jobs}

-- The numbers from `i` on, `n` of them.
abbrev pub count_from : ℕ → ℕ → List ℕ
count_from i zero = []
count_from i (suc n) = i ∷ count_from (i + 1) n

-- 1 at `k`.
abbrev is_at : ℕ → ℕ → ℕ
is_at k x = if x == k then 1 else 0

-- Every job below `n` runs exactly once.
abbrev pub IsSchedule : ℕ → List ℕ → Type 0
IsSchedule n schedule = SameBag schedule (count_from 0 n)

at_count_from : (k i n : ℕ) → i ≤ k → k < i + n → 0 < weigh (is_at k) (count_from i n)
at_count_from k i zero le lt = absurd (omega arith)
at_count_from k i (suc n) le lt = ground (arith, at_count_from k (i + 1) n)

weigh_one : (i n : ℕ) → weigh (λ _. 1) (count_from i n) ≡ n
weigh_one i zero = refl
weigh_one i (suc n) = omega (arith, weigh_one (i + 1) n)

module _ (ind_arr : IndexArray) (s : ReorderedR) where
  connected-run_jobs :
      (schedule : List ℕ) (job_lists : List HeadResult) (connected : ℕ)
      → (run_jobs ind_arr s schedule (job_lists, connected)).1 ≡ connected + weigh (λ _. 1) schedule
  unfolding run_jobs
  connected-run_jobs [] job_lists connected = omega arith
  connected-run_jobs (w ∷ schedule) job_lists connected = omega (
    arith,
    connected-run_jobs schedule (set job_lists w (join_bucket ind_arr s w)) (connected + 1),
  )

  length-run_jobs :
      (schedule : List ℕ) (job_lists : List HeadResult) (connected : ℕ)
      → length (run_jobs ind_arr s schedule (job_lists, connected)).0 ≡ length job_lists
  unfolding run_jobs
  length-run_jobs [] job_lists connected = refl
  length-run_jobs (w ∷ schedule) job_lists connected =
      length-run_jobs schedule _ (connected + 1) ∙ length-set job_lists w (join_bucket ind_arr s w)

  -- An entry that holds its own list keeps it.
  get_or-run_jobs_done :
      (schedule : List ℕ) (job_lists : List HeadResult) (connected k : ℕ) (d : HeadResult)
      → k < length job_lists
      → get_or job_lists k d ≡ join_bucket ind_arr s k
      → get_or (run_jobs ind_arr s schedule (job_lists, connected)).0 k d ≡ join_bucket ind_arr s k
  unfolding run_jobs
  get_or-run_jobs_done [] job_lists connected k d lt e = e
  get_or-run_jobs_done (w ∷ schedule) job_lists connected k d lt e =
      get_or-run_jobs_done schedule _ (connected + 1) k d (rw length-set lt)
        (elim (ℕ_discrete w k) [
          | yes same ↦ rw same (get_or-set_self job_lists k (join_bucket ind_arr s k) d lt)
          | no ne ↦ get_or-set_ne job_lists w k _ d ne ∙ e
        ])

  get_or-run_jobs :
      (schedule : List ℕ) (job_lists : List HeadResult) (connected k : ℕ) (d : HeadResult)
      → k < length job_lists
      → 0 < weigh (is_at k) schedule
      → get_or (run_jobs ind_arr s schedule (job_lists, connected)).0 k d ≡ join_bucket ind_arr s k
  unfolding run_jobs
  get_or-run_jobs [] job_lists connected k d lt pos = absurd (omega arith)
  get_or-run_jobs (w ∷ schedule) job_lists connected k d lt pos = elim (ℕ_discrete w k) [
    | yes same ↦
        get_or-run_jobs_done schedule _ (connected + 1) k d (rw length-set lt)
          (rw same (get_or-set_self job_lists k (join_bucket ind_arr s k) d lt))
    | no ne ↦
        get_or-run_jobs schedule _ (connected + 1) k d (rw length-set lt)
          (rw (==_eq_false w k ne, zero-add) at pos)
  ]

  -- Two lists of one length with the same entries.
  lists_ext :
      (xs : List HeadResult) (i : ℕ)
      → ((k : ℕ)
          → k < length xs
          → get_or xs k initialise_result_head_no_buff ≡ join_bucket ind_arr s (i + k))
      → xs ≡ map (join_bucket ind_arr s) (count_from i (length xs))
  lists_ext [] i h = refl
  lists_ext (x ∷ xs) i h = ap₂ ◌∷◌ (h 0 (omega arith) ∙ ap (join_bucket ind_arr s) (add-zero i)) (
      lists_ext xs (i + 1)
        (λ k lt. h (suc k) (omega arith) ∙ ap (join_bucket ind_arr s) (omega arith)))

  -- When every job runs exactly once, in any order, all jobs are counted, and `jobLists` holds the
  -- result of each at its own place.
  pub run_jobs_lem :
      (n : ℕ) (schedule : List ℕ)
      → IsSchedule n schedule
      → run_jobs ind_arr s schedule (replicate n initialise_result_head_no_buff, 0)
        ≡ (map (join_bucket ind_arr s) (count_from 0 n), n)
  run_jobs_lem n schedule h =
      let start = replicate n initialise_result_head_no_buff in
      let r = run_jobs ind_arr s schedule (start, 0) in
      let len : length r.0 ≡ n = length-run_jobs schedule start 0 ∙ length-replicate n _ in
      let all : r.0 ≡ map (join_bucket ind_arr s) (count_from 0 (length r.0)) =
        lists_ext r.0 0 (λ k lt.
          get_or-run_jobs schedule start 0 k initialise_result_head_no_buff
            (rw length-replicate (omega arith))
            (rw (h (is_at k)) (at_count_from k 0 n (omega arith) (omega arith)))
          ∙ ap (join_bucket ind_arr s) (sym (zero-add k))) in
      ap₂ (λ (a : List HeadResult) (b : ℕ). (a, b))
        (all ∙ ap (λ (m : ℕ). map (join_bucket ind_arr s) (count_from 0 m)) len)
        (connected-run_jobs schedule start 0
          ∙ ap (λ (m : ℕ). 0 + m) (h (λ _. 1) ∙ weigh_one 0 n)
          ∙ zero-add n)
