-- ===== src/Scheduler/Safety.antt =====
-- What `schedule` of every single-node policy promises.
use drigs.Prelude.{
  ℕ, String, ◌≡◌, ◌≢◌, refl, sym, subst, true, false, ◌||◌, some, List, [], ◌∷◌, arith, is_empty,
  contains, All, All-map, All-intro, All-Among, Among, Distinct, inl, inr, Bool-cases,
}
use drigs.Prelude.Sort.{sort, All-sort, All-of_sort, Distinct-sort}
use drigs.Dict.{Dict, lookup}
use drigs.Models.{Job, ResourceAllocation, WorkerInfo, ClusterState}
use drigs.Float.{Float, HasNonneg}
use drigs.Scheduler.Placement.{no_usage, Draws, place_jobs, ids}
use drigs.Scheduler.Policies.{Policy, choose, le_for, schedule}
use drigs.Scheduler.Choice.{choose-Fits}
use drigs.Scheduler.Complete.{choose-none}
use drigs.Scheduler.Capacity.{
  Continues, devices_on, gather, place_jobs-Continues, place_jobs-IsFresh,
}
use drigs.Scheduler.Grants.{Serves, job_ids, ids_of, place_jobs-Serves, place_jobs-Distinct}
use drigs.Scheduler.Maximal.{NoRoom, AllRefused-NoRoom, booked, place_jobs-LeftOut}

All-of_empty : {A : Type 0} (P : A → Type 0) (xs : List A) → is_empty xs ≡ true → All P xs
All-of_empty P [] h = tt
All-of_empty P (x ∷ xs) h = cc

-- If the job got no allocation, then none fits on any worker beside those that were made.
abbrev pub IsRefused : Dict WorkerInfo → List ResourceAllocation → Job → Type 0
IsRefused workers allocs job =
    contains (job_ids allocs) job.job_id ≡ false
    → NoRoom workers job.spec.resources (booked no_usage allocs)

module _ (f : Float) (n : HasNonneg f) (policy : Policy f.F) (draws : Draws) (now : ℕ)
    (pending : List Job) (state : ClusterState) where
  abbrev result : List ResourceAllocation
  result = schedule f policy draws now pending state

  abbrev pass : List ResourceAllocation
  pass =
      place_jobs (choose f policy state.workers) draws no_usage (sort (le_for f policy now) pending)

  -- A property of the full pass and of the empty list holds of the result.
  schedule_cases {κ} : (P : List ResourceAllocation → Type κ) → P [] → P pass → P result
  unfolding schedule
  schedule_cases P e p = elim (Bool-cases (is_empty pending || is_empty state.workers)) [
    | inl b ↦ rw (b, schedule) e
    | inr b ↦ rw (b, schedule) p
  ]

  -- On each registered worker the cores that one pass hands out are 0, 1, 2, … in order, none
  -- twice, and no more than the worker has; the memory handed out is no more than the worker has.
  pub schedule-Continues :
      (id : String) (w : WorkerInfo)
      → lookup id state.workers ≡ some w
      → Continues no_usage id w result
  unfolding gather
  schedule-Continues id w found =
      schedule_cases (Continues no_usage id w)
        (record { count = 0; cores = refl; cpus_fit = omega arith; memory_fits = omega arith })
        (place_jobs-Continues state.workers (choose f policy state.workers)
          (choose-Fits f n state.workers policy) id w found draws no_usage _
          (omega arith, omega arith))

  -- On each registered worker whose devices have distinct ids no device is handed out twice in
  -- one pass.
  pub schedule-devices_Distinct :
      (id : String) (w : WorkerInfo)
      → lookup id state.workers ≡ some w
      → Distinct (ids w.devices)
      → Distinct (devices_on id result)
  unfolding gather
  schedule-devices_Distinct id w found own =
      schedule_cases (λ l. Distinct (devices_on id l)) tt
        (place_jobs-IsFresh state.workers (choose f policy state.workers)
          (choose-Fits f n state.workers policy) id w found own draws no_usage _ tt)

  sorted-Serves :
      (a : ResourceAllocation)
      → Serves state.workers (sort (le_for f policy now) pending) a
      → Serves state.workers pending a
  sorted-Serves a s = record {
    job = s.job;
    asked =
        All-Among (λ j. Among j pending) (sort (le_for f policy now) pending) s.job
          (All-sort (le_for f policy now) (λ j. Among j pending) pending
            (All-intro (λ j. Among j pending) pending (λ j m. m)))
          s.asked;
    named = s.named;
    worker = s.worker;
    registered = s.registered;
    healthy = s.healthy;
    gpus = s.gpus;
    each = s.each;
    cpus = s.cpus;
    memory = s.memory;
  }

  -- Every allocation of a pass is for a pending job and gives it all that it asks for: on one
  -- registered, healthy worker, as many of that worker's GPUs as it asks for, each with the memory
  -- that it asks for, as many cores, and the memory.
  pub schedule-Serves : All (Serves state.workers pending) result
  schedule-Serves = schedule_cases (All (Serves state.workers pending)) tt (
      All-map _ _ sorted-Serves _ (
        place_jobs-Serves state.workers (choose f policy state.workers)
          (choose-Fits f n state.workers policy) draws no_usage _))

  -- If the pending jobs have distinct ids, no job gets two allocations in one pass.
  pub schedule-jobs_Distinct : Distinct (ids_of pending) → Distinct (job_ids result)
  schedule-jobs_Distinct d =
      schedule_cases (λ l. Distinct (job_ids l)) tt
        (place_jobs-Distinct (choose f policy state.workers) draws no_usage _
          (Distinct-sort (le_for f policy now) (λ j. j.job_id) pending d))

  result-pass : is_empty pending ≡ false → is_empty state.workers ≡ false → result ≡ pass
  unfolding schedule
  result-pass b c = rw (schedule, b, c)

  no_worker :
      (id : String) (w : WorkerInfo)
      → is_empty state.workers ≡ true
      → lookup id state.workers ≢ some w
  unfolding lookup
  no_worker id w c e = ground arith

  -- A pass wastes no room: on a cluster whose workers have devices with distinct ids, a pending job
  -- gets no allocation only if no placement of it on any worker fits beside the allocations made.
  pub schedule-IsRefused :
      ((id : String) (w : WorkerInfo) → lookup id state.workers ≡ some w → Distinct (ids w.devices))
      → All (IsRefused state.workers result) pending
  schedule-IsRefused own = elim (Bool-cases (is_empty pending)) [
    | inl none_pending ↦ All-of_empty (IsRefused state.workers result) pending none_pending
    | inr b ↦ elim (Bool-cases (is_empty state.workers)) [
      | inl c ↦
          All-intro (IsRefused state.workers result) pending
            (λ job m out p fit. no_worker p.worker fit.worker c fit.found)
      | inr c ↦
          subst (λ l. All (IsRefused state.workers l) pending) (sym (result-pass b c))
            (All-map _ _
              (λ job left out. AllRefused-NoRoom state.workers job.spec.resources _ own (left out))
              pending
              (All-of_sort (le_for f policy now) _ pending (
                place_jobs-LeftOut state.workers (choose f policy state.workers)
                  (choose-none f n state.workers policy) draws no_usage _)))
    ]
  ]
