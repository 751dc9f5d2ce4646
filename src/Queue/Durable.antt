-- ===== src/Queue/Durable.antt =====
-- drigs/core/queue.py with drigs/core/storage.py: the jobs table mirrors the tracked jobs.
pub mod Restart
use drigs.Prelude.{
  ℕ, String, ◌≡◌, refl, sym, ap, subst, ◌∙◌, Bool, true, false, Option, none, some, List, [], ◌∷◌,
  arith, inl, inr, ◌⊎◌, Bool-cases, Option-cases, Distinct,
}
use drigs.Dict.{Dict, lookup, put, remove, has, keys, Distinct-put, Distinct-remove}
use drigs.Models.{Job, JobStatus}
use drigs.Result.{Result, ok, raise, after}
use drigs.Storage.{save_job, delete_job, upsert_row}
use drigs.Queue.{
  JobQueue, new_queue, enqueue, accept, as_queued, is_full, sort_queue, dequeue, pop_queued,
  remove_job, updated, Call, enqueues, dequeues, removes, updates, step, run, first_of_pair,
  update_job_status,
}
use drigs.Queue.Invariant.{IsValid, as_queued_id}
use drigs.Queue.Lifecycle.{jobs-dequeue}
use drigs.Queue.Calls.{update_cases, step-IsValid}

-- The table holds the tracked jobs, in the same order.
abbrev pub Mirrors : JobQueue → Type 0
Mirrors q = q.storage ≡ some q.jobs

-- A row is inserted, or it becomes a job that differs in what the upsert writes only.
save-new :
    (job : Job) (table : Dict Job)
    → has job.job_id table ≡ false
    → save_job job table ≡ put job.job_id job table
unfolding save_job
save-new job table h = elim (Option-cases (lookup job.job_id table)) [
  | inl e ↦ rw (e, save_job)
  | inr (old, e) ↦ absurd (ground (arith, e, h))
]

upsert_updated :
    (now : ℕ) (new : JobStatus) (message : Option String) (job : Job)
    → upsert_row (updated now new message job) job ≡ updated now new message job
upsert_updated now new message job = ground arith

save-updated :
    (now : ℕ) (new : JobStatus) (message : Option String) (id : String) (job : Job)
    (table : Dict Job)
    → job.job_id ≡ id
    → lookup id table ≡ some job
    → save_job (updated now new message job) table ≡ put id (updated now new message job) table
unfolding save_job
save-updated now new message id job table same found =
    let job' = updated now new message job in
    let key : job'.job_id ≡ id = kept ∙ same in
    let e : lookup job'.job_id table ≡ some job =
      subst (λ k. lookup k table ≡ some job) (sym key) found in
    rw (e, save_job) (rw (upsert_updated now new message job, key))
  where
    kept : (updated now new message job).job_id ≡ job.job_id
    kept = ground arith

accept-Mirrors :
    (job : Job) (q : JobQueue) → has job.job_id q.jobs ≡ false → Mirrors q → Mirrors (accept job q)
unfolding accept sort_queue
accept-Mirrors job q new m = rw m (ap some (save_after job q new))
  where
    save_after :
        (job : Job) (q : JobQueue)
        → has job.job_id q.jobs ≡ false
        → save_job job q.jobs ≡ put job.job_id job q.jobs
    save_after job q new = save-new job q.jobs new

enqueue-Mirrors : (job : Job) (q : JobQueue) → Mirrors q → Mirrors (after q (enqueue job q))
unfolding enqueue
enqueue-Mirrors job q m = elim (Bool-cases (is_full q)) [
  | inl b ↦ rw (b, enqueue) m
  | inr b ↦ elim (Bool-cases (has job.job_id q.jobs)) [
    | inl c ↦ rw (b, enqueue, c) m
    | inr c ↦
        rw (b, enqueue, c)
          (accept-Mirrors (as_queued job) q
            (subst (λ id. has id q.jobs ≡ false) (sym (as_queued_id job)) c) m)
  ]
]

dequeue-Mirrors : (q : JobQueue) → Mirrors q → Mirrors (dequeue q).0
unfolding dequeue
dequeue-Mirrors q m = elim (Option-cases (pop_queued q.jobs q.queue)) [
  | inl e ↦ rw (e, dequeue) m
  | inr (p, e) ↦ rw (e, dequeue) m
]

remove-Mirrors : (id : String) (q : JobQueue) → Mirrors q → Mirrors (remove_job id q).0
unfolding remove_job delete_job
remove-Mirrors id q m = elim (Option-cases (lookup id q.jobs)) [
  | inl e ↦ rw (e, remove_job) m
  | inr (job, e) ↦ rw (e, remove_job) (rw m refl)
]

update-Mirrors :
    (now : ℕ) (id : String) (new : JobStatus) (message : Option String) (q : JobQueue)
    → IsValid q
    → Mirrors q
    → Mirrors (after q (first_of_pair (update_job_status now id new message q)))
update-Mirrors now id new message q v m = elim (update_cases now id new message q) [
  | inl e ↦ subst Mirrors (sym e) m
  | inr (job, e, o, done) ↦
      subst Mirrors (sym done)
        (rw m (ap some (save-updated now new message id job q.jobs (v.filed id job e) e)))
]

step-Mirrors : (c : ℕ × Call) (q : JobQueue) → IsValid q → Mirrors q → Mirrors (step c q)
unfolding step
step-Mirrors (now, enqueues job) q v m = enqueue-Mirrors job q m
step-Mirrors (now, dequeues) q v m = dequeue-Mirrors q m
step-Mirrors (now, removes id) q v m = remove-Mirrors id q m
step-Mirrors (now, updates id new message) q v m = update-Mirrors now id new message q v m

pub run-Mirrors : (cs : List (ℕ × Call)) (q : JobQueue) → IsValid q → Mirrors q → Mirrors (run cs q)
unfolding run
run-Mirrors [] q v m = m
run-Mirrors (c ∷ cs) q v m = run-Mirrors cs (step c q) (step-IsValid c q v) (step-Mirrors c q v m)

-- The keys of the tracked jobs stay distinct.
abbrev DistinctJobs : JobQueue → Type 0
DistinctJobs q = Distinct (keys q.jobs)

enqueue-Distinct :
    (job : Job) (q : JobQueue) → DistinctJobs q → DistinctJobs (after q (enqueue job q))
unfolding enqueue accept sort_queue
enqueue-Distinct job q d = elim (Bool-cases (is_full q)) [
  | inl b ↦ rw (b, enqueue) d
  | inr b ↦ elim (Bool-cases (has job.job_id q.jobs)) [
    | inl c ↦ rw (b, enqueue, c) d
    | inr c ↦ rw (b, enqueue, c) (Distinct-put _ (as_queued job) q.jobs d)
  ]
]

remove-Distinct : (id : String) (q : JobQueue) → DistinctJobs q → DistinctJobs (remove_job id q).0
unfolding remove_job
remove-Distinct id q d = elim (Option-cases (lookup id q.jobs)) [
  | inl e ↦ rw (e, remove_job) d
  | inr (job, e) ↦ rw (e, remove_job) (Distinct-remove id q.jobs d)
]

step-Distinct : (c : ℕ × Call) (q : JobQueue) → DistinctJobs q → DistinctJobs (step c q)
unfolding step
step-Distinct (now, enqueues job) q d = enqueue-Distinct job q d
step-Distinct (now, dequeues) q d = subst (λ jobs. Distinct (keys jobs)) (sym (jobs-dequeue q)) d
step-Distinct (now, removes id) q d = remove-Distinct id q d
step-Distinct (now, updates id new message) q d = elim (update_cases now id new message q) [
  | inl e ↦ subst DistinctJobs (sym e) d
  | inr (job, e, o, done) ↦ subst DistinctJobs (sym done) (Distinct-put id _ q.jobs d)
]

pub run-Distinct :
    (cs : List (ℕ × Call)) (q : JobQueue) → Distinct (keys q.jobs) → Distinct (keys (run cs q).jobs)
unfolding run
run-Distinct [] q d = d
run-Distinct (c ∷ cs) q d = run-Distinct cs (step c q) (step-Distinct c q d)
