-- ===== src/Controller/Cancel.antt =====
-- drigs/core/controller.py: what `cancel_job` does.
use drigs.Prelude.{
  ℕ, String, ◌≡◌, refl, sym, ap, subst, Bool, true, false, Option, none, some, arith, inl, inr,
  Option-cases, if◌then◌else◌,
}
use drigs.Dict.{lookup, put, has, lookup-remove}
use drigs.Models.{Job, JobStatus, JobStatus-discrete}
use drigs.Models.JobStatus.{cancelled}
use drigs.Result.{Result, ok, Error}
use drigs.Queue.{JobQueue, update_job_status, updated, validate_status_transition, stored}
use drigs.Storage.{save_job}
use drigs.Resources.{deallocate_resources}
use drigs.Controller.{World, LocalController, set_status, release, cancel_job, is_active}

-- The table lets every active job be cancelled.
may_cancel : (s : JobStatus) → is_active s ≡ true → validate_status_transition s cancelled ≡ ok tt
unfolding validate_status_transition JobStatus-discrete
may_cancel JobStatus.pending a = refl
may_cancel JobStatus.queued a = refl
may_cancel JobStatus.scheduled a = refl
may_cancel JobStatus.running a = refl
may_cancel JobStatus.completed a = cc
may_cancel JobStatus.failed a = cc
may_cancel JobStatus.cancelled a = cc
may_cancel JobStatus.recovering a = cc

module _ {H : Type 0} (w : World H) (id : String) where
  abbrev pub now : ℕ
  now = w.changed_at id cancelled

  -- The queue with the job cancelled.
  abbrev pub cancelled_in : Job → JobQueue → JobQueue
  cancelled_in job q = record q {
    jobs = put id (updated now cancelled none job) q.jobs;
    storage = stored (save_job (updated now cancelled none job)) q.storage;
  }

  set_cancelled :
      (c : LocalController H) (job : Job)
      → lookup id c.job_queue.jobs ≡ some job
      → is_active job.status ≡ true
      → set_status w id cancelled none c
        ≡ (record c { job_queue = cancelled_in job c.job_queue }, none)
  unfolding set_status update_job_status
  set_cancelled c job e a = rw (set_status, update_job_status, e, may_cancel job.status a)

  -- What cancelling a job leaves.
  pub record IsCancelled (c c' : LocalController H) (job : Job) : Type 0 where
    pub queue : c'.job_queue ≡ cancelled_in job c.job_queue
    pub status : (updated now cancelled none job).status ≡ cancelled
    pub no_handle : has id c'.handles ≡ false
    pub freed : c'.resource_manager ≡ (
        if has id c.handles
        then (deallocate_resources id c.resource_manager).0
        else c.resource_manager)

  released :
      (c : LocalController H)
      → ((handle : H)
          → lookup id c.handles ≡ some handle
          → (done : Bool) × (w.stop handle ≡ ok done))
      → ((release w id c).1 ≡ none)
        × ((release w id c).0.job_queue ≡ c.job_queue)
        × (has id (release w id c).0.handles ≡ false)
        × ((release w id c).0.resource_manager ≡ (
            if has id c.handles
            then (deallocate_resources id c.resource_manager).0
            else c.resource_manager))
  unfolding release
  released c stops = elim (Option-cases (lookup id c.handles)) [
    | inl e ↦ rw (e, release) (refl, refl, ground (arith, e), ground (arith, e))
    | inr (handle, e) ↦
        let (done, s) = stops handle e in
        rw (e, release, s)
          (refl, refl, ground (arith, lookup-remove id id c.handles), ground (arith, e))
  ]

  cancel_cases :
      (c : LocalController H) (job : Job)
      → lookup id c.job_queue.jobs ≡ some job
      → is_active job.status ≡ true
      → (release w id c).1 ≡ none
      → (set_status w id cancelled none (release w id c).0).1 ≡ none
      → cancel_job w id c ≡ ((set_status w id cancelled none (release w id c).0).0, ok true)
  unfolding cancel_job
  cancel_cases c job e a fine set = rw (cancel_job, e, fine, a, set)

  -- If the queue has the job waiting, scheduled or running, and the backend stops its workload, if it
  -- has one, without an exception, then `cancel_job` answers True, the queue has the job as CANCELLED
  -- and is otherwise as it was, the job has no handle, and if it had one its resources have been
  -- deallocated.
  pub cancel_job-IsCancelled :
      (c : LocalController H) (job : Job)
      → lookup id c.job_queue.jobs ≡ some job
      → is_active job.status ≡ true
      → ((handle : H)
          → lookup id c.handles ≡ some handle
          → (done : Bool) × (w.stop handle ≡ ok done))
      → ((cancel_job w id c).1 ≡ ok true) × IsCancelled c (cancel_job w id c).0 job
  cancel_job-IsCancelled c job e a stops =
      let (fine, same, gone, freed) = released c stops in
      let e1 : lookup id (release w id c).0.job_queue.jobs ≡ some job =
        subst (λ q. lookup id q.jobs ≡ some job) (sym same) e in
      let set = set_cancelled (release w id c).0 job e1 a in
      let done = cancel_cases c job e a fine (ap (λ p. p.1) set) in
      subst (λ (p : LocalController H × Result Bool). (p.1 ≡ ok true) × IsCancelled c p.0 job)
        (sym done)
        (
          refl,
          subst (λ (p : LocalController H × Option Error). IsCancelled c p.0 job) (sym set)
              (record {
                queue = ap (cancelled_in job) same;
                status = ground arith;
                no_handle = gone;
                freed = freed;
              }),
        )
