-- ===== src/Queue/Updates.antt =====
-- drigs/core/queue.py, `update_job_status`: what it answers for a tracked job.
use drigs.Prelude.{ℕ, String, ◌≡◌, Option, some}
use drigs.Dict.{lookup, put}
use drigs.Models.{Job, JobStatus}
use drigs.Result.{ok, raise, Error}
use drigs.Storage.{save_job}
use drigs.Queue.{JobQueue, update_job_status, updated, validate_status_transition, stored}

-- The queue with the updated job.
abbrev pub with_update : ℕ → String → JobStatus → Option String → Job → JobQueue → JobQueue
with_update now id new message job q = record q {
  jobs = put id (updated now new message job) q.jobs;
  storage = stored (save_job (updated now new message job)) q.storage;
}

module _ (now : ℕ) (id : String) (new : JobStatus) (message : Option String) (q : JobQueue)
    (job : Job) (found : lookup id q.jobs ≡ some job) where
  pub update-ok :
      validate_status_transition job.status new ≡ ok tt
      → update_job_status now id new message q
        ≡ ok (with_update now id new message job q, updated now new message job)
  unfolding update_job_status
  update-ok v = rw (update_job_status, found, v)

  pub update-raise :
      (e : Error)
      → validate_status_transition job.status new ≡ raise e
      → update_job_status now id new message q ≡ raise e
  unfolding update_job_status
  update-raise e v = rw (update_job_status, found, v)
