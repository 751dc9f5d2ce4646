-- ===== src/Recovery/Rescheduler.antt =====
-- drigs/recovery/rescheduler.py: a job is taken off its devices and queued again. The job that the
-- source holds on to is the queue's own object. Jobs that were made from one WorkloadSpec share its
-- dictionary of variables: `shares` says which other jobs of the queue share that of the job. Their
-- rows of the database are not written.
pub mod Requeue
use drigs.Prelude.{
  ℕ, String, ◌≡◌, ◌≢◌, refl, sym, ap, subst, ◌∙◌, Bool, true, false, Option, none, some, arith, inl,
  inr, ◌⊎◌, Option-cases, ite, dec_text, [], ◌∷◌, if◌then◌else◌,
}
use drigs.Dict.{Dict, lookup, put, lookup-put}
use drigs.Models.{Job, JobStatus, JobStatus-discrete}
use drigs.Models.JobStatus.{queued, running, recovering}
use drigs.Result.{Result, ok, raise, Error, invalid_transition}
use drigs.Queue.{JobQueue, update_job_status, updated, validate_status_transition}
use drigs.Queue.Updates.{update-ok, update-raise, with_update}
use drigs.Resources.{ResourceManager, deallocate_resources}

-- `f` on the queue's job; a job that is not tracked is left out.
abbrev pub change_job : String → (Job → Job) → JobQueue → JobQueue
change_job id f q = elim (lookup id q.jobs) [
  | none ↦ q
  | some job ↦ record q { jobs = put id (f job) q.jobs }
]

abbrev pub without_allocation : Job → Job
without_allocation job = record job { allocation = none }

-- The checkpoint's step and its file, as texts, in the environment of the job.
abbrev pub restoring : Option (String × String) → Job → Job
restoring none job = job
restoring (some (step, path)) job =
    let spec = job.spec in
    let execution = spec.execution in
    record job {
      spec = record spec {
        execution = record execution {
          env = put "DRIGS_RESTORE_STEP" step (put "DRIGS_RESTORE_CHECKPOINT" path execution.env);
        };
      };
    }

-- The dictionary of the job `id` is written in place.
abbrev pub restoring_shared :
    String → (String → Bool) → Option (String × String) → String → Job → Job
restoring_shared id shares latest i job =
    if ite (dec_text id i) true (shares i) then restoring latest job else job

unfoldable pub change_jobs : (String → Job → Job) → Dict Job → Dict Job
change_jobs f [] = []
change_jobs f ((i, job) ∷ jobs) = (i, f i job) ∷ change_jobs f jobs

abbrev pub restore_shared :
    String → (String → Bool) → Option (String × String) → JobQueue → JobQueue
restore_shared id shares latest q = record q {
  jobs = change_jobs (restoring_shared id shares latest) q.jobs;
}

-- `latest` is what `get_latest_checkpoint` reads from the files.
unfoldable pub reschedule_job :
    (changed_at : JobStatus → ℕ) (shares : String → Bool) (latest : Option (String × String))
    (id reason : String)
    → JobQueue × ResourceManager
    → (JobQueue × ResourceManager) × Result Bool
unfolding change_jobs
reschedule_job changed_at shares latest id reason (q, m) = elim (lookup id q.jobs) [
  | none ↦ ((q, m), ok false)
  | some job ↦
      let freed = (deallocate_resources id m).0 in
      let cleared = change_job id without_allocation q in
      elim (update_job_status (changed_at recovering) id recovering (some reason) cleared) [
        | raise e ↦ ((cleared, freed), raise e)
        | ok (marked, job') ↦
            let restored = restore_shared id shares latest marked in
            elim (update_job_status (changed_at queued) id queued none restored) [
              | raise e ↦ ((restored, freed), raise e)
              | ok (requeued, job'') ↦ ((requeued, freed), ok true)
            ]
      ]
]

-- The statuses that a job can be recovered from.
abbrev pub may_recover : JobStatus → Bool
may_recover running = true
may_recover recovering = true
may_recover _ = false
