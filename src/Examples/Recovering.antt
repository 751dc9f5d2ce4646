-- ===== src/Examples/Recovering.antt =====
-- A running job whose worker fails, and a job that was made from the same specification.
use drigs.Prelude.{String, ite, Bool, ◌≡◌, refl, none, some, true, false, [], ◌∷◌, ◌⊎◌, dec_text}
use drigs.Dict.{lookup}
use drigs.Models.{Job, JobStatus}
use drigs.Models.JobStatus.{recovering}
use drigs.Result.{Result, ok, raise, invalid_transition}
use drigs.Queue.{JobQueue}
use drigs.Resources.{ResourceManager, new_manager, deallocate_resources}
use drigs.Recovery.Rescheduler.{reschedule_job, may_recover, without_allocation}
use drigs.Recovery.Rescheduler.Requeue.{IsRequeued, reschedule_job-Outcome}
use drigs.Examples.Data.{job, requires}

abbrev running_job : Job
running_job = record (job "j1" 0 10 (requires 2 10 2 100)) { status = JobStatus.running }

abbrev queue : JobQueue
queue = record {
  max_capacity = none;
  storage = none;
  queue = "j1" ∷ [];
  jobs = ("j1", running_job) ∷ ("j2", job "j2" 0 10 (requires 2 10 2 100)) ∷ [];
}

abbrev shared : String → Bool
shared i = ite (dec_text i "j2") true false

abbrev manager : ResourceManager
manager = new_manager none

has_job : lookup "j1" queue.jobs ≡ some running_job
unfolding lookup dec_text
has_job = refl

abbrev result : (JobQueue × ResourceManager) × Result Bool
result = reschedule_job (λ s. 40) shared (some ("12", "/ckpt/12")) "j1" "lost" (queue, manager)

reschedule_job-Outcome_example :
    (result.0.1 ≡ (deallocate_resources "j1" manager).0)
    × (((may_recover running_job.status ≡ true)
          × (result.1 ≡ ok true)
          × IsRequeued
              (λ s. 40)
              shared
              (some ("12", "/ckpt/12"))
              "j1"
              "lost"
              queue
              manager
              running_job
              has_job
              result.0.0)
        ⊎ ((may_recover running_job.status ≡ false)
            × (result.1 ≡ raise (invalid_transition running_job.status recovering))
            × (lookup "j1" result.0.0.jobs ≡ some (without_allocation running_job))))
reschedule_job-Outcome_example =
    reschedule_job-Outcome (λ s. 40) shared (some ("12", "/ckpt/12")) "j1" "lost" queue manager
      running_job has_job
