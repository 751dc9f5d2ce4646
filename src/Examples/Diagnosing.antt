-- ===== src/Examples/Diagnosing.antt =====
-- A job that waits for GPUs which no worker has.
use drigs.Prelude.{refl, dec_text, none, some, [], ◌∷◌}
use drigs.Dict.{lookup}
use drigs.Models.{Job, JobStatus}
use drigs.Queue.{JobQueue, new_queue}
use drigs.Resources.{new_manager}
use drigs.Diagnostics.{all_findings, analyze_job}
use drigs.Diagnostics.Score.{IsScored, analyze_job-IsScored}
use drigs.Examples.Executing.{train}
use drigs.Examples.Isolating.{plain}

abbrev waiting : Job
waiting = record train { status = JobStatus.queued }

abbrev queue : JobQueue
queue = record (new_queue none none) { jobs = ("j1", waiting) ∷ []; queue = "j1" ∷ [] }

analyze_job-IsScored_example :
    IsScored
      (all_findings plain (some (new_manager none)) waiting)
      (analyze_job plain queue (some (new_manager none)) "j1")
analyze_job-IsScored_example =
    analyze_job-IsScored plain queue (some (new_manager none)) "j1" waiting
      (unfold lookup dec_text in refl)
