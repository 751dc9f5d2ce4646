-- ===== src/Examples/Detecting.antt =====
-- A detector over a registry with a late worker, which tracks three jobs.
use drigs.Prelude.{String, dec_text, List, [], ◌∷◌, Distinct, ite}
use drigs.Models.{JobStatus}
use drigs.Models.JobStatus.{running, failed}
use drigs.Result.{Result, ok, raise, external_error}
use drigs.Recovery.Detector.{
  FailureDetector, new_detector, Callbacks, Call, tracks, untracks, checks, registry_changes, run,
}
use drigs.Recovery.Detector.Reports.{named}
use drigs.Recovery.Detector.Once.{run-Distinct}
use drigs.Examples.Data.{whole}
use drigs.Examples.Watching.{registry}

-- One callback of each kind, which writes down the id.
abbrev notes : Callbacks (List String)
notes = record {
  worker_failure = (λ id s. id ∷ s) ∷ [];
  job_failure = (λ id reason s. id ∷ s) ∷ [];
}

-- Handles are texts: the process of "h2" has failed, and "h3" cannot be polled.
abbrev answers : String → Result JobStatus
answers h =
    ite (dec_text h "h2") (ok failed)
      (ite (dec_text h "h3") (raise (external_error "gone")) (ok running))

abbrev tracking : FailureDetector whole.F String
tracking = record (new_detector registry) {
  monitored_jobs =
      ("j1", record { worker_id = "w1"; handle = "h1" })
      ∷ ("j2", record { worker_id = "w0"; handle = "h2" })
      ∷ ("j3", record { worker_id = "w0"; handle = "h3" })
      ∷ ("j4", record { worker_id = "w0"; handle = "h4" })
      ∷ [];
}

abbrev calls : List (Call whole.F String)
calls =
    tracks "j1" (record { worker_id = "w1"; handle = "h1" })
    ∷ checks 30 answers
    ∷ untracks "j1"
    ∷ registry_changes (λ r. r)
    ∷ tracks "j1" (record { worker_id = "w0"; handle = "h2" })
    ∷ checks 31 answers
    ∷ []

run-Distinct_example :
    let c = run whole notes calls (new_detector registry) [] in
    Distinct c.new_worker_failures × Distinct (named c.new_job_failures)
run-Distinct_example = run-Distinct whole notes calls registry []
