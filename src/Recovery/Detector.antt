-- ===== src/Recovery/Detector.antt =====
-- drigs/recovery/detector.py: FailureDetector over a worker registry. The lock makes each method
-- one step. The backends answer as `poll` in one check; a callback changes a state `S` outside of
-- the detector, and whether it raised is not looked at. The thread that calls check_failures in a
-- loop is not modelled.
pub mod Reports
pub mod Once
use drigs.Prelude.{
  ℕ, String, Bool, true, false, not, ◌&&◌, Option, none, some, List, [], ◌∷◌, ◌++◌, map, contains,
  if◌then◌else◌,
}
use drigs.Dict.{Dict, lookup, put, remove}
use drigs.Models.{JobStatus}
use drigs.Models.JobStatus.{failed}
use drigs.Result.{Result, ok, raise, Error}
use drigs.Float.{Float}
use drigs.Workers.Registry.{WorkerRegistry, check_timeouts}

-- The reason that is reported, without the text around it.
pub data Reason : Type 0 where
  worker_failed : String → Reason
  process_failed : Reason
  poll_failed : Error → Reason

-- What is kept of a tracked job: its worker, and its handle together with the backend that answers
-- for it. The job itself is not read.
pub record Monitored (H : Type 0) : Type 0 where
  pub worker_id : String
  pub handle : H

pub record FailureDetector (F H : Type 0) : Type 0 where
  pub registry : WorkerRegistry F
  pub monitored_jobs : Dict (Monitored H)
  pub failed_workers : List String
  pub failed_jobs : List String

abbrev pub new_detector : {F H : Type 0} → WorkerRegistry F → FailureDetector F H
new_detector r = record { registry = r; monitored_jobs = []; failed_workers = []; failed_jobs = [] }

-- The callbacks that are registered, in order.
pub record Callbacks (S : Type 0) : Type 0 where
  pub worker_failure : List (String → S → S)
  pub job_failure : List (String → Reason → S → S)

unfoldable pub call_all : {S : Type 0} → List (S → S) → S → S
call_all [] s = s
call_all (cb ∷ cbs) s = call_all cbs (cb s)

module _ {S : Type 0} (callbacks : Callbacks S) where
  abbrev pub announce_worker : String → S → S
  announce_worker id s = call_all (map (λ cb. cb id) callbacks.worker_failure) s

  abbrev pub announce_job : String → Reason → S → S
  announce_job id reason s = call_all (map (λ cb. cb id reason) callbacks.job_failure) s

  -- A failure to poll is not announced.
  unfoldable pub announce : String → Reason → S → S
  announce id (worker_failed w) s = announce_job id (worker_failed w) s
  announce id process_failed s = announce_job id process_failed s
  announce id (poll_failed e) s = s

  -- The loop over the workers that timed out.
  unfoldable pub report_workers : List String → List String → S → List String × S × List String
  report_workers [] seen s = (seen, s, [])
  report_workers (id ∷ ids) seen s =
      let old = contains seen id in
      let (seen', s', new) =
        report_workers ids (if old then seen else id ∷ seen)
          (if old then s else announce_worker id s) in
      (seen', s', if old then new else id ∷ new)

  -- A loop over a copy of the tracked jobs, which reports those that have a reason and are not
  -- among the failed ones.
  unfoldable pub report_jobs :
      {H : Type 0}
      → (Monitored H → Option Reason)
      → List (String × Monitored H)
      → List String
      → S
      → List String × S × List (String × Reason)
  report_jobs why [] seen s = (seen, s, [])
  report_jobs why ((id, info) ∷ items) seen s = elim (why info) [
    | none ↦ report_jobs why items seen s
    | some reason ↦
        let old = contains seen id in
        let (seen', s', new) =
          report_jobs why items (if old then seen else id ∷ seen)
            (if old then s else announce id reason s) in
        (seen', s', if old then new else (id, reason) ∷ new)
  ]

-- info["worker_id"] in self._failed_workers
abbrev pub on_failed_worker : {H : Type 0} → List String → Monitored H → Option Reason
on_failed_worker workers info =
    if contains workers info.worker_id then some (worker_failed info.worker_id) else none

-- What the backend's answer says of the job.
unfoldable pub poll_reason : Result JobStatus → Option Reason
poll_reason (ok failed) = some process_failed
poll_reason (ok _) = none
poll_reason (raise e) = some (poll_failed e)

unfoldable pub track_job :
    {F H : Type 0} → String → Monitored H → FailureDetector F H → FailureDetector F H
track_job id info d = record d { monitored_jobs = put id info d.monitored_jobs }

unfoldable pub untrack_job : {F H : Type 0} → String → FailureDetector F H → FailureDetector F H
untrack_job id d = record d { monitored_jobs = remove id d.monitored_jobs }

-- What a check leaves and answers.
pub record Checked (F H S : Type 0) : Type 0 where
  pub detector : FailureDetector F H
  pub outside : S
  pub new_worker_failures : List String
  pub new_job_failures : List (String × Reason)

unfoldable pub check_failures :
    {S H : Type 0} (f : Float)
    → Callbacks S
    → ℕ
    → (H → Result JobStatus)
    → FailureDetector f.F H
    → S
    → Checked f.F H S
check_failures f callbacks now poll d s =
    let (registry, timed_out_workers) = check_timeouts f now d.registry in
    let (workers, s1, new_workers) =
      report_workers callbacks timed_out_workers d.failed_workers s in
    let (jobs1, s2, new1) =
      report_jobs callbacks (on_failed_worker workers) d.monitored_jobs d.failed_jobs s1 in
    let (jobs2, s3, new2) =
      report_jobs callbacks (λ info. poll_reason (poll info.handle)) d.monitored_jobs jobs1 s2 in
    record {
      detector = record d { registry = registry; failed_workers = workers; failed_jobs = jobs2 };
      outside = s3;
      new_worker_failures = new_workers;
      new_job_failures = new1 ++ new2;
    }

-- The calls of a detector, and what happens to the registry that it shares. Each check comes with
-- its time and the answers of the backends.
pub data Call (F H : Type 0) : Type 0 where
  tracks : String → Monitored H → Call F H
  untracks : String → Call F H
  checks : ℕ → (H → Result JobStatus) → Call F H
  registry_changes : (WorkerRegistry F → WorkerRegistry F) → Call F H

-- What a history of calls leaves and has reported.
unfoldable pub run :
    {S H : Type 0} (f : Float)
    → Callbacks S
    → List (Call f.F H)
    → FailureDetector f.F H
    → S
    → Checked f.F H S
run f callbacks [] d s = record {
  detector = d;
  outside = s;
  new_worker_failures = [];
  new_job_failures = [];
}
run f callbacks (tracks id info ∷ cs) d s = run f callbacks cs (track_job id info d) s
run f callbacks (untracks id ∷ cs) d s = run f callbacks cs (untrack_job id d) s
run f callbacks (registry_changes g ∷ cs) d s =
    run f callbacks cs (record d { registry = g d.registry }) s
run f callbacks (checks now poll ∷ cs) d s =
    let c = check_failures f callbacks now poll d s in
    let rest = run f callbacks cs c.detector c.outside in
    record rest {
      new_worker_failures = c.new_worker_failures ++ rest.new_worker_failures;
      new_job_failures = c.new_job_failures ++ rest.new_job_failures;
    }
