-- ===== src/Recovery/Detector/Once.antt =====
-- FailureDetector in drigs/recovery/detector.py over a history of calls: no failure is reported
-- twice.
use drigs.Prelude.{
  ℕ, String, ◌≡◌, refl, sym, ap, subst, true, false, ◌||◌, Option, List, [], ◌∷◌, ◌++◌, arith,
  contains, contains-append, Apart, Distinct, Distinct-append, Bool-cases, Option-cases, inl, inr,
}
use drigs.Dict.{Dict}
use drigs.Models.{JobStatus}
use drigs.Result.{Result}
use drigs.Float.{Float}
use drigs.Workers.Registry.{WorkerRegistry, check_timeouts}
use drigs.Recovery.Detector.{
  Reason, Monitored, FailureDetector, new_detector, Callbacks, report_workers, report_jobs,
  on_failed_worker, poll_reason, Checked, check_failures, announce_worker, announce, track_job,
  untrack_job, Call, tracks, untracks, checks, registry_changes, run,
}
use drigs.Recovery.Detector.Reports.{named}

-- `new` has been added to `seen`, which had none of it: `seen'` is the result.
record IsFresh (seen seen' new : List String) : Type 0 where
  grown : (id : String) → contains seen' id ≡ (contains seen id || contains new id)
  fresh : (id : String) → contains seen id ≡ true → contains new id ≡ false
  distinct : Distinct new

nothing_new : (seen : List String) → IsFresh seen seen []
unfolding contains
nothing_new seen = record { grown = λ id. ground arith; fresh = λ id c. refl; distinct = tt }

one_new :
    (x : String) (seen seen' new : List String)
    → contains seen x ≡ false
    → IsFresh (x ∷ seen) seen' new
    → IsFresh seen seen' (x ∷ new)
unfolding contains
one_new x seen seen' new n h = record {
  grown = λ id. ground (arith, h.grown id);
  fresh = λ id c. ground (arith, c, n, h.fresh id);
  distinct = (ground (arith, h.fresh x), h.distinct);
}

Apart-intro :
    (xs ys zs : List String)
    → ((id : String) → contains zs id ≡ true → contains xs id ≡ false)
    → ((id : String) → contains ys id ≡ true → contains zs id ≡ true)
    → Apart xs ys
unfolding contains
Apart-intro xs [] zs f g = tt
Apart-intro xs (y ∷ ys) zs f g =
    (f y (g y (ground arith)), Apart-intro xs ys zs f (λ id c. g id (ground (arith, c))))

both_new : (a b c xs ys : List String) → IsFresh a b xs → IsFresh b c ys → IsFresh a c (xs ++ ys)
both_new a b c xs ys g h = record {
  grown = λ id. ground (arith, contains-append xs ys id, g.grown id, h.grown id);
  fresh = λ id e. ground (arith, e, contains-append xs ys id, g.grown id, g.fresh id e, h.fresh id);
  distinct =
      Distinct-append xs ys g.distinct h.distinct
        (Apart-intro xs ys ys (λ id e. ground (arith, e, g.grown id, h.fresh id)) (λ id e. e));
}

module _ {S : Type 0} (callbacks : Callbacks S) where
  report_workers-IsFresh :
      (ids seen : List String) (s : S)
      → let (seen', s', new) = report_workers callbacks ids seen s in IsFresh seen seen' new
  unfolding report_workers
  report_workers-IsFresh [] seen s = nothing_new seen
  report_workers-IsFresh (x ∷ ids) seen s = elim (Bool-cases (contains seen x)) [
    | inl e ↦ rw e (report_workers-IsFresh ids seen s)
    | inr e ↦ rw e (
        one_new x seen _ _ e
          (report_workers-IsFresh ids (x ∷ seen) (announce_worker callbacks x s)))
  ]

  module _ {H : Type 0} (why : Monitored H → Option Reason) where
    report_jobs-IsFresh :
        (items : Dict (Monitored H)) (seen : List String) (s : S)
        → let (seen', s', new) = report_jobs callbacks why items seen s in
          IsFresh seen seen' (named new)
    unfolding report_jobs
    report_jobs-IsFresh [] seen s = nothing_new seen
    report_jobs-IsFresh ((x, info) ∷ items) seen s = elim (Option-cases (why info)) [
      | inl e ↦ rw (report_jobs, e) (report_jobs-IsFresh items seen s)
      | inr (reason, e) ↦ elim (Bool-cases (contains seen x)) [
        | inl c ↦ rw (report_jobs, e, c) (report_jobs-IsFresh items seen s)
        | inr c ↦
            rw (report_jobs, e, c)
              (one_new x seen _ _ c
                (report_jobs-IsFresh items (x ∷ seen) (announce callbacks x reason s)))
      ]
    ]

record AreFresh {F H S : Type 0} (d : FailureDetector F H) (c : Checked F H S) : Type 0 where
  workers : IsFresh d.failed_workers c.detector.failed_workers c.new_worker_failures
  jobs : IsFresh d.failed_jobs c.detector.failed_jobs (named c.new_job_failures)

named-append : (xs ys : List (String × Reason)) → named (xs ++ ys) ≡ named xs ++ named ys
named-append [] ys = refl
named-append (x ∷ xs) ys = ap (◌∷◌ x.0) (named-append xs ys)

module _ {S H : Type 0} (f : Float) (callbacks : Callbacks S) where
  check_failures-AreFresh :
      (now : ℕ) (poll : H → Result JobStatus) (d : FailureDetector f.F H) (s : S)
      → AreFresh d (check_failures f callbacks now poll d s)
  unfolding check_failures
  check_failures-AreFresh now poll d s =
      let late = (check_timeouts f now d.registry).1 in
      let first = report_workers callbacks late d.failed_workers s in
      let why1 = on_failed_worker first.0 in
      let second = report_jobs callbacks why1 d.monitored_jobs d.failed_jobs first.1 in
      let why2 : Monitored H → Option Reason = λ info. poll_reason (poll info.handle) in
      let third = report_jobs callbacks why2 d.monitored_jobs second.0 second.1 in
      record {
        workers = report_workers-IsFresh callbacks late d.failed_workers s;
        jobs = subst (IsFresh d.failed_jobs third.0) (sym (named-append second.2 third.2)) (
            both_new _ _ _ _ _
              (report_jobs-IsFresh callbacks why1 d.monitored_jobs d.failed_jobs first.1)
              (report_jobs-IsFresh callbacks why2 d.monitored_jobs second.0 second.1));
      }

  run-AreFresh :
      (cs : List (Call f.F H)) (d : FailureDetector f.F H) (s : S)
      → AreFresh d (run f callbacks cs d s)
  unfolding run track_job untrack_job
  run-AreFresh [] d s = record {
    workers = nothing_new d.failed_workers;
    jobs = nothing_new d.failed_jobs;
  }
  run-AreFresh (tracks id info ∷ cs) d s =
      let rest = run-AreFresh cs (track_job id info d) s in
      record { workers = rest.workers; jobs = rest.jobs }
  run-AreFresh (untracks id ∷ cs) d s =
      let rest = run-AreFresh cs (untrack_job id d) s in
      record { workers = rest.workers; jobs = rest.jobs }
  run-AreFresh (registry_changes g ∷ cs) d s =
      let rest = run-AreFresh cs (record d { registry = g d.registry }) s in
      record { workers = rest.workers; jobs = rest.jobs }
  run-AreFresh (checks now poll ∷ cs) d s =
      let c = check_failures f callbacks now poll d s in
      let here = check_failures-AreFresh now poll d s in
      let rest = run-AreFresh cs c.detector c.outside in
      record {
        workers = both_new _ _ _ _ _ here.workers rest.workers;
        jobs =
            subst (IsFresh d.failed_jobs _)
              (sym (
                named-append c.new_job_failures
                  (run f callbacks cs c.detector c.outside).new_job_failures))
              (both_new _ _ _ _ _ here.jobs rest.jobs);
      }

  -- Over any calls on a new detector, whatever happens to the registry meanwhile, no worker and no
  -- job is reported twice: also not a worker that came back and failed again, nor a job that was
  -- untracked and tracked again.
  pub run-Distinct :
      (cs : List (Call f.F H)) (r : WorkerRegistry f.F) (s : S)
      → let c = run f callbacks cs (new_detector r) s in
        Distinct c.new_worker_failures × Distinct (named c.new_job_failures)
  run-Distinct cs r s =
      let h = run-AreFresh cs (new_detector r) s in (h.workers.distinct, h.jobs.distinct)
