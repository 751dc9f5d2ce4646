-- ===== src/Recovery/Detector/Reports.antt =====
-- check_failures in drigs/recovery/detector.py: which workers and which jobs one check reports.
use drigs.Prelude.{
  ℕ, String, ◌≡◌, refl, Bool, true, false, not, ◌&&◌, ◌||◌, Option, none, some, List, [], ◌∷◌, ◌++◌,
  map, arith, contains, Distinct, Among, if◌then◌else◌, Bool-cases, Option-cases, inl, inr,
}
use drigs.Dict.{Dict, lookup, keys, contains-keys}
use drigs.Models.{JobStatus}
use drigs.Result.{Result, ok, raise}
use drigs.Float.{Float}
use drigs.Workers.Registry.{check_timeouts}
use drigs.Recovery.Detector.{
  Reason, worker_failed, process_failed, poll_failed, Monitored, FailureDetector, Callbacks,
  report_workers, report_jobs, poll_reason, Checked, announce_worker, announce,
}

abbrev pub is_some : {A : Type 0} → Option A → Bool
is_some none = false
is_some (some a) = true

-- The jobs that a report names.
abbrev pub named : List (String × Reason) → List String
named = map (λ e. e.0)

-- The entry, if there is one, has a reason.
abbrev pub blamed : {H : Type 0} → (Monitored H → Option Reason) → Option (Monitored H) → Bool
blamed why none = false
blamed why (some info) = is_some (why info)

-- The calls, in order.
unfoldable pub apply_calls : {S : Type 0} → List (S → S) → S → S
apply_calls [] s = s
apply_calls (c ∷ cs) s = apply_calls cs (c s)

abbrev pub is_poll_failure : Reason → Bool
is_poll_failure (poll_failed e) = true
is_poll_failure _ = false

module _ {S : Type 0} (callbacks : Callbacks S) where
  -- Every callback for failed workers, for each of these workers.
  unfoldable pub worker_calls : List String → List (S → S)
  worker_calls [] = []
  worker_calls (id ∷ ids) = map (λ cb. cb id) callbacks.worker_failure ++ worker_calls ids

  -- Every callback for failed jobs, unless the backend could not be asked.
  unfoldable pub calls_for : String → Reason → List (S → S)
  calls_for id r = if is_poll_failure r then [] else map (λ cb. cb id r) callbacks.job_failure

  unfoldable pub job_calls : List (String × Reason) → List (S → S)
  unfolding calls_for
  job_calls [] = []
  job_calls ((id, r) ∷ new) = calls_for id r ++ job_calls new

module _ {S : Type 0} (callbacks : Callbacks S) where
  -- A reported worker was not reported before, and is remembered.
  pub contains-report_workers :
      (id : String) (ids seen : List String) (s : S)
      → let (seen', s', new) = report_workers callbacks ids seen s in
        (contains new id ≡ (contains ids id && not (contains seen id)))
        × (contains seen' id ≡ (contains seen id || contains ids id))
  unfolding report_workers contains
  contains-report_workers id [] seen s = (refl, ground arith)
  contains-report_workers id (x ∷ ids) seen s = elim (Bool-cases (contains seen x)) [
    | inl e ↦
        let (new, kept) = contains-report_workers id ids seen s in
        rw e (ground (arith, e, new), ground (arith, e, kept))
    | inr e ↦
        let (new, kept) =
          contains-report_workers id ids (x ∷ seen) (announce_worker callbacks x s) in
        rw e (ground (arith, e, new), ground (arith, e, kept))
  ]

  module _ {H : Type 0} (why : Monitored H → Option Reason) where
    pub contains-report_jobs :
        (id : String) (items : Dict (Monitored H)) (seen : List String) (s : S)
        → Distinct (keys items)
        → let (seen', s', new) = report_jobs callbacks why items seen s in
          (contains (named new) id ≡ (blamed why (lookup id items) && not (contains seen id)))
          × (contains seen' id ≡ (contains seen id || blamed why (lookup id items)))
    unfolding report_jobs contains lookup
    contains-report_jobs id [] seen s d = (refl, ground arith)
    contains-report_jobs id ((x, info) ∷ items) seen s d = elim (Option-cases (why info)) [
      | inl e ↦
          let (new, kept) = contains-report_jobs id items seen s d.1 in
          (
            ground (arith, e, new, d.0, contains-keys x items),
            ground (arith, e, kept, d.0, contains-keys x items),
          )
      | inr (reason, e) ↦ elim (Bool-cases (contains seen x)) [
        | inl c ↦
            let (new, kept) = contains-report_jobs id items seen s d.1 in
            (
              ground (arith, e, c, new, d.0, contains-keys x items),
              ground (arith, e, c, kept, d.0, contains-keys x items),
            )
        | inr c ↦
            let (new, kept) =
              contains-report_jobs id items (x ∷ seen) (announce callbacks x reason s) d.1 in
            (
              ground (arith, e, c, new, d.0, contains-keys x items),
              ground (arith, e, c, kept, d.0, contains-keys x items),
            )
      ]
    ]

  -- The callbacks are called for each entry, in order.
  announce_all : List (String × Reason) → S → S
  announce_all [] s = s
  announce_all ((id, reason) ∷ new) s = announce_all new (announce callbacks id reason s)

  announce_workers : List String → S → S
  announce_workers [] s = s
  announce_workers (id ∷ new) s = announce_workers new (announce_worker callbacks id s)

-- Why a tracked job has failed: its worker is among these, or else its backend raised or answered
-- FAILED.
unfoldable pub cause : List String → String → Result JobStatus → Option Reason
cause workers worker answer =
    if contains workers worker then some (worker_failed worker) else elim answer [
      | raise e ↦ some (poll_failed e)
      | ok JobStatus.failed ↦ some process_failed
      | ok _ ↦ none
    ]

-- Whether a tracked job has failed.
unfoldable pub has_failed :
    {H : Type 0} → List String → (H → Result JobStatus) → Option (Monitored H) → Bool
unfolding cause
has_failed workers poll none = false
has_failed workers poll (some info) = is_some (cause workers info.worker_id (poll info.handle))

-- A reported job is tracked, and its reason is the one that it failed for.
unfoldable pub Explained :
    {H : Type 0}
    → Dict (Monitored H)
    → List String
    → (H → Result JobStatus)
    → String × Reason
    → Type 0
Explained {H = H} jobs workers poll (id, r) =
    (info : Monitored H) × ((lookup id jobs ≡ some info)
      × (cause workers info.worker_id (poll info.handle) ≡ some r))

-- What a check of the detector `d` reports.
pub record IsReported {S H : Type 0} (f : Float) (callbacks : Callbacks S) (now : ℕ)
    (poll : H → Result JobStatus) (d : FailureDetector f.F H) (s : S) (c : Checked f.F H S)
    : Type 0 where
  pub workers :
      (id : String)
      → contains c.new_worker_failures id
        ≡ (contains (check_timeouts f now d.registry).1 id && not (contains d.failed_workers id))
  pub jobs :
      (id : String)
      → contains (named c.new_job_failures) id ≡ (
          has_failed c.detector.failed_workers poll (lookup id d.monitored_jobs)
          && not (contains d.failed_jobs id))
  pub remembered :
      (id : String)
      → contains c.detector.failed_jobs id
        ≡ (contains d.failed_jobs id || contains (named c.new_job_failures) id)
  pub reasons :
      (id : String) (r : Reason)
      → Among (id, r) c.new_job_failures
      → Explained d.monitored_jobs c.detector.failed_workers poll (id, r)
  pub announced :
      c.outside
      ≡ apply_calls
          (worker_calls callbacks c.new_worker_failures ++ job_calls callbacks c.new_job_failures)
          s

abbrev poll_blame : {H : Type 0} → (H → Result JobStatus) → Monitored H → Option Reason
poll_blame poll info = poll_reason (poll info.handle)
