-- ===== src/Controller/Invariant.antt =====
-- drigs/core/controller.py: what every method keeps.
use drigs.Prelude.{
  ℕ, String, ◌≡◌, Option, none, List, [], ◌∷◌, arith, inl, inr, ◌⊎◌, Bool-cases, Option-cases,
}
use drigs.Dict.{lookup, lookup-remove}
use drigs.Models.{Job, WorkloadSpec}
use drigs.Models.JobStatus.{cancelled}
use drigs.Result.{ok, raise, Error, Result-cases}
use drigs.Admission.{admit_job}
use drigs.Queue.{JobQueue, enqueue}
use drigs.Queue.Invariant.{enqueue-IsValid}
use drigs.Resources.Exclusive.{deallocate-IsExclusive}
use drigs.Resources.Loading.{IsFreshEvent, perform-IsExclusive}
use drigs.Resources.Loading
use drigs.Queue.Loading.{load-IsValid}
use drigs.Controller.{
  World, LocalController, load_persisted_state, submit_job, set_status, step, release, cancel_job,
  new_job, name_of, is_active,
}
use drigs.Controller.Pass.{IsSound, IsFresh, set_status-IsSound, step-IsSound, noted_after_pop}

module _ {H : Type 0} where
  release-IsSound :
      (w : World H) (id : String) (c : LocalController H) → IsSound c → IsSound (release w id c).0
  unfolding release
  release-IsSound w id c v = elim (Option-cases (lookup id c.handles)) [
    | inl e ↦ rw (e, release) v
    | inr (handle, e) ↦ elim (Result-cases (w.stop handle)) [
      | inr (err, s) ↦
          rw (e, release, s)
            (record {
              queue = v.queue;
              manager = v.manager;
              noted = λ k h. v.noted k (ground (arith, h, lookup-remove id k c.handles));
            })
      | inl (done, s) ↦
          rw (e, release, s)
            (record {
              queue = v.queue;
              manager = deallocate-IsExclusive id c.resource_manager v.manager;
              noted = noted_after_pop id c v;
            })
    ]
  ]

  cancel_job-IsSound :
      (w : World H) (id : String) (c : LocalController H)
      → IsSound c
      → IsSound (cancel_job w id c).0
  unfolding cancel_job
  cancel_job-IsSound w id c v = elim (Option-cases (lookup id c.job_queue.jobs)) [
    | inl e ↦ rw (e, cancel_job) v
    | inr (job, e) ↦
        let next = release-IsSound w id c v in
        elim (Option-cases (release w id c).1) [
          | inr (err, r) ↦ rw (e, cancel_job, r) next
          | inl r ↦ elim (Bool-cases (is_active job.status)) [
            | inr b ↦ rw (e, cancel_job, r, b) next
            | inl b ↦
                let last = set_status-IsSound w id cancelled none _ next in
                elim (Option-cases (set_status w id cancelled none (release w id c).0).1) [
                  | inl s ↦ rw (e, cancel_job, r, b, s) last
                  | inr (err, s) ↦ rw (e, cancel_job, r, b, s) last
                ]
          ]
        ]
  ]

  -- A submission that is turned down changes nothing.
  abbrev pub submitted :
      String → ℕ → WorkloadSpec → ℕ → Option String → LocalController H → LocalController H
  submitted job_id now spec priority job_name c =
      elim (submit_job job_id now spec priority job_name c) [ ok (c', job) ↦ c' | raise e ↦ c ]

  submit_cases :
      (job_id : String) (now : ℕ) (spec : WorkloadSpec) (priority : ℕ) (job_name : Option String)
      (c : LocalController H)
      → ((err : Error) × (submit_job job_id now spec priority job_name c ≡ raise err))
        ⊎ ((job : Job) × (queue : JobQueue) × (enqueue job c.job_queue ≡ ok queue)
            × (submit_job job_id now spec priority job_name c
                ≡ ok (record c { job_queue = queue }, job)))
  unfolding submit_job
  submit_cases job_id now spec priority job_name c =
      elim (Result-cases (
        admit_job c.admission_controller
          (new_job job_id now priority (name_of job_name spec) spec))) [
            | inr (err, a) ↦ inl (err, rw (submit_job, a))
            | inl (job, a) ↦ elim (Result-cases (enqueue job c.job_queue)) [
              | inr (err, q) ↦ inl (err, rw (submit_job, a, q))
              | inl (queue, q) ↦ inr (job, queue, q, rw (submit_job, a, q))
            ]
          ]

  submitted-IsSound :
      (job_id : String) (now : ℕ) (spec : WorkloadSpec) (priority : ℕ) (job_name : Option String)
      (c : LocalController H)
      → IsSound c
      → IsSound (submitted job_id now spec priority job_name c)
  submitted-IsSound job_id now spec priority job_name c v =
      elim (submit_cases job_id now spec priority job_name c) [
        | inl (err, e) ↦ rw (submitted, e) v
        | inr (job, queue, q, e) ↦
            let valid = enqueue-IsValid job c.job_queue v.queue in
            rw (submitted, e)
              (record { queue = rw q at valid; manager = v.manager; noted = v.noted })
      ]

-- The calls of clients and of the loop, in the order in which the lock admits them, each with the
-- world as it answers then.
pub data Call (H : Type 0) : Type 0 where
  submits : (job_id : String) → ℕ → WorkloadSpec → ℕ → Option String → Call H
  steps : World H → Call H
  cancels : World H → String → Call H
  loads : (uuid : ℕ → String) → Call H

module _ {H : Type 0} where
  abbrev pub perform : Call H → LocalController H → LocalController H
  perform (submits job_id now spec priority job_name) c =
      submitted job_id now spec priority job_name c
  perform (steps w) c = (step w c).0
  perform (cancels w id) c = (cancel_job w id c).0
  perform (loads uuid) c = (load_persisted_state uuid c).0

  -- The ids that a call draws are new; a load happens while no job waits, and the allocations that
  -- it loads hold free devices.
  abbrev pub DrawsFresh : Call H → LocalController H → Type 0
  DrawsFresh (steps w) c = IsFresh w
  DrawsFresh (loads uuid) c =
      (c.job_queue.queue ≡ []) × IsFreshEvent (Loading.loads uuid) c.resource_manager
  DrawsFresh _ c = Unit

  abbrev pub AllDrawFresh : List (Call H) → LocalController H → Type 0
  AllDrawFresh [] c = Unit
  AllDrawFresh (call ∷ calls) c = DrawsFresh call c × AllDrawFresh calls (perform call c)

  loaded-IsSound :
      (uuid : ℕ → String) (c : LocalController H)
      → IsFreshEvent (Loading.loads uuid) c.resource_manager
      → IsSound c
      → IsSound (load_persisted_state uuid c).0
  unfolding load_persisted_state Loading.perform
  loaded-IsSound uuid c f v = record {
    queue = load-IsValid c.job_queue v.queue;
    manager = perform-IsExclusive (Loading.loads uuid) c.resource_manager f v.manager;
    noted = v.noted;
  }

  abbrev pub perform_all : List (Call H) → LocalController H → LocalController H
  perform_all [] c = c
  perform_all (call ∷ calls) c = perform_all calls (perform call c)

  -- Whatever clients submit and cancel, whatever a scheduler proposes and a backend answers, and
  -- whichever exceptions are caught: if this holds of a controller, such as a new one, it holds after
  -- any calls of submit_job, step, cancel_job and load_persisted_state in which the ids drawn for
  -- allocations are not in use and a load happens only while no job waits and no active allocation
  -- holds a device of a stored one: the queue is well-formed, no device is held by two active
  -- allocations nor offered while it is held, and the controller has noted an allocation for every
  -- job with a handle.
  pub perform_all-IsSound :
      (calls : List (Call H)) (c : LocalController H)
      → AllDrawFresh calls c
      → IsSound c
      → IsSound (perform_all calls c)
  perform_all-IsSound [] c f v = v
  perform_all-IsSound (submits job_id now spec priority job_name ∷ calls) c f v =
      perform_all-IsSound calls _ f.1 (submitted-IsSound job_id now spec priority job_name c v)
  perform_all-IsSound (steps w ∷ calls) c f v =
      perform_all-IsSound calls _ f.1 (step-IsSound w c f.0 v)
  perform_all-IsSound (cancels w id ∷ calls) c f v =
      perform_all-IsSound calls _ f.1 (cancel_job-IsSound w id c v)
  perform_all-IsSound (loads uuid ∷ calls) c f v =
      perform_all-IsSound calls _ f.1 (loaded-IsSound uuid c f.0.1 v)
