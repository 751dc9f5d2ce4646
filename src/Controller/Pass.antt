-- ===== src/Controller/Pass.antt =====
-- drigs/core/controller.py: what the orchestration pass keeps.
use drigs.Prelude.{
  String, ◌≡◌, refl, true, false, Option, none, some, List, [], ◌∷◌, arith, inl, inr, Bool-cases,
  Option-cases, if◌then◌else◌, is_empty, ◌||◌,
}
use drigs.Dict.{Dict, lookup, remove, has, keys, lookup-put, lookup-remove}
use drigs.Models.{Job, JobStatus, ResourceAllocation}
use drigs.Models.JobStatus.{scheduled, running, failed}
use drigs.Result.{Error, Result-cases}
use drigs.Queue.{update_job_status, get_pending_jobs, is_terminal}
use drigs.Queue.Invariant.{IsValid}
use drigs.Queue.Calls.{put-IsValid, update-IsValid}
use drigs.Resources.{ResourceManager, allocate_resources, deallocate_resources, get_cluster_state}
use drigs.Resources.Exclusive.{IsExclusive, allocate-IsExclusive, deallocate-IsExclusive}
use drigs.Controller.{
  World, LocalController, set_status, assign, start_job, reserve_job, try_place, fail_job,
  place_one, place_all, finish, poll, step, request_for,
}

module _ {H : Type 0} where
  -- The queue is well-formed, no device is held twice, and the controller has noted the allocation
  -- of every job that has a handle.
  pub record IsSound (c : LocalController H) : Type 0 where
    pub queue : IsValid c.job_queue
    pub manager : IsExclusive c.resource_manager
    pub noted : (id : String) → has id c.handles ≡ true → has id c.allocations ≡ true

  -- The ids that the world draws are not in use.
  abbrev pub IsFresh : World H → Type 0
  IsFresh w = (m : Dict ResourceAllocation) → has (w.uuid m) m ≡ false

  pub set_status-IsSound :
      (w : World H) (id : String) (new : JobStatus) (message : Option String)
      (c : LocalController H)
      → IsSound c
      → IsSound (set_status w id new message c).0
  unfolding set_status
  set_status-IsSound w id new message c v =
      let valid = update-IsValid (w.changed_at id new) id new message c.job_queue v.queue in
      elim (Result-cases (update_job_status (w.changed_at id new) id new message c.job_queue)) [
        | inl ((q, job), e) ↦
            rw (e, set_status)
              (record { queue = rw e at valid; manager = v.manager; noted = v.noted })
        | inr (err, e) ↦ rw (e, set_status) v
      ]

  assign-IsSound :
      (id : String) (real : ResourceAllocation) (c : LocalController H)
      → IsSound c
      → IsSound (assign id real c)
  unfolding assign
  assign-IsSound id real c v = elim (Option-cases (lookup id c.job_queue.jobs)) [
    | inl e ↦ rw (e, assign) v
    | inr (job, e) ↦
        rw (e, assign)
          (record {
            queue = put-IsValid c.job_queue id job _ c.job_queue.storage v.queue e refl refl refl;
            manager = v.manager;
            noted = v.noted;
          })
  ]

  start_job-IsSound :
      (w : World H) (job : Job) (real : ResourceAllocation) (c : LocalController H)
      → IsSound c
      → IsSound (start_job w job real c).0
  unfolding start_job
  start_job-IsSound w job real c v = elim (Option-cases (lookup job.job_id c.job_queue.jobs)) [
    | inl e ↦ rw (e, start_job) v
    | inr (current, e) ↦ elim (Result-cases (w.launch current real)) [
      | inr (err, l) ↦ rw (e, start_job, l) v
      | inl (handle, l) ↦
          rw (e, start_job, l)
            (set_status-IsSound w job.job_id running none _ (record {
              queue = v.queue;
              manager = v.manager;
              noted = λ id h. ground (
                arith,
                h,
                v.noted id,
                lookup-put job.job_id id handle c.handles,
                lookup-put job.job_id id real c.allocations,
              );
            }))
    ]
  ]

  manager-IsSound :
      (m : ResourceManager) (c : LocalController H)
      → IsExclusive m
      → IsSound c
      → IsSound (record c { resource_manager = m })
  manager-IsSound m c x v = record { queue = v.queue; manager = x; noted = v.noted }

  reserve_job-IsSound :
      (w : World H) (job : Job) (alloc : ResourceAllocation) (c : LocalController H)
      → IsFresh w
      → IsSound c
      → IsSound (reserve_job w job alloc c).0
  unfolding reserve_job
  reserve_job-IsSound w job alloc c f v =
      let uuid = w.uuid c.resource_manager.allocations in
      let now = w.allocated_at job.job_id in
      let r = request_for job alloc in
      let done = allocate_resources uuid now r c.resource_manager in
      let next =
        manager-IsSound done.0 c
          (allocate-IsExclusive uuid now r c.resource_manager (f c.resource_manager.allocations)
            v.manager)
          v in
      elim (Result-cases done.1) [
        | inr (err, e) ↦ rw (e, reserve_job) next
        | inl (real, e) ↦
            rw (e, reserve_job)
              (start_job-IsSound w job real _ (assign-IsSound job.job_id real _ next))
      ]

  try_place-IsSound :
      (w : World H) (job : Job) (alloc : ResourceAllocation) (c : LocalController H)
      → IsFresh w
      → IsSound c
      → IsSound (try_place w job alloc c).0
  unfolding try_place
  try_place-IsSound w job alloc c f v =
      let next = set_status-IsSound w job.job_id scheduled none c v in
      elim (Option-cases (set_status w job.job_id scheduled none c).1) [
        | inr (err, e) ↦ rw (e, try_place) next
        | inl e ↦ rw (e, try_place) (reserve_job-IsSound w job alloc _ f next)
      ]

  free-IsSound :
      (id : String) (c : LocalController H)
      → IsSound c
      → IsSound (record c { resource_manager = (deallocate_resources id c.resource_manager).0 })
  free-IsSound id c v =
      manager-IsSound _ c (deallocate-IsExclusive id c.resource_manager v.manager) v

  fail_job-IsSound :
      (w : World H) (job : Job) (err : Error) (c : LocalController H)
      → IsSound c
      → IsSound (fail_job w job err c).0
  unfolding fail_job
  fail_job-IsSound w job err c v =
      let next = set_status-IsSound w job.job_id failed (some (w.message err)) c v in
      elim (Option-cases (set_status w job.job_id failed (some (w.message err)) c).1) [
        | inr (x, e) ↦ rw (e, fail_job) next
        | inl e ↦ rw (e, fail_job) (free-IsSound job.job_id _ next)
      ]

  place_one-IsSound :
      (w : World H) (alloc : ResourceAllocation) (c : LocalController H)
      → IsFresh w
      → IsSound c
      → IsSound (place_one w alloc c).0
  unfolding place_one
  place_one-IsSound w alloc c f v = elim (Option-cases (lookup alloc.job_id c.job_queue.jobs)) [
    | inl e ↦ rw (e, place_one) v
    | inr (job, e) ↦
        let next = try_place-IsSound w job alloc c f v in
        elim (Option-cases (try_place w job alloc c).1) [
          | inl t ↦ rw (e, place_one, t) next
          | inr (err, t) ↦ rw (e, place_one, t) (fail_job-IsSound w job err _ next)
        ]
  ]

  place_all-IsSound :
      (w : World H) (allocs : List ResourceAllocation) (c : LocalController H)
      → IsFresh w
      → IsSound c
      → IsSound (place_all w allocs c).0
  unfolding place_all
  place_all-IsSound w [] c f v = v
  place_all-IsSound w (alloc ∷ more) c f v =
      let next = place_one-IsSound w alloc c f v in
      elim (Option-cases (place_one w alloc c).1) [
        | inr (err, e) ↦ rw (e, place_all) next
        | inl e ↦ rw (e, place_all) (place_all-IsSound w more _ f next)
      ]

  -- A job's handle and the note of its allocation go together.
  pub noted_after_pop :
      (id : String) (c : LocalController H)
      → IsSound c
      → (k : String) → has k (remove id c.handles) ≡ true
      → has k (remove id c.allocations) ≡ true
  noted_after_pop id c v k h =
      ground (arith, h, v.noted k, lookup-remove id k c.handles, lookup-remove id k c.allocations)

  finish-IsSound :
      (w : World H) (id : String) (status : JobStatus) (c : LocalController H)
      → IsSound c
      → IsSound (finish w id status c)
  unfolding finish
  finish-IsSound w id status c v =
      let next = set_status-IsSound w id status none c v in
      elim (Option-cases (set_status w id status none c).1) [
        | inr (err, e) ↦ rw (e, finish) next
        | inl e ↦
            rw (e, finish)
              (let freed = free-IsSound id _ next in
                record {
                  queue = freed.queue;
                  manager = freed.manager;
                  noted = noted_after_pop id _ freed;
                })
      ]

  poll-IsSound :
      (w : World H) (ids : List String) (c : LocalController H) → IsSound c → IsSound (poll w ids c)
  unfolding poll
  poll-IsSound w [] c v = v
  poll-IsSound w (id ∷ ids) c v = elim (Option-cases (lookup id c.handles)) [
    | inl e ↦ rw (e, poll) (poll-IsSound w ids c v)
    | inr (handle, e) ↦ elim (Result-cases (w.get_status handle)) [
      | inr (err, s) ↦ rw (e, poll, s) (poll-IsSound w ids c v)
      | inl (status, s) ↦ elim (Bool-cases (is_terminal status)) [
        | inl b ↦ rw (e, poll, s, b) (poll-IsSound w ids _ (finish-IsSound w id status c v))
        | inr b ↦ rw (e, poll, s, b) (poll-IsSound w ids c v)
      ]
    ]
  ]

  pub step-IsSound :
      (w : World H) (c : LocalController H) → IsFresh w → IsSound c → IsSound (step w c).0
  unfolding step
  step-IsSound w c f v =
      let jobs = get_pending_jobs c.job_queue in
      let state = get_cluster_state c.resource_manager in
      let proposed = if is_empty jobs || is_empty state.workers then [] else w.plan jobs state in
      let next = place_all-IsSound w proposed c f v in
      elim (Option-cases (place_all w proposed c).1) [
        | inr (err, e) ↦ rw (e, step) next
        | inl e ↦ rw (e, step) (poll-IsSound w (keys (place_all w proposed c).0.handles) _ next)
      ]
