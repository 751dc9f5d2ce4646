-- ===== src/Workers/Dispatcher/Dispatch.antt =====
-- RemoteDispatcher.dispatch in drigs/workers/dispatcher.py: to which workers a job goes.
use drigs.Prelude.{
  ℕ, String, ◌≡◌, ◌≢◌, refl, sym, ap, ◌∙◌, true, false, some, Distinct, Bool-cases, Option-cases,
  inl, inr,
}
use drigs.Dict.{lookup, put, keys, lookup-put_self, lookup-put_other}
use drigs.Models.{DeviceState, Job, ResourceAllocation, WorkerInfo}
use drigs.Result.{Result, ok, raise, Result-cases}
use drigs.Float.{Float}
use drigs.Workers.Registry.{check_timeouts, get_worker, is_active, is_late}
use drigs.Workers.Registry.Timeouts.{check_timeouts-IsSettled}
use drigs.Workers.Agent.{ExecutionBackend, WorkerAgent, launch_job}
use drigs.Workers.Dispatcher.{RemoteDispatcher, is_down, launch_on, dispatch}

-- What a dispatch leaves when it answers a handle, and when it raises.
unfoldable pub IsDispatched :
    (f : Float) {B H : Type 0}
    → ExecutionBackend B H
    → ℕ
    → Job
    → ResourceAllocation
    → RemoteDispatcher f.F B H
    → RemoteDispatcher f.F B H
    → Result H
    → Type 0
IsDispatched f backend now job a d d' (raise e) =
    (d'.handles ≡ d.handles) × (d'.job_worker_map ≡ d.job_worker_map)
IsDispatched f {B = B} {H = H} backend now job a d d' (ok h) =
    ((w : WorkerInfo) × ((lookup a.worker_id d'.registry.workers ≡ some w)
        × (is_late f d.registry.timeout_seconds now w ≡ false)))
    × ((agent : WorkerAgent B H) × (b : B) × (lookup a.worker_id d.agents ≡ some agent)
        × (backend.launch job a agent.execution_backend ≡ (b, ok h))
        × (lookup a.worker_id d'.agents
            ≡ some (record agent {
              execution_backend = b;
              active_handles = put job.job_id h agent.active_handles;
            })))
    × ((id : String) → a.worker_id ≢ id → lookup id d'.agents ≡ lookup id d.agents)
    × (lookup job.job_id d'.handles ≡ some h)
    × (lookup job.job_id d'.job_worker_map ≡ some a.worker_id)
    × ((id : String)
        → job.job_id ≢ id
        → (lookup id d'.handles ≡ lookup id d.handles)
          × (lookup id d'.job_worker_map ≡ lookup id d.job_worker_map))

up_active : (s : DeviceState) → is_down s ≡ false → is_active s ≡ true
up_active DeviceState.healthy e = refl
up_active DeviceState.degraded e = refl
up_active DeviceState.unavailable e = sym e
up_active DeviceState.offline e = sym e

module _ (f : Float) {B H : Type 0} (backend : ExecutionBackend B H) (now : ℕ) (job : Job)
    (a : ResourceAllocation) (d : RemoteDispatcher f.F B H) where
  -- The dispatcher after the check of the timeouts.
  checked : RemoteDispatcher f.F B H
  checked = record d { registry = (check_timeouts f now d.registry).0 }

  launch_job-ok :
      (agent : WorkerAgent B H) (h : H)
      → (backend.launch job a agent.execution_backend).1 ≡ ok h
      → launch_job backend job a agent ≡ (
        record agent {
          execution_backend = (backend.launch job a agent.execution_backend).0;
          active_handles = put job.job_id h agent.active_handles;
        },
        ok h,
      )
  unfolding launch_job
  launch_job-ok agent h r = rw (launch_job, r) refl

  launched :
      (agent : WorkerAgent B H) (w : WorkerInfo)
      → lookup a.worker_id checked.registry.workers ≡ some w
      → is_late f d.registry.timeout_seconds now w ≡ false
      → lookup a.worker_id d.agents ≡ some agent
      → let (d', answer) = launch_on f backend job a agent checked in
        IsDispatched f backend now job a d d' answer
  unfolding launch_on launch_job checked IsDispatched
  launched agent w found fresh known =
      let b = (backend.launch job a agent.execution_backend).0 in
      elim (Result-cases (backend.launch job a agent.execution_backend).1) [
        | inr (e, r) ↦ rw (launch_on, launch_job, r) (refl, refl)
        | inl (h, r) ↦
            rw (launch_on, launch_job-ok agent h r)
              (
                (w, (found, fresh)),
                (
                  agent,
                  b,
                  known,
                  ap (λ o. (b, o)) r,
                  lookup-put_self a.worker_id _ d.agents
                      ∙ ap (λ p. some p.0) (launch_job-ok agent h r),
                ),
                λ id n. lookup-put_other a.worker_id id _ d.agents n,
                lookup-put_self job.job_id h d.handles,
                lookup-put_self job.job_id a.worker_id d.job_worker_map,
                λ id n. (
                  lookup-put_other job.job_id id h d.handles n,
                  lookup-put_other job.job_id id a.worker_id d.job_worker_map n,
                ),
              )
      ]

  -- In a registry whose workers have distinct ids: a dispatch that answers a handle has launched
  -- the job with the backend of the agent of the allocation's worker, which is registered and was
  -- heard from within the timeout; that agent keeps the backend's new state and the handle, and
  -- every other agent is as it was; the handle and the worker are noted for the job and nothing for
  -- any other job. A dispatch that raises has noted nothing.
  pub dispatch-IsDispatched :
      Distinct (keys d.registry.workers)
      → let (d', answer) = dispatch f backend now job a d in
        IsDispatched f backend now job a d d' answer
  unfolding dispatch get_worker IsDispatched checked
  dispatch-IsDispatched k =
      let settled = check_timeouts-IsSettled f now d.registry k in
      elim (Option-cases (lookup a.worker_id checked.registry.workers)) [
        | inl e ↦ rw (dispatch, e) (refl, refl)
        | inr (w, e) ↦ elim (Bool-cases (is_down w.status)) [
          | inl s ↦ rw (dispatch, e, s) (refl, refl)
          | inr s ↦ elim (Option-cases (lookup a.worker_id d.agents)) [
            | inl g ↦ rw (dispatch, e, s, g) (refl, refl)
            | inr (agent, g) ↦
                rw (dispatch, e, s, g)
                  (launched agent w e (settled.alive a.worker_id w e (up_active w.status s)) g)
          ]
        ]
      ]
