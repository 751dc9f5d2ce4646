-- ===== src/Workers/Dispatcher/Paired.antt =====
-- RemoteDispatcher in drigs/workers/dispatcher.py over a history of calls: its two tables of jobs
-- agree.
use drigs.Prelude.{ℕ, String, ◌≡◌, refl, List, [], ◌∷◌, arith, Bool-cases, Option-cases, inl, inr}
use drigs.Dict.{lookup, has, lookup-put, lookup-remove}
use drigs.Models.{Job, ResourceAllocation}
use drigs.Result.{Result-cases}
use drigs.Float.{Float}
use drigs.Workers.Registry.{WorkerRegistry, check_timeouts, get_worker}
use drigs.Workers.Agent.{ExecutionBackend, WorkerAgent, launch_job, stop_job as stop_agent_job}
use drigs.Workers.Dispatcher.{
  RemoteDispatcher, new_dispatcher, is_down, worker_of, register_agent, unregister_agent,
  get_active_worker_ids, launch_on, dispatch, stop_on, stop_job, status_on, get_job_status, Call,
  registers, unregisters, dispatches, stops, polls, lists, step, run,
}

-- A job has a handle just if it has a worker.
abbrev pub IsPaired : {F B H : Type 0} → RemoteDispatcher F B H → Type 0
IsPaired d = (id : String) → has id d.handles ≡ has id d.job_worker_map

module _ (f : Float) {B H : Type 0} (backend : ExecutionBackend B H) where
  launch_on-IsPaired :
      (job : Job) (a : ResourceAllocation) (agent : WorkerAgent B H) (d : RemoteDispatcher f.F B H)
      → IsPaired d
      → IsPaired (launch_on f backend job a agent d).0
  unfolding launch_on
  launch_on-IsPaired job a agent d v = elim (Result-cases (launch_job backend job a agent).1) [
    | inr (e, r) ↦ rw (launch_on, r) v
    | inl (h, r) ↦
        rw (launch_on, r)
          λ id. ground (
            arith,
            v id,
            lookup-put job.job_id id h d.handles,
            lookup-put job.job_id id a.worker_id d.job_worker_map,
          )
  ]

  dispatch-IsPaired :
      (now : ℕ) (job : Job) (a : ResourceAllocation) (d : RemoteDispatcher f.F B H)
      → IsPaired d
      → IsPaired (dispatch f backend now job a d).0
  unfolding dispatch get_worker
  dispatch-IsPaired now job a d v =
      let registry = (check_timeouts f now d.registry).0 in
      elim (Option-cases (lookup a.worker_id registry.workers)) [
        | inl e ↦ rw (dispatch, e) v
        | inr (w, e) ↦ elim (Bool-cases (is_down w.status)) [
          | inl s ↦ rw (dispatch, e, s) v
          | inr s ↦ elim (Option-cases (lookup a.worker_id d.agents)) [
            | inl g ↦ rw (dispatch, e, s, g) v
            | inr (agent, g) ↦
                rw (dispatch, e, s, g)
                  (launch_on-IsPaired job a agent (record d { registry = registry }) v)
          ]
        ]
      ]

  stop_on-IsPaired :
      (id worker_id : String) (agent : WorkerAgent B H) (d : RemoteDispatcher f.F B H)
      → IsPaired d
      → IsPaired (stop_on f backend id worker_id agent d).0
  unfolding stop_on
  stop_on-IsPaired id worker_id agent d v =
      elim (Result-cases (stop_agent_job backend id agent).1) [
        | inr (e, r) ↦ rw (stop_on, r) v
        | inl (stopped, r) ↦ elim (Bool-cases stopped) [
          | inl s ↦
              rw (stop_on, r, s)
                λ k.
                  ground
                    (arith, v k, lookup-remove id k d.handles, lookup-remove id k d.job_worker_map)
          | inr s ↦ rw (stop_on, r, s) v
        ]
      ]

  stop_job-IsPaired :
      (id : String) (d : RemoteDispatcher f.F B H)
      → IsPaired d
      → IsPaired (stop_job f backend id d).0
  unfolding stop_job
  stop_job-IsPaired id d v = elim (Option-cases (worker_of id d)) [
    | inl e ↦ rw (stop_job, e) v
    | inr (w, e) ↦ elim (Option-cases (lookup w d.agents)) [
      | inl g ↦ rw (stop_job, e, g) v
      | inr (agent, g) ↦ rw (stop_job, e, g) (stop_on-IsPaired id w agent d v)
    ]
  ]

  status_on-IsPaired :
      (id worker_id : String) (d : RemoteDispatcher f.F B H)
      → IsPaired d
      → IsPaired (status_on f backend id worker_id d).0
  unfolding status_on
  status_on-IsPaired id worker_id d v = elim (Option-cases (lookup worker_id d.agents)) [
    | inl e ↦ rw (status_on, e) v
    | inr (agent, e) ↦ rw (status_on, e) v
  ]

  get_job_status-IsPaired :
      (now : ℕ) (id : String) (d : RemoteDispatcher f.F B H)
      → IsPaired d
      → IsPaired (get_job_status f backend now id d).0
  unfolding get_job_status get_worker
  get_job_status-IsPaired now id d v = elim (Option-cases (worker_of id d)) [
    | inl e ↦ rw (get_job_status, e) v
    | inr (worker_id, e) ↦
        let registry = (check_timeouts f now d.registry).0 in
        let d' = record d { registry = registry } in
        elim (Option-cases (lookup worker_id registry.workers)) [
          | inl g ↦ rw (get_job_status, e, g) (status_on-IsPaired id worker_id d' v)
          | inr (w, g) ↦ elim (Bool-cases (is_down w.status)) [
            | inl s ↦ rw (get_job_status, e, g, s) v
            | inr s ↦ rw (get_job_status, e, g, s) (status_on-IsPaired id worker_id d' v)
          ]
        ]
  ]

  step-IsPaired :
      (c : Call B H) (d : RemoteDispatcher f.F B H) → IsPaired d → IsPaired (step f backend c d)
  unfolding step register_agent unregister_agent get_active_worker_ids
  step-IsPaired (registers machine now a) d v = v
  step-IsPaired (unregisters id) d v = v
  step-IsPaired (dispatches now job a) d v = dispatch-IsPaired now job a d v
  step-IsPaired (stops id) d v = stop_job-IsPaired id d v
  step-IsPaired (polls now id) d v = get_job_status-IsPaired now id d v
  step-IsPaired (lists now) d v = v

  run_kept :
      (cs : List (Call B H)) (d : RemoteDispatcher f.F B H)
      → IsPaired d
      → IsPaired (run f backend cs d)
  unfolding run
  run_kept [] d v = v
  run_kept (c ∷ cs) d v = run_kept cs (step f backend c d) (step-IsPaired c d v)

  -- After any calls on a new dispatcher, failing ones included, a job has a handle just if it has a
  -- worker.
  pub run-IsPaired :
      (cs : List (Call B H)) (r : WorkerRegistry f.F)
      → IsPaired (run f backend cs (new_dispatcher r))
  unfolding lookup
  run-IsPaired cs r = run_kept cs (new_dispatcher r) (λ id. refl)
