-- ===== src/Workers/Dispatcher.antt =====
-- drigs/workers/dispatcher.py: RemoteDispatcher over the agents and the registry. The lock makes
-- each method one step. An agent is used through the dispatcher alone; the stream of logs is not
-- modelled.
pub mod Dispatch
pub mod Paired
use drigs.Prelude.{
  ℕ, String, Bool, true, false, Option, none, some, List, [], ◌∷◌, map, if◌then◌else◌,
}
use drigs.Dict.{Dict, lookup, put, remove}
use drigs.Models.{DeviceState, Job, JobStatus, ResourceAllocation, WorkerInfo}
use drigs.Models.JobStatus.{failed}
use drigs.Result.{Result, ok, raise, dispatch_error, worker_not_registered, worker_down, no_agent}
use drigs.Float.{Float}
use drigs.Execution.Isolation.{given}
use drigs.Workers.Registry.{WorkerRegistry, register, deregister, get_worker, get_active_workers}
use drigs.Workers.Agent.{ExecutionBackend, Machine, WorkerAgent, get_worker_info, launch_job}
use drigs.Workers.Agent

pub record RemoteDispatcher (F B H : Type 0) : Type 0 where
  pub registry : WorkerRegistry F
  pub agents : Dict (WorkerAgent B H)
  pub handles : Dict H
  pub job_worker_map : Dict String

abbrev pub new_dispatcher : {F B H : Type 0} → WorkerRegistry F → RemoteDispatcher F B H
new_dispatcher r = record { registry = r; agents = []; handles = []; job_worker_map = [] }

-- worker_info.status in (OFFLINE, UNAVAILABLE)
abbrev pub is_down : DeviceState → Bool
is_down DeviceState.offline = true
is_down DeviceState.unavailable = true
is_down _ = false

-- The worker that a job was dispatched to.
abbrev pub worker_of : {F B H : Type 0} → String → RemoteDispatcher F B H → Option String
worker_of job_id d = given (lookup job_id d.job_worker_map)

module _ (f : Float) {B H : Type 0} where
  open f use {F}

  unfoldable pub register_agent :
      Machine → ℕ → WorkerAgent B H → RemoteDispatcher F B H → RemoteDispatcher F B H × Bool
  register_agent machine now a d = (
    record d {
      agents = put a.worker_id a d.agents;
      registry = register f (get_worker_info machine now a) d.registry;
    },
    true,
  )

  unfoldable pub unregister_agent : String → RemoteDispatcher F B H → RemoteDispatcher F B H × Bool
  unregister_agent id d =
      let (registry, answer) = deregister f id d.registry in
      (record d { agents = remove id d.agents; registry = registry }, answer)

  abbrev pub get_agent : String → RemoteDispatcher F B H → Option (WorkerAgent B H)
  get_agent id d = lookup id d.agents

  unfoldable pub get_active_worker_ids :
      ℕ → RemoteDispatcher F B H → RemoteDispatcher F B H × List String
  get_active_worker_ids now d =
      let (registry, workers) = get_active_workers f now d.registry in
      (record d { registry = registry }, map (λ w. w.worker_id) workers)

  abbrev pub get_dispatched_jobs : RemoteDispatcher F B H → Dict String
  get_dispatched_jobs d = d.job_worker_map

  module _ (backend : ExecutionBackend B H) where
    -- The launch on the agent of a worker, and what is kept of it.
    unfoldable pub launch_on :
        Job
        → ResourceAllocation
        → WorkerAgent B H
        → RemoteDispatcher F B H
        → RemoteDispatcher F B H × Result H
    launch_on job a agent d =
        let (agent', answer) = launch_job backend job a agent in
        let agents = put a.worker_id agent' d.agents in
        elim answer [
          | raise e ↦ (record d { agents = agents }, raise e)
          | ok h ↦ (
            record d {
              agents = agents;
              handles = put job.job_id h d.handles;
              job_worker_map = put job.job_id a.worker_id d.job_worker_map;
            },
            ok h,
          )
        ]

    unfoldable pub dispatch :
        ℕ → Job → ResourceAllocation → RemoteDispatcher F B H → RemoteDispatcher F B H × Result H
    unfolding launch_on
    dispatch now job a d =
        let (registry, info) = get_worker f now a.worker_id d.registry in
        let d' = record d { registry = registry } in
        elim info [
          | none ↦ (d', raise (dispatch_error (worker_not_registered a.worker_id)))
          | some w ↦
              if is_down w.status
              then (d', raise (dispatch_error (worker_down w.status)))
              else elim (lookup a.worker_id d.agents) [
                | none ↦ (d', raise (dispatch_error (no_agent a.worker_id)))
                | some agent ↦ launch_on job a agent d'
              ]
        ]

    -- The agent's answer to a stop, and what is forgotten.
    unfoldable pub stop_on :
        String
        → String
        → WorkerAgent B H
        → RemoteDispatcher F B H
        → RemoteDispatcher F B H × Result Bool
    stop_on job_id worker_id agent d =
        let (agent', answer) = Agent.stop_job backend job_id agent in
        let d' = record d { agents = put worker_id agent' d.agents } in
        elim answer [
          | raise e ↦ (d', raise e)
          | ok stopped ↦ (
            if stopped
                then record d' {
                  handles = remove job_id d.handles;
                  job_worker_map = remove job_id d.job_worker_map;
                }
                else d',
            ok stopped,
          )
        ]

    unfoldable pub stop_job : String → RemoteDispatcher F B H → RemoteDispatcher F B H × Result Bool
    unfolding stop_on
    stop_job job_id d = elim (worker_of job_id d) [
      | none ↦ (d, ok false)
      | some worker_id ↦ elim (lookup worker_id d.agents) [
        | none ↦ (d, ok false)
        | some agent ↦ stop_on job_id worker_id agent d
      ]
    ]

    -- The status that the worker's agent answers.
    unfoldable pub status_on :
        String
        → String
        → RemoteDispatcher F B H
        → RemoteDispatcher F B H × Result (Option JobStatus)
    status_on job_id worker_id d = elim (lookup worker_id d.agents) [
      | none ↦ (d, ok none)
      | some agent ↦
          let (agent', answer) = Agent.get_job_status backend job_id agent in
          (record d { agents = put worker_id agent' d.agents }, answer)
    ]

    unfoldable pub get_job_status :
        ℕ → String → RemoteDispatcher F B H → RemoteDispatcher F B H × Result (Option JobStatus)
    unfolding status_on
    get_job_status now job_id d = elim (worker_of job_id d) [
      | none ↦ (d, ok none)
      | some worker_id ↦
          let (registry, info) = get_worker f now worker_id d.registry in
          let d' = record d { registry = registry } in
          elim info [
            | none ↦ status_on job_id worker_id d'
            | some w ↦
                if is_down w.status then (d', ok (some failed)) else status_on job_id worker_id d'
          ]
    ]

-- The calls of a dispatcher.
pub data Call (B H : Type 0) : Type 0 where
  registers : Machine → ℕ → WorkerAgent B H → Call B H
  unregisters : String → Call B H
  dispatches : ℕ → Job → ResourceAllocation → Call B H
  stops : String → Call B H
  polls : ℕ → String → Call B H
  lists : ℕ → Call B H

unfoldable pub step :
    (f : Float) {B H : Type 0}
    → ExecutionBackend B H
    → Call B H
    → RemoteDispatcher f.F B H
    → RemoteDispatcher f.F B H
step f backend (registers machine now a) d = (register_agent f machine now a d).0
step f backend (unregisters id) d = (unregister_agent f id d).0
step f backend (dispatches now job a) d = (dispatch f backend now job a d).0
step f backend (stops id) d = (stop_job f backend id d).0
step f backend (polls now id) d = (get_job_status f backend now id d).0
step f backend (lists now) d = (get_active_worker_ids f now d).0

unfoldable pub run :
    (f : Float) {B H : Type 0}
    → ExecutionBackend B H
    → List (Call B H)
    → RemoteDispatcher f.F B H
    → RemoteDispatcher f.F B H
unfolding step
run f backend [] d = d
run f backend (c ∷ cs) d = run f backend cs (step f backend c d)
