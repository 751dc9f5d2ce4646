-- ===== src/Workers/Agent.antt =====
-- drigs/workers/agent.py: a worker's agent, over the execution backend of drigs/core/interfaces.py.
-- The task that sends heartbeats in a loop and the stream of logs are not modelled.
use drigs.Prelude.{
  ℕ, zero, suc, ◌+◌, String, Bool, true, false, Option, none, some, List, [], ◌∷◌, if◌then◌else◌,
}
use drigs.Dict.{Dict, lookup, put, values}
use drigs.Models.{ComputeDevice, DeviceState, Job, JobStatus, ResourceAllocation, WorkerInfo}
use drigs.Result.{Result, ok, raise}
use drigs.Float.{Float}
use drigs.Workers.Registry.{WorkerRegistry}
use drigs.Workers.Registry

-- ExecutionBackend: a state `B` that each call may change, and handles `H`.
pub record ExecutionBackend (B H : Type 0) : Type 0 where
  pub launch : Job → ResourceAllocation → B → B × Result H
  pub stop : H → B → B × Result Bool
  pub get_status : H → B → B × Result JobStatus

-- What the agent reads of its machine.
pub record Machine : Type 0 where
  pub devices : List ComputeDevice
  pub cpu_count : Option ℕ
  pub total_memory : ℕ

pub record WorkerAgent (B H : Type 0) : Type 0 where
  pub worker_id : String
  pub hostname : String
  pub ip_address : String
  pub execution_backend : B
  pub status : DeviceState
  pub active_handles : Dict H
  pub running : Bool
  pub heartbeat_count : ℕ
  pub last_heartbeat : Option ℕ

-- psutil.cpu_count(logical=True) or 1
abbrev or_one : Option ℕ → ℕ
or_one none = 1
or_one (some zero) = 1
or_one (some (suc n)) = suc n

-- self.last_heartbeat or _now_utc()
abbrev or_now : Option ℕ → ℕ → ℕ
or_now none now = now
or_now (some t) now = t

module _ {B H : Type 0} where
  unfoldable pub get_worker_info : Machine → ℕ → WorkerAgent B H → WorkerInfo
  get_worker_info machine now a = record {
    worker_id = a.worker_id;
    hostname = a.hostname;
    ip_address = a.ip_address;
    devices = machine.devices;
    total_cpus = or_one machine.cpu_count;
    total_memory_bytes = machine.total_memory;
    status = a.status;
    last_heartbeat = or_now a.last_heartbeat now;
  }

  module _ (f : Float) where
    open f use {F}

    -- The agent's registry, if it has one, and the answer.
    unfoldable pub register :
        Machine → ℕ → WorkerAgent B H → Option (WorkerRegistry F) → Option (WorkerRegistry F) × Bool
    register machine now a none = (none, true)
    register machine now a (some r) =
        (some (Registry.register f (get_worker_info machine now a) r), true)

    unfoldable pub send_heartbeat :
        ℕ
        → WorkerAgent B H
        → Option (WorkerRegistry F)
        → WorkerAgent B H × Option (WorkerRegistry F) × Bool
    send_heartbeat now a registry =
        let a' = record a { last_heartbeat = some now; heartbeat_count = a.heartbeat_count + 1 } in
        elim registry [
          | none ↦ (a', none, true)
          | some r ↦
              let (r', answer) = Registry.heartbeat f now a.worker_id a.status r in
              (a', some r', answer)
        ]

    -- Registers and sends a heartbeat, once.
    unfoldable pub start :
        Machine
        → ℕ
        → WorkerAgent B H
        → Option (WorkerRegistry F)
        → WorkerAgent B H × Option (WorkerRegistry F)
    unfolding register send_heartbeat
    start machine now a registry =
        if a.running
        then (a, registry)
        else let a' = record a { running = true } in
          let registered = (register machine now a' registry).0 in
          let (a'', registry', answer) = send_heartbeat now a' registered in (a'', registry')

  module _ (backend : ExecutionBackend B H) where
    -- Every handle is stopped; an exception is logged.
    stop_all : List H → B → B
    stop_all [] b = b
    stop_all (h ∷ hs) b = stop_all hs (backend.stop h b).0

    unfoldable pub stop : WorkerAgent B H → WorkerAgent B H
    unfolding stop_all
    stop a = record a {
      running = false;
      execution_backend = stop_all (values a.active_handles) a.execution_backend;
    }

    unfoldable pub launch_job :
        Job → ResourceAllocation → WorkerAgent B H → WorkerAgent B H × Result H
    launch_job job allocation a =
        let (b, answer) = backend.launch job allocation a.execution_backend in
        elim answer [
          | raise e ↦ (record a { execution_backend = b }, raise e)
          | ok h ↦ (
            record a { execution_backend = b; active_handles = put job.job_id h a.active_handles },
            ok h,
          )
        ]

    unfoldable pub stop_job : String → WorkerAgent B H → WorkerAgent B H × Result Bool
    stop_job job_id a = elim (lookup job_id a.active_handles) [
      | none ↦ (a, ok false)
      | some h ↦
          let (b, answer) = backend.stop h a.execution_backend in
          (record a { execution_backend = b }, answer)
    ]

    unfoldable pub get_job_status :
        String → WorkerAgent B H → WorkerAgent B H × Result (Option JobStatus)
    get_job_status job_id a = elim (lookup job_id a.active_handles) [
      | none ↦ (a, ok none)
      | some h ↦
          let (b, answer) = backend.get_status h a.execution_backend in
          (
            record a { execution_backend = b },
            elim answer [ ok s ↦ ok (some s) | raise e ↦ raise e ],
          )
    ]
