-- ===== src/Resources.antt =====
-- drigs/core/resource_manager.py: the registered workers, the state of each device, and the active
-- allocations. The lock makes each method one step.
pub mod Marking
pub mod Exclusive
pub mod Loading
pub mod Devices
pub mod Tracked
pub mod Atomic
use Prim.Native.String.{◌++◌ as join}
use drigs.Prelude.{
  ℕ, suc, ◌+◌, min, String, Bool, true, false, not, ◌&&◌, ◌||◌, Option, none, some, List, [], ◌∷◌,
  ◌++◌, map, ite, ltb, leb, length, range_from, if◌then◌else◌,
}
use drigs.Dict.{Dict, lookup, put, remove, has, keys}
use drigs.Models.{
  ClusterState, ComputeDevice, DeviceState, ResourceAllocation, ResourceState,
  ResourceState-discrete, WorkerInfo,
}
use drigs.Models.ResourceState.{available, allocated, unavailable, degraded}
use drigs.Result.{
  Result, ok, raise, Error, resource_error, key_error, already_allocated, unknown_worker,
  unknown_device, device_not_available, insufficient_vram,
}
use drigs.Storage.{
  Cluster, save_worker, delete_worker, save_allocation, delete_allocation, load_all_workers,
  load_all_allocations,
}

-- f"{worker_id}:{device_id}"
unfoldable pub key : String → String → String
key worker_id device_id = join worker_id (join ":" device_id)

pub record ResourceManager : Type 0 where
  pub storage : Option Cluster
  pub workers : Dict WorkerInfo
  pub device_states : Dict ResourceState
  pub device_allocated_memory : Dict ℕ
  pub allocations : Dict ResourceAllocation
  pub job_allocations : Dict String

abbrev pub new_manager : Option Cluster → ResourceManager
new_manager s = record {
  storage = s;
  workers = [];
  device_states = [];
  device_allocated_memory = [];
  allocations = [];
  job_allocations = [];
}

abbrev pub stored : (Cluster → Cluster) → Option Cluster → Option Cluster
stored f none = none
stored f (some c) = some (f c)

-- self._device_states.get(key, AVAILABLE)
abbrev pub state_of : String → ResourceManager → ResourceState
state_of k m = elim (lookup k m.device_states) [ none ↦ available | some s ↦ s ]

-- The loop of `register_worker` over the devices' keys.
unfoldable pub add_keys : List String → ResourceManager → ResourceManager
add_keys [] m = m
add_keys (k ∷ ks) m = add_keys ks (record m {
  device_states =
      if has k m.device_states then m.device_states else put k available m.device_states;
  device_allocated_memory =
      if has k m.device_states
      then m.device_allocated_memory
      else put k 0 m.device_allocated_memory;
})

abbrev pub device_keys : String → List ComputeDevice → List String
device_keys worker_id devices = map (λ d. key worker_id d.device_id) devices

unfoldable pub register_worker : WorkerInfo → ResourceManager → ResourceManager
register_worker w m =
    let m' =
      add_keys (device_keys w.worker_id w.devices)
        (record m { workers = put w.worker_id w m.workers }) in
    record m' { storage = stored (save_worker w) m'.storage }

-- Every key gets the state.
unfoldable pub set_states : List String → ResourceState → Dict ResourceState → Dict ResourceState
set_states [] s states = states
set_states (k ∷ ks) s states = set_states ks s (put k s states)

unfoldable pub unregister_worker : String → ResourceManager → ResourceManager
unregister_worker id m = elim (lookup id m.workers) [
  | none ↦ m
  | some w ↦ record m {
    workers = remove id m.workers;
    device_states = set_states (device_keys id w.devices) unavailable m.device_states;
    storage = stored (delete_worker id) m.storage;
  }
]

unfoldable pub update_device_status :
    String → String → DeviceState → ResourceManager → ResourceManager
update_device_status worker_id device_id DeviceState.unavailable m = record m {
  device_states = put (key worker_id device_id) unavailable m.device_states;
}
update_device_status worker_id device_id DeviceState.offline m = record m {
  device_states = put (key worker_id device_id) unavailable m.device_states;
}
update_device_status worker_id device_id DeviceState.degraded m = record m {
  device_states = put (key worker_id device_id) degraded m.device_states;
}
update_device_status worker_id device_id DeviceState.healthy m = m

-- The devices of one worker that are available.
available_of : String → List ComputeDevice → ResourceManager → List ComputeDevice
available_of id [] m = []
available_of id (d ∷ ds) m =
    let rest = available_of id ds m in
    ite (ResourceState-discrete (state_of (key id d.device_id) m) available) (d ∷ rest) rest

available_on : List String → ResourceManager → List ComputeDevice
available_on [] m = []
available_on (id ∷ more) m =
    let rest = available_on more m in
    elim (lookup id m.workers) [ none ↦ rest | some w ↦ available_of id w.devices m ++ rest ]

unfoldable pub get_available_devices : Option String → ResourceManager → List ComputeDevice
unfolding available_of available_on
get_available_devices none m = available_on (keys m.workers) m
get_available_devices (some id) m =
    if has id m.workers then available_on (id ∷ []) m else available_on (keys m.workers) m

-- {dev.device_id: dev for dev in worker.devices}
abbrev pub device_map_from : Dict ComputeDevice → List ComputeDevice → Dict ComputeDevice
device_map_from found [] = found
device_map_from found (d ∷ ds) = device_map_from (put d.device_id d found) ds

-- self._device_allocated_memory.get(key, 0)
abbrev pub memory_of : String → ResourceManager → ℕ
memory_of k m = elim (lookup k m.device_allocated_memory) [ none ↦ 0 | some n ↦ n ]

-- The tests of one requested device: `none` if it passes.
unfoldable pub check_device : String → ℕ → WorkerInfo → ResourceManager → String → Option Error
check_device worker_id vram w m id = elim (lookup id (device_map_from [] w.devices)) [
  | none ↦ some (resource_error (unknown_device id))
  | some d ↦
      ite (ResourceState-discrete (state_of (key worker_id id) m) available)
        (if ltb 0 vram && ltb d.total_memory_bytes (memory_of (key worker_id id) m + vram)
          then some (resource_error (insufficient_vram id))
          else none)
        (some (resource_error (device_not_available id)))
]

unfoldable pub check_devices :
    String → ℕ → WorkerInfo → ResourceManager → List String → Option Error
check_devices worker_id vram w m [] = none
check_devices worker_id vram w m (id ∷ ids) =
    let rest = check_devices worker_id vram w m ids in
    elim (check_device worker_id vram w m id) [ none ↦ rest | some e ↦ some e ]

-- The loop that marks the devices: `+=` raises KeyError on a key that is not there.
unfoldable pub mark_devices : List String → ℕ → ResourceManager → ResourceManager × Option Error
mark_devices [] vram m = (m, none)
mark_devices (k ∷ ks) vram m =
    let states = put k allocated m.device_states in
    elim (lookup k m.device_allocated_memory) [
      | none ↦ (record m { device_states = states }, some (key_error k))
      | some n ↦ mark_devices ks vram (record m {
        device_states = states;
        device_allocated_memory = put k (n + vram) m.device_allocated_memory;
      })
    ]

pub record Request : Type 0 where
  pub job_id : String
  pub worker_id : String
  pub device_ids : List String
  pub cpus : ℕ
  pub memory_bytes : ℕ
  pub gpu_memory_bytes : ℕ

-- The allocation that is recorded; `uuid` and `now` are the defaults of its id and its time.
abbrev pub new_allocation : String → ℕ → Request → WorkerInfo → ResourceAllocation
new_allocation uuid now r w = record {
  allocation_id = uuid;
  job_id = r.job_id;
  worker_id = r.worker_id;
  assigned_device_ids = r.device_ids;
  assigned_cpu_cores = range_from 0 (min r.cpus w.total_cpus);
  memory_bytes = r.memory_bytes;
  allocated_at = now;
}

abbrev pub requested_keys : Request → List String
requested_keys r = map (λ id. key r.worker_id id) r.device_ids

abbrev pub record_allocation : ResourceAllocation → ResourceManager → ResourceManager
record_allocation a m = record m {
  allocations = put a.allocation_id a m.allocations;
  job_allocations = put a.job_id a.allocation_id m.job_allocations;
  storage = stored (save_allocation a) m.storage;
}

-- What `allocate_resources` does with a request that passes all tests.
unfoldable pub grant :
    String
    → ℕ
    → Request
    → WorkerInfo
    → ResourceManager
    → ResourceManager × Result ResourceAllocation
unfolding mark_devices
grant uuid now r w m =
    let (m', failure) = mark_devices (requested_keys r) r.gpu_memory_bytes m in
    elim failure [
      | some e ↦ (m', raise e)
      | none ↦
          (record_allocation (new_allocation uuid now r w) m', ok (new_allocation uuid now r w))
    ]

unfoldable pub allocate_resources :
    String → ℕ → Request → ResourceManager → ResourceManager × Result ResourceAllocation
allocate_resources uuid now r m =
    if has r.job_id m.job_allocations
    then (m, raise (resource_error already_allocated))
    else elim (lookup r.worker_id m.workers) [
      | none ↦ (m, raise (resource_error unknown_worker))
      | some w ↦ elim (check_devices r.worker_id r.gpu_memory_bytes w m r.device_ids) [
        | some e ↦ (m, raise e)
        | none ↦ grant uuid now r w m
      ]
    ]

abbrev pub allocated_keys : ResourceAllocation → List String
allocated_keys a = map (λ id. key a.worker_id id) a.assigned_device_ids

unfoldable pub set_memory : List String → Dict ℕ → Dict ℕ
set_memory [] memory = memory
set_memory (k ∷ ks) memory = set_memory ks (put k 0 memory)

-- self._job_allocations.get(id, id)
abbrev pub allocation_key : String → ResourceManager → String
allocation_key id m = elim (lookup id m.job_allocations) [ none ↦ id | some a ↦ a ]

unfoldable pub deallocate_resources : String → ResourceManager → ResourceManager × Bool
deallocate_resources id m = elim (lookup (allocation_key id m) m.allocations) [
  | none ↦ (record m { job_allocations = remove id m.job_allocations }, false)
  | some a ↦ (
    record m {
      job_allocations = remove id m.job_allocations;
      allocations = remove (allocation_key id m) m.allocations;
      device_states = set_states (allocated_keys a) available m.device_states;
      device_allocated_memory = set_memory (allocated_keys a) m.device_allocated_memory;
      storage = stored (delete_allocation a.job_id) m.storage;
    },
    true,
  )
]

abbrev pub get_allocation : String → ResourceManager → Option ResourceAllocation
get_allocation id m = lookup (allocation_key id m) m.allocations

abbrev pub get_cluster_state : ResourceManager → ClusterState
get_cluster_state m = record { workers = m.workers }

unfoldable pub register_all : List WorkerInfo → ResourceManager → ResourceManager
register_all [] m = m
register_all (w ∷ ws) m = register_all ws (register_worker w m)

unfoldable pub restore_all : List ResourceAllocation → ResourceManager → ResourceManager
restore_all [] m = m
restore_all (a ∷ rows) m = restore_all rows (record m {
  allocations = put a.allocation_id a m.allocations;
  job_allocations = put a.job_id a.allocation_id m.job_allocations;
  device_states = set_states (allocated_keys a) allocated m.device_states;
})

-- A loaded allocation has a new id, the n-th one of `uuid`.
unfoldable pub load_from_storage : (uuid : ℕ → String) → ResourceManager → ResourceManager × ℕ
unfolding register_all restore_all
load_from_storage uuid m = elim m.storage [
  | none ↦ (m, 0)
  | some c ↦ (
    restore_all (load_all_allocations uuid c) (register_all (load_all_workers c) m),
    length (load_all_allocations uuid c),
  )
]

-- The calls that change a manager, but for the loading, and what they leave.
pub data Call : Type 0 where
  registers : WorkerInfo → Call
  unregisters : String → Call
  reports : (worker_id device_id : String) → DeviceState → Call
  allocates : (uuid : String) → ℕ → Request → Call
  deallocates : String → Call

unfoldable pub step : Call → ResourceManager → ResourceManager
step (registers w) m = register_worker w m
step (unregisters id) m = unregister_worker id m
step (reports worker_id device_id s) m = update_device_status worker_id device_id s m
step (allocates uuid now r) m = (allocate_resources uuid now r m).0
step (deallocates id) m = (deallocate_resources id m).0
