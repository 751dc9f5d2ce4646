-- ===== src/Execution/Isolation.antt =====
-- drigs/execution/isolation.py: the environment of an isolated process, and the GPUs that the jobs
-- of one worker have reserved. `os.environ` is an argument. The manager's lock makes each method
-- one step.
pub mod Reservations
pub mod Refinement
pub mod Environment
use text.Mathlib.Text.{starts_with}
use drigs.Prelude.{
  ℕ, String, Bool, true, false, Option, none, some, List, [], ◌∷◌, map, length, ite, dec_text, ◌&&◌,
  ◌||◌, is_empty, if◌then◌else◌,
}
use drigs.Dict.{Dict, lookup, put, remove, has}
use drigs.Models.{ComputeDevice, ResourceAllocation}
use drigs.Result.{Result, ok, raise, Error, isolation_error, already_reserved, gpu_taken}
use drigs.Execution.Text.{Text, drop, comma_join}

-- The truth of a text that may be missing.
abbrev pub given : Option String → Option String
given none = none
given (some s) = ite (dec_text s "") none (some s)

-- env.update(base)
unfoldable pub update : Dict String → Dict String → Dict String
update [] env = env
update ((k, v) ∷ base) env = update base (put k v env)

module _ (t : Text) where
  open t use {strip, lower, show, is_bus_id}

  unfoldable pub clean_gpu_id : String → String
  clean_gpu_id dev_id =
      let val = strip dev_id in
      if starts_with (lower val) "gpu-" || starts_with (lower val) "gpu:" then drop 4 val else val

  -- One entry of the variable.
  unfoldable pub format_device : Bool → Dict ComputeDevice → String → String
  format_device false devices dev_id = clean_gpu_id dev_id
  format_device true devices dev_id =
      let without = if is_bus_id dev_id then dev_id else clean_gpu_id dev_id in
      elim (lookup dev_id devices) [
        | none ↦ without
        | some d ↦ elim (given d.pcie_bus_id) [ none ↦ without | some bus ↦ bus ]
      ]

  unfoldable pub format_cuda_visible_devices : List String → Bool → Dict ComputeDevice → String
  format_cuda_visible_devices ids use_pcie_bus_id devices =
      comma_join (map (format_device use_pcie_bus_id devices) ids)

  -- The variables of the processor cores, if there are any.
  unfoldable pub with_cores : List ℕ → Dict String → Dict String
  with_cores [] env = env
  with_cores (c ∷ cores) env = put "MKL_NUM_THREADS" (show (length (c ∷ cores))) (
      put "OMP_NUM_THREADS" (show (length (c ∷ cores)))
        (put "DRIGS_CPU_CORES" (comma_join (map show (c ∷ cores))) env))

  -- A missing `base_env` or `devices_map` is an empty one.
  unfoldable pub build_isolated_environment :
      Dict String → ResourceAllocation → Dict String → Dict ComputeDevice → Bool → Dict String
  build_isolated_environment environ a base_env devices use_pcie_bus_id =
      with_cores a.assigned_cpu_cores (
        put "CUDA_VISIBLE_DEVICES"
          (format_cuda_visible_devices a.assigned_device_ids use_pcie_bus_id devices)
          (put "DRIGS_WORKER_ID" a.worker_id (
            put "DRIGS_ALLOCATION_ID" a.allocation_id
              (put "DRIGS_JOB_ID" a.job_id (update base_env environ)))))

pub record GpuIsolationManager : Type 0 where
  pub use_pcie_bus_id : Bool
  -- job_id -> the devices that it has reserved
  pub reserved_gpus : Dict (List String)
  -- device_id -> the job that has reserved it
  pub gpu_owners : Dict String
  pub devices_map : Dict ComputeDevice

abbrev pub new_isolation : Bool → GpuIsolationManager
new_isolation use_pcie_bus_id = record {
  use_pcie_bus_id = use_pcie_bus_id;
  reserved_gpus = [];
  gpu_owners = [];
  devices_map = [];
}

add_devices : List ComputeDevice → Dict ComputeDevice → Dict ComputeDevice
add_devices [] found = found
add_devices (d ∷ ds) found = add_devices ds (put d.device_id d found)

unfoldable pub register_devices : List ComputeDevice → GpuIsolationManager → GpuIsolationManager
unfolding add_devices
register_devices ds m = record m { devices_map = add_devices ds m.devices_map }

-- The first of the devices that is reserved.
unfoldable pub first_reserved : List String → Dict String → Option String
first_reserved [] owners = none
first_reserved (d ∷ ds) owners =
    let rest = first_reserved ds owners in if has d owners then some d else rest

unfoldable pub set_owners : List String → String → Dict String → Dict String
set_owners [] job owners = owners
set_owners (d ∷ ds) job owners = set_owners ds job (put d job owners)

unfoldable pub drop_owners : List String → Dict String → Dict String
drop_owners [] owners = owners
drop_owners (d ∷ ds) owners = drop_owners ds (remove d owners)

unfoldable pub reserve_gpus :
    Text → String → List String → GpuIsolationManager → GpuIsolationManager × Result String
unfolding set_owners
reserve_gpus t job ids m =
    if has job m.reserved_gpus
    then (m, raise (isolation_error (already_reserved job)))
    else elim (first_reserved ids m.gpu_owners) [
      | some d ↦ (m, raise (isolation_error (gpu_taken d)))
      | none ↦ (
        record m {
          reserved_gpus = put job ids m.reserved_gpus;
          gpu_owners = set_owners ids job m.gpu_owners;
        },
        ok (format_cuda_visible_devices t ids m.use_pcie_bus_id m.devices_map),
      )
    ]

-- self._reserved_gpus.pop(job_id, [])
abbrev pub released_by : String → GpuIsolationManager → List String
released_by job m = elim (lookup job m.reserved_gpus) [ none ↦ [] | some ids ↦ ids ]

unfoldable pub release_gpus : String → GpuIsolationManager → GpuIsolationManager × List String
unfolding drop_owners
release_gpus job m = (
  record m {
    reserved_gpus = remove job m.reserved_gpus;
    gpu_owners = drop_owners (released_by job m) m.gpu_owners;
  },
  released_by job m,
)

abbrev pub is_gpu_reserved : String → GpuIsolationManager → Bool
is_gpu_reserved d m = has d m.gpu_owners

abbrev pub get_owner : String → GpuIsolationManager → Option String
get_owner d m = lookup d m.gpu_owners

abbrev pub get_active_reservations : GpuIsolationManager → Dict (List String)
get_active_reservations m = m.reserved_gpus

-- The calls that change a manager, and what they leave.
pub data Call : Type 0 where
  registers : List ComputeDevice → Call
  reserves : String → List String → Call
  releases : String → Call

unfoldable pub step : Text → Call → GpuIsolationManager → GpuIsolationManager
step t (registers ds) m = register_devices ds m
step t (reserves job ids) m = (reserve_gpus t job ids m).0
step t (releases job) m = (release_gpus job m).0

unfoldable pub run : Text → List Call → GpuIsolationManager → GpuIsolationManager
unfolding step
run t [] m = m
run t (c ∷ cs) m = run t cs (step t c m)
