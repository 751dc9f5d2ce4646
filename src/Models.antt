-- ===== src/Models.antt =====
-- drigs/core/models.py: the enumerations and the data models. A point in time is a number of
-- microseconds. The fields of `int` type with a bound `ge=0` or `ge=1` are natural numbers.
-- Telemetry that no modelled operation reads is left out: of ComputeDevice the fields
-- utilization_pct, temperature_celsius and power_usage_watts.
use drigs.Prelude.{ℕ, String, Bool, Option, List}
use drigs.Prelude.Int.{ℤ}
use drigs.Dict.{Dict}

pub data JobStatus : Type 0 where
  pending queued scheduled running completed failed cancelled recovering : JobStatus

pub data DeviceType : Type 0 where
  cpu gpu accelerator : DeviceType

-- Health of a device or worker node.
pub data DeviceState : Type 0 where
  healthy degraded unavailable offline : DeviceState

-- State of a tracked device.
pub data ResourceState : Type 0 where
  available reserved allocated degraded unavailable : ResourceState

pub data ExecutionBackendType : Type 0 where
  native docker pytorch distributed : ExecutionBackendType

pub record ComputeDevice : Type 0 where
  pub device_id : String
  pub device_type : DeviceType
  pub vendor : String
  pub model_name : String
  pub total_memory_bytes : ℕ
  pub available_memory_bytes : ℕ
  pub compute_capability : Option String
  pub pcie_bus_id : Option String
  pub numa_node : Option ℤ
  pub topology_tags : Dict String

pub record ResourceRequirements : Type 0 where
  pub gpus : ℕ
  pub gpu_memory_bytes : ℕ
  pub cpus : ℕ
  pub memory_bytes : ℕ
  pub topology_aware : Bool
  pub min_compute_capability : Option String

pub record ResourceAllocation : Type 0 where
  pub allocation_id : String
  pub job_id : String
  pub worker_id : String
  pub assigned_device_ids : List String
  pub assigned_cpu_cores : List ℕ
  pub memory_bytes : ℕ
  pub allocated_at : ℕ

-- Union[str, List[str]]
pub data Entrypoint : Type 0 where
  text : String → Entrypoint
  words : List String → Entrypoint

pub record WorkloadExecutionConfig : Type 0 where
  pub backend : ExecutionBackendType
  pub entrypoint : Entrypoint
  pub args : List String
  pub env : Dict String
  pub working_dir : Option String

pub record WorkloadDistributionConfig : Type 0 where
  pub mode : String
  pub world_size : ℕ
  pub master_addr : Option String
  pub master_port : Option ℕ

pub record WorkloadRuntimeConfig : Type 0 where
  pub container_image : Option String
  pub volumes : Dict String

pub record WorkloadCheckpointConfig : Type 0 where
  pub enabled : Bool
  pub interval_seconds : ℕ
  pub checkpoint_dir : Option String

pub record WorkloadSpec : Type 0 where
  pub name : String
  pub resources : ResourceRequirements
  pub execution : WorkloadExecutionConfig
  pub distribution : WorkloadDistributionConfig
  pub runtime : WorkloadRuntimeConfig
  pub checkpoint : WorkloadCheckpointConfig

pub record Job : Type 0 where
  pub job_id : String
  pub name : String
  pub status : JobStatus
  pub priority : ℕ
  pub spec : WorkloadSpec
  pub submitted_at : ℕ
  pub started_at : Option ℕ
  pub completed_at : Option ℕ
  pub allocation : Option ResourceAllocation
  pub error_message : Option String

pub record WorkerInfo : Type 0 where
  pub worker_id : String
  pub hostname : String
  pub ip_address : String
  pub devices : List ComputeDevice
  pub total_cpus : ℕ
  pub total_memory_bytes : ℕ
  pub status : DeviceState
  pub last_heartbeat : ℕ

-- `active_jobs` and `updated_at` are never read: the snapshot is its workers.
pub record ClusterState : Type 0 where
  pub workers : Dict WorkerInfo

unfoldable pub JobStatus-discrete : Discrete JobStatus
JobStatus-discrete = hlevel

unfoldable pub ResourceState-discrete : Discrete ResourceState
ResourceState-discrete = hlevel
