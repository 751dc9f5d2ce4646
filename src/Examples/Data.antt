-- ===== src/Examples/Data.antt =====
-- A small cluster and some jobs.
use drigs.Prelude.{ℕ, suc, ◌+◌, ◌-◌, ◌*◌, ◌/◌, ◌≤◌, String, false, none, List, [], ◌∷◌, arith, ltb}
use drigs.Dict.{Dict}
use drigs.Models.{
  ComputeDevice, DeviceType, DeviceState, ExecutionBackendType, Entrypoint, Job, JobStatus,
  ResourceRequirements, WorkerInfo, WorkloadSpec, ClusterState,
}
use drigs.Float.{Float, HasNonneg, IsOrder}
use drigs.Scheduler.Placement.{Draws}

-- Whole numbers from -1 in place of floats: `n` stands for n - 1.
abbrev pub whole : Float
whole = record {
  F = ℕ;
  of_nat = λ n. suc n;
  add = λ a b. a + b - 1;
  mul = λ a b. suc ((a - 1) * (b - 1));
  over = λ a b. suc ((a - 1) / (b - 1));
  quotient = λ a b. suc (a / b);
  seconds = λ n. suc (n / 1_000_000);
  elapsed = λ n t. suc n - t;
  giga = 1_000_000_001;
  minus_one = 0;
  lt = ltb;
}

pub whole-HasNonneg : HasNonneg whole
whole-HasNonneg = record {
  Nonneg = λ n. 1 ≤ n;
  of_nat-Nonneg = λ n. omega arith;
  add-Nonneg = λ x y h k. omega arith;
  over-Nonneg = λ x n h. omega arith;
  above_minus_one = λ x h. ground arith;
}

pub whole-IsOrder : IsOrder whole
whole-IsOrder = record { irrefl = λ x. ground arith; trans = λ x y z h k. ground arith }

abbrev pub gpu : String → ℕ → String → ComputeDevice
gpu id memory group = record {
  device_id = id;
  device_type = DeviceType.gpu;
  vendor = "NVIDIA";
  model_name = "T4";
  total_memory_bytes = memory;
  available_memory_bytes = memory;
  compute_capability = none;
  pcie_bus_id = none;
  numa_node = none;
  topology_tags = ("nvlink_group", group) ∷ [];
}

abbrev pub worker : String → List ComputeDevice → ℕ → ℕ → WorkerInfo
worker id devices cpus memory = record {
  worker_id = id;
  hostname = id;
  ip_address = "10.0.0.1";
  devices = devices;
  total_cpus = cpus;
  total_memory_bytes = memory;
  status = DeviceState.healthy;
  last_heartbeat = 0;
}

-- Two GPUs that share an NVLink and one that does not.
abbrev pub big : WorkerInfo
big = worker "w1" (gpu "g0" 16 "a" ∷ gpu "g1" 16 "b" ∷ gpu "g2" 24 "b" ∷ []) 8 1000

abbrev pub small : WorkerInfo
small = worker "w0" (gpu "g0" 8 "a" ∷ []) 4 500

abbrev pub cluster : Dict WorkerInfo
cluster = ("w1", big) ∷ ("w0", small) ∷ []

abbrev pub state : ClusterState
state = record { workers = cluster }

abbrev pub requires : ℕ → ℕ → ℕ → ℕ → ResourceRequirements
requires gpus vram cpus memory = record {
  gpus = gpus;
  gpu_memory_bytes = vram;
  cpus = cpus;
  memory_bytes = memory;
  topology_aware = false;
  min_compute_capability = none;
}

abbrev pub spec : String → ResourceRequirements → WorkloadSpec
spec name resources = record {
  name = name;
  resources = resources;
  execution = record {
    backend = ExecutionBackendType.native;
    entrypoint = Entrypoint.text "python3";
    args = "train.py" ∷ [];
    env = [];
    working_dir = none;
  };
  distribution = record { mode = "single"; world_size = 1; master_addr = none; master_port = none };
  runtime = record { container_image = none; volumes = [] };
  checkpoint = record { enabled = false; interval_seconds = 300; checkpoint_dir = none };
}

abbrev pub job : String → ℕ → ℕ → ResourceRequirements → Job
job id priority submitted resources = record {
  job_id = id;
  name = id;
  status = JobStatus.pending;
  priority = priority;
  spec = spec id resources;
  submitted_at = submitted;
  started_at = none;
  completed_at = none;
  allocation = none;
  error_message = none;
}

abbrev pub jobs : List Job
jobs =
    job "j1" 0 10 (requires 2 10 2 100)
    ∷ job "j2" 5 20 (requires 1 0 4 100)
    ∷ job "j3" 0 5 (requires 4 0 1 0)
    ∷ []

abbrev pub draws : Draws
draws = record { uuid = λ n. "uuid"; time = λ n. n }
