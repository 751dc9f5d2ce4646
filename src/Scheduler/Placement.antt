-- ===== src/Scheduler/Placement.antt =====
-- What the placement policies of drigs/scheduler share: the bookkeeping of one pass, the tests that
-- a worker must pass, the list of its free GPUs, and the loop over the sorted jobs. The source
-- repeats this text in each policy; the line numbers are those of fifo.py.
use drigs.Prelude.{
  ℕ, suc, ◌+◌, ◌-◌, String, Bool, true, false, not, ◌&&◌, Option, none, some, List, [], ◌∷◌, ◌++◌,
  map, ite, ltb, leb, length, take, contains, dec_text, range_from, if◌then◌else◌,
}
use drigs.Dict.{Dict, lookup}
use drigs.Models.{
  ComputeDevice, DeviceType, DeviceState, Job, ResourceAllocation, ResourceRequirements, WorkerInfo,
}

-- busy_devices, allocated_cpus and allocated_memory, by worker id. They start empty and at zero for
-- every id that is looked up.
pub record Usage : Type 0 where
  pub busy : String → List String
  pub cpus : String → ℕ
  pub memory : String → ℕ

abbrev pub no_usage : Usage
no_usage = record { busy = λ _. []; cpus = λ _. 0; memory = λ _. 0 }

abbrev pub update {ℓ} : {A : Type ℓ} → (String → A) → String → A → String → A
update f k v j = ite (dec_text k j) v (f j)

abbrev pub is_healthy : DeviceState → Bool
is_healthy DeviceState.healthy = true
is_healthy _ = false

abbrev pub is_gpu : DeviceType → Bool
is_gpu DeviceType.gpu = true
is_gpu _ = false

abbrev pub avail_cpus : Usage → String → WorkerInfo → ℕ
avail_cpus u id w = w.total_cpus - u.cpus id

abbrev pub avail_ram : Usage → String → WorkerInfo → ℕ
avail_ram u id w = w.total_memory_bytes - u.memory id

-- The tests of one device in the inner loop.
abbrev pub is_candidate : ℕ → List String → ComputeDevice → Bool
is_candidate vram busy d =
    is_gpu d.device_type
    && not (contains busy d.device_id)
    && not (ltb 0 vram && ltb d.available_memory_bytes vram)

unfoldable pub candidate_gpus : ℕ → List String → List ComputeDevice → List ComputeDevice
candidate_gpus vram busy [] = []
candidate_gpus vram busy (d ∷ ds) =
    let rest = candidate_gpus vram busy ds in if is_candidate vram busy d then d ∷ rest else rest

-- The tests of one worker in the loop over workers: `none` is `continue`, and otherwise the GPUs to
-- choose from.
unfoldable pub check_worker :
    ResourceRequirements → Usage → String → WorkerInfo → Option (List ComputeDevice)
check_worker req u id w =
    if is_healthy w.status
      && leb req.cpus (avail_cpus u id w)
      && leb req.memory_bytes (avail_ram u id w)
    then if ltb 0 req.gpus
      then (let found = candidate_gpus req.gpu_memory_bytes (u.busy id) w.devices in
          if ltb (length found) req.gpus then none else some found)
      else some []
    else none

-- An id that the cluster does not have is passed over; the ids are the cluster's own.
unfoldable pub eligible :
    Dict WorkerInfo
    → ResourceRequirements
    → Usage
    → String
    → Option (WorkerInfo × List ComputeDevice)
eligible workers req u id = elim (lookup id workers) [
  | none ↦ none
  | some w ↦ elim (check_worker req u id w) [ none ↦ none | some found ↦ some (w, found) ]
]

-- The worker and the devices that a policy settles on for a job.
pub record Placement : Type 0 where
  pub worker : String
  pub gpus : List String

abbrev pub ids : List ComputeDevice → List String
ids = map (λ d. d.device_id)

-- candidate_gpus[:req_gpus]
abbrev pub first_gpus : ResourceRequirements → List ComputeDevice → List String
first_gpus req found = take req.gpus (ids found)

unfoldable pub reserve : Placement → ℕ → ℕ → Usage → Usage
reserve p cpus memory u = record {
  busy = update u.busy p.worker (u.busy p.worker ++ p.gpus);
  cpus = update u.cpus p.worker (u.cpus p.worker + cpus);
  memory = update u.memory p.worker (u.memory p.worker + memory);
}

-- The default factories of a ResourceAllocation: the n-th uuid and time of a pass.
pub record Draws : Type 0 where
  pub uuid : ℕ → String
  pub time : ℕ → ℕ

abbrev pub next_draws : Draws → Draws
next_draws d = record { uuid = λ n. d.uuid (suc n); time = λ n. d.time (suc n) }

-- The allocation that is recorded, `u` being the usage before it: the cores are
-- range(allocated_cpus[w_id] - cpus, allocated_cpus[w_id]) after `allocated_cpus[w_id] += cpus`.
abbrev pub allocation : Draws → String → Placement → ℕ → ℕ → Usage → ResourceAllocation
allocation draws job_id p cpus memory u = record {
  allocation_id = draws.uuid 0;
  job_id = job_id;
  worker_id = p.worker;
  assigned_device_ids = p.gpus;
  assigned_cpu_cores = range_from (u.cpus p.worker) cpus;
  memory_bytes = memory;
  allocated_at = draws.time 0;
}

-- The loop over the jobs, for a policy that chooses a placement or none.
module _ (choose : ResourceRequirements → Usage → Option Placement) where
  unfoldable pub place_jobs : Draws → Usage → List Job → List ResourceAllocation
  unfolding reserve
  place_jobs draws u [] = []
  place_jobs draws u (job ∷ jobs) =
      let req = job.spec.resources in
      elim (choose req u) [
        | none ↦ place_jobs draws u jobs
        | some p ↦
            allocation draws job.job_id p req.cpus req.memory_bytes u
            ∷ place_jobs (next_draws draws) (reserve p req.cpus req.memory_bytes u) jobs
      ]
