-- ===== src/Scheduler/Sound.antt =====
-- What a policy may choose: a placement that the chosen worker can hold.
use drigs.Prelude.{
  ℕ, ◌≤◌, String, ◌≡◌, refl, true, false, some, List, [], ◌∷◌, arith, length, contains, inl, inr,
  ◌⊎◌, All, All-intro, Among, Distinct, Bool-cases,
}
use drigs.Dict.{Dict, lookup}
use drigs.Models.{ComputeDevice, DeviceType, DeviceState, ResourceRequirements, WorkerInfo}
use drigs.Scheduler.Placement.{
  Usage, is_healthy, is_gpu, avail_cpus, avail_ram, is_candidate, candidate_gpus, check_worker,
  eligible, Placement, ids,
}

-- A GPU of the worker with the memory that is asked for, which the pass has not given out.
pub record IsUsable (w : WorkerInfo) (vram : ℕ) (busy : List String) (g : String) : Type 0 where
  pub device : ComputeDevice
  pub owned : Among device w.devices
  pub named : device.device_id ≡ g
  pub type : device.device_type ≡ DeviceType.gpu
  pub roomy : vram ≤ device.available_memory_bytes
  pub unbusy : contains busy g ≡ false

pub record Fits (workers : Dict WorkerInfo) (req : ResourceRequirements) (u : Usage) (p : Placement)
    : Type 0 where
  pub worker : WorkerInfo
  pub found : lookup p.worker workers ≡ some worker
  pub healthy : worker.status ≡ DeviceState.healthy
  pub cpu_room : req.cpus ≤ avail_cpus u p.worker worker
  pub ram_room : req.memory_bytes ≤ avail_ram u p.worker worker
  pub exact : length p.gpus ≡ req.gpus
  pub usable : All (IsUsable worker req.gpu_memory_bytes (u.busy p.worker)) p.gpus
  pub distinct : Distinct (ids worker.devices) → Distinct p.gpus

healthy_of : (s : DeviceState) → is_healthy s ≡ true → s ≡ DeviceState.healthy
healthy_of DeviceState.healthy h = refl
healthy_of _ h = cc

gpu_of : (t : DeviceType) → is_gpu t ≡ true → t ≡ DeviceType.gpu
gpu_of DeviceType.gpu h = refl
gpu_of _ h = cc

module _ (w : WorkerInfo) (vram : ℕ) (busy : List String) where
  candidate-IsUsable :
      (d : ComputeDevice)
      → Among d w.devices
      → is_candidate vram busy d ≡ true
      → IsUsable w vram busy d.device_id
  candidate-IsUsable d m h = record {
    device = d;
    owned = m;
    named = refl;
    type = gpu_of d.device_type (ground arith);
    roomy = ground arith;
    unbusy = ground arith;
  }

  candidates-IsUsable :
      (ds : List ComputeDevice)
      → All (λ d. Among d w.devices) ds
      → All (IsUsable w vram busy) (ids (candidate_gpus vram busy ds))
  unfolding candidate_gpus
  candidates-IsUsable [] h = tt
  candidates-IsUsable (d ∷ ds) h = elim (Bool-cases (is_candidate vram busy d)) [
    | inl e ↦ rw e (candidate-IsUsable d h.0 e, candidates-IsUsable ds h.1)
    | inr e ↦ rw e (candidates-IsUsable ds h.1)
  ]

  contains-candidates :
      (ds : List ComputeDevice) (x : String)
      → contains (ids ds) x ≡ false
      → contains (ids (candidate_gpus vram busy ds)) x ≡ false
  unfolding candidate_gpus contains
  contains-candidates [] x h = refl
  contains-candidates (d ∷ ds) x h = ground (arith, contains-candidates ds x)

  candidates-Distinct :
      (ds : List ComputeDevice) → Distinct (ids ds) → Distinct (ids (candidate_gpus vram busy ds))
  unfolding candidate_gpus
  candidates-Distinct [] h = tt
  candidates-Distinct (d ∷ ds) h = elim (Bool-cases (is_candidate vram busy d)) [
    | inl e ↦ rw e (contains-candidates ds d.device_id h.0, candidates-Distinct ds h.1)
    | inr e ↦ rw e (candidates-Distinct ds h.1)
  ]

-- What `eligible` says of a worker that it lets through.
pub record IsEligible (workers : Dict WorkerInfo) (req : ResourceRequirements) (u : Usage)
    (id : String) (w : WorkerInfo) (found : List ComputeDevice) : Type 0 where
  pub worker : lookup id workers ≡ some w
  pub healthy : w.status ≡ DeviceState.healthy
  pub cpu_room : req.cpus ≤ avail_cpus u id w
  pub ram_room : req.memory_bytes ≤ avail_ram u id w
  pub enough : req.gpus ≤ length found
  pub usable : All (IsUsable w req.gpu_memory_bytes (u.busy id)) (ids found)
  pub distinct : Distinct (ids w.devices) → Distinct (ids found)

module _ (workers : Dict WorkerInfo) (req : ResourceRequirements) (u : Usage) (id : String) where
  -- The GPUs that `check_worker` returns: none for a job without GPUs, and else all candidates.
  check_worker_cases :
      (w : WorkerInfo) (found : List ComputeDevice)
      → check_worker req u id w ≡ some found
      → (is_healthy w.status ≡ true)
        × (req.cpus ≤ avail_cpus u id w)
        × (req.memory_bytes ≤ avail_ram u id w)
        × (req.gpus ≤ length found)
        × ((found ≡ []) ⊎ (found ≡ candidate_gpus req.gpu_memory_bytes (u.busy id) w.devices))
  unfolding check_worker
  check_worker_cases w found h =
      (ground arith, ground arith, ground arith, ground arith, ground arith)

  found_cases :
      (w : WorkerInfo) (found : List ComputeDevice)
      → (found ≡ []) ⊎ (found ≡ candidate_gpus req.gpu_memory_bytes (u.busy id) w.devices)
      → All (IsUsable w req.gpu_memory_bytes (u.busy id)) (ids found)
        × (Distinct (ids w.devices) → Distinct (ids found))
  found_cases w found (inl e) = rw e (tt, λ _. tt)
  found_cases w found (inr e) = rw e (
    candidates-IsUsable w req.gpu_memory_bytes (u.busy id) w.devices
        (All-intro (λ d. Among d w.devices) w.devices (λ d m. m)),
    candidates-Distinct w req.gpu_memory_bytes (u.busy id) w.devices,
  )

  check_worker-IsEligible :
      (w : WorkerInfo) (found : List ComputeDevice)
      → lookup id workers ≡ some w
      → check_worker req u id w ≡ some found
      → IsEligible workers req u id w found
  check_worker-IsEligible w found e h =
      let c = check_worker_cases w found h in
      let (us, d) = found_cases w found c.4 in
      record {
        worker = e;
        healthy = healthy_of w.status c.0;
        cpu_room = c.1;
        ram_room = c.2;
        enough = c.3;
        usable = us;
        distinct = d;
      }

  -- The branches of `eligible`.
  eligible_cases :
      (w : WorkerInfo) (found : List ComputeDevice)
      → eligible workers req u id ≡ some (w, found)
      → (lookup id workers ≡ some w) × (check_worker req u id w ≡ some found)
  unfolding eligible
  eligible_cases w found h = ground arith

  pub eligible-IsEligible :
      (w : WorkerInfo) (found : List ComputeDevice)
      → eligible workers req u id ≡ some (w, found)
      → IsEligible workers req u id w found
  eligible-IsEligible w found h =
      let (e, c) = eligible_cases w found h in check_worker-IsEligible w found e c

  -- The placement of `gpus` on an eligible worker.
  pub eligible-Fits :
      {w : WorkerInfo} {found : List ComputeDevice} (gpus : List String)
      → IsEligible workers req u id w found
      → length gpus ≡ req.gpus
      → All (IsUsable w req.gpu_memory_bytes (u.busy id)) gpus
      → (Distinct (ids w.devices) → Distinct gpus)
      → Fits workers req u (record { worker = id; gpus = gpus })
  eligible-Fits {w} gpus e n us d = record {
    worker = w;
    found = e.worker;
    healthy = e.healthy;
    cpu_room = e.cpu_room;
    ram_room = e.ram_room;
    exact = n;
    usable = us;
    distinct = d;
  }
