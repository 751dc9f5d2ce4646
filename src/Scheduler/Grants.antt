-- ===== src/Scheduler/Grants.antt =====
-- Which jobs a pass serves, and with what.
use drigs.Prelude.{
  ℕ, ◌≤◌, String, ◌≡◌, refl, false, Option, some, List, [], ◌∷◌, map, arith, length,
  length-range_from, contains, All, All-map, Among, Distinct, inl, inr, Option-cases, Ensures,
  Ensures-some,
}
use drigs.Dict.{Dict, lookup}
use drigs.Models.{
  ComputeDevice, DeviceType, DeviceState, Job, ResourceAllocation, ResourceRequirements, WorkerInfo,
}
use drigs.Scheduler.Placement.{Usage, reserve, Placement, Draws, next_draws, allocation, place_jobs}
use drigs.Scheduler.Sound.{Fits}

-- A GPU of the worker with at least `vram` bytes available.
pub record IsGpuOf (w : WorkerInfo) (vram : ℕ) (g : String) : Type 0 where
  pub device : ComputeDevice
  pub owned : Among device w.devices
  pub named : device.device_id ≡ g
  pub type : device.device_type ≡ DeviceType.gpu
  pub roomy : vram ≤ device.available_memory_bytes

-- The allocation gives a job of the list all that it asks for, on one healthy worker.
pub record Serves (workers : Dict WorkerInfo) (jobs : List Job) (a : ResourceAllocation)
    : Type 0 where
  pub job : Job
  pub asked : Among job jobs
  pub named : a.job_id ≡ job.job_id
  pub worker : WorkerInfo
  pub registered : lookup a.worker_id workers ≡ some worker
  pub healthy : worker.status ≡ DeviceState.healthy
  pub gpus : length a.assigned_device_ids ≡ job.spec.resources.gpus
  pub each : All (IsGpuOf worker job.spec.resources.gpu_memory_bytes) a.assigned_device_ids
  pub cpus : length a.assigned_cpu_cores ≡ job.spec.resources.cpus
  pub memory : a.memory_bytes ≡ job.spec.resources.memory_bytes

abbrev pub job_ids : List ResourceAllocation → List String
job_ids = map (λ a. a.job_id)

abbrev pub ids_of : List Job → List String
ids_of = map (λ j. j.job_id)

module _ (workers : Dict WorkerInfo) (choose : ResourceRequirements → Usage → Option Placement)
    (sound : (req : ResourceRequirements) (u : Usage)
      → Ensures (Fits workers req u) (choose req u)) where
  allocation-Serves :
      (draws : Draws) (u : Usage) (job : Job) (jobs : List Job) (p : Placement)
      → Fits workers job.spec.resources u p
      → Serves workers
          (job ∷ jobs)
          (allocation draws job.job_id p job.spec.resources.cpus job.spec.resources.memory_bytes u)
  allocation-Serves draws u job jobs p fit = record {
    job = job;
    asked = inl refl;
    named = refl;
    worker = fit.worker;
    registered = fit.found;
    healthy = fit.healthy;
    gpus = fit.exact;
    each =
        All-map _ (IsGpuOf fit.worker job.spec.resources.gpu_memory_bytes)
          (λ g us. record {
            device = us.device;
            owned = us.owned;
            named = us.named;
            type = us.type;
            roomy = us.roomy;
          })
          p.gpus fit.usable;
    cpus = length-range_from _ _;
    memory = refl;
  }

  later-Serves :
      (job : Job) (jobs : List Job) (a : ResourceAllocation)
      → Serves workers jobs a
      → Serves workers (job ∷ jobs) a
  later-Serves job jobs a s = record {
    job = s.job;
    asked = inr s.asked;
    named = s.named;
    worker = s.worker;
    registered = s.registered;
    healthy = s.healthy;
    gpus = s.gpus;
    each = s.each;
    cpus = s.cpus;
    memory = s.memory;
  }

  pub place_jobs-Serves :
      (draws : Draws) (u : Usage) (jobs : List Job)
      → All (Serves workers jobs) (place_jobs choose draws u jobs)
  unfolding place_jobs
  place_jobs-Serves draws u [] = tt
  place_jobs-Serves draws u (job ∷ jobs) =
      let req = job.spec.resources in
      elim (Option-cases (choose req u)) [
        | inl e ↦
            rw (e, place_jobs)
              (All-map _ _ (later-Serves job jobs) _ (place_jobs-Serves draws u jobs))
        | inr (p, e) ↦
            let fit = Ensures-some _ _ p (sound req u) e in
            let u' = reserve p req.cpus req.memory_bytes u in
            rw (e, place_jobs)
              (
                allocation-Serves draws u job jobs p fit,
                All-map _ _ (later-Serves job jobs) _
                    (place_jobs-Serves (next_draws draws) u' jobs),
              )
      ]

-- No job is served twice.
module _ (choose : ResourceRequirements → Usage → Option Placement) where
  contains-job_ids :
      (draws : Draws) (u : Usage) (jobs : List Job) (id : String)
      → contains (ids_of jobs) id ≡ false
      → contains (job_ids (place_jobs choose draws u jobs)) id ≡ false
  unfolding place_jobs contains
  contains-job_ids draws u [] id h = refl
  contains-job_ids draws u (job ∷ jobs) id h =
      let req = job.spec.resources in
      elim (Option-cases (choose req u)) [
        | inl e ↦ rw (e, place_jobs) (contains-job_ids draws u jobs id (ground arith))
        | inr (p, e) ↦
            let u' = reserve p req.cpus req.memory_bytes u in
            rw (e, place_jobs) (ground (arith, contains-job_ids (next_draws draws) u' jobs id))
      ]

  pub place_jobs-Distinct :
      (draws : Draws) (u : Usage) (jobs : List Job)
      → Distinct (ids_of jobs)
      → Distinct (job_ids (place_jobs choose draws u jobs))
  unfolding place_jobs
  place_jobs-Distinct draws u [] d = tt
  place_jobs-Distinct draws u (job ∷ jobs) d =
      let req = job.spec.resources in
      elim (Option-cases (choose req u)) [
        | inl e ↦ rw (e, place_jobs) (place_jobs-Distinct draws u jobs d.1)
        | inr (p, e) ↦
            let u' = reserve p req.cpus req.memory_bytes u in
            rw (e, place_jobs)
              (
                contains-job_ids (next_draws draws) u' jobs job.job_id d.0,
                place_jobs-Distinct (next_draws draws) u' jobs d.1,
              )
      ]
