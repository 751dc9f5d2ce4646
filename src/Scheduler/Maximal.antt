-- ===== src/Scheduler/Maximal.antt =====
-- A pass leaves no job behind that it could still place: the policies give up on a job only if no
-- worker passes their tests, and what a pass hands out only makes the tests harder.
use drigs.Prelude.{
  ℕ, ◌≤◌, String, ◌≡◌, ◌≢◌, sym, ap, subst, true, false, Option, none, some, List, [], ◌∷◌, arith,
  length, length-map, length-range_from, length-le_of_Distinct, contains, contains-append, All,
  All-map, Among, Distinct, inl, inr, Option-cases,
}
use drigs.Dict.{Dict, lookup}
use drigs.Models.{
  ComputeDevice, DeviceType, DeviceState, Job, ResourceAllocation, ResourceRequirements, WorkerInfo,
}
use drigs.Scheduler.Placement.{
  Usage, reserve, Placement, candidate_gpus, check_worker, ids, avail_cpus, avail_ram, Draws,
  next_draws, allocation, place_jobs,
}
use drigs.Scheduler.Sound.{IsUsable, Fits}
use drigs.Scheduler.Grants.{job_ids}

-- Everything that is in use under `u` is in use under `v`.
pub record Grows (u v : Usage) : Type 0 where
  pub busy : (id g : String) → contains (u.busy id) g ≡ true → contains (v.busy id) g ≡ true
  pub cpus : (id : String) → u.cpus id ≤ v.cpus id
  pub memory : (id : String) → u.memory id ≤ v.memory id

pub Grows-refl : (u : Usage) → Grows u u
Grows-refl u = record { busy = λ id g h. h; cpus = λ id. omega arith; memory = λ id. omega arith }

pub Grows-trans : (u v w : Usage) → Grows u v → Grows v w → Grows u w
Grows-trans u v w a b = record {
  busy = λ id g h. b.busy id g (a.busy id g h);
  cpus = λ id. omega (arith, a.cpus id, b.cpus id);
  memory = λ id. omega (arith, a.memory id, b.memory id);
}

pub reserve-Grows :
    (p : Placement) (cpus memory : ℕ) (u : Usage) → Grows u (reserve p cpus memory u)
unfolding reserve
reserve-Grows p cpus memory u = record {
  busy = λ id g h. ground (arith, contains-append (u.busy id) p.gpus g);
  cpus = λ id. ground arith;
  memory = λ id. ground arith;
}

-- More busy devices leave fewer candidates.
length-candidates-le :
    (vram : ℕ) (busy more : List String) (ds : List ComputeDevice)
    → ((g : String) → contains busy g ≡ true → contains more g ≡ true)
    → length (candidate_gpus vram more ds) ≤ length (candidate_gpus vram busy ds)
unfolding candidate_gpus
length-candidates-le vram busy more [] h = omega arith
length-candidates-le vram busy more (d ∷ ds) h =
    ground (arith, h d.device_id, length-candidates-le vram busy more ds h)

check_worker-Grows :
    (req : ResourceRequirements) (u v : Usage) (id : String) (w : WorkerInfo)
    → Grows u v
    → check_worker req u id w ≡ none
    → check_worker req v id w ≡ none
unfolding check_worker
check_worker-Grows req u v id w g h = ground (
  arith,
  g.cpus id,
  g.memory id,
  length-candidates-le req.gpu_memory_bytes (u.busy id) (v.busy id) w.devices (g.busy id),
)

-- No placement on a registered worker fits under `u`.
abbrev pub NoRoom : Dict WorkerInfo → ResourceRequirements → Usage → Type 0
NoRoom workers req u = (p : Placement) → ¬ Fits workers req u p

-- Every worker fails the tests.
abbrev pub AllRefused : Dict WorkerInfo → ResourceRequirements → Usage → Type 0
AllRefused workers req u =
    (id : String) (w : WorkerInfo) → lookup id workers ≡ some w → check_worker req u id w ≡ none

usable-contains :
    (w : WorkerInfo) (vram : ℕ) (busy : List String) (g : String) (ds : List ComputeDevice)
    (us : IsUsable w vram busy g)
    → Among us.device ds
    → contains (ids (candidate_gpus vram busy ds)) g ≡ true
unfolding candidate_gpus contains
usable-contains w vram busy g [] us m = absurd m
usable-contains w vram busy g (d ∷ ds) us (inl e) =
    let e' : us.device.device_id ≡ d.device_id = ap (λ (x : ComputeDevice). x.device_id) e in
    let t : d.device_type ≡ DeviceType.gpu =
      subst (λ (x : ComputeDevice). x.device_type ≡ DeviceType.gpu) e us.type in
    let r : vram ≤ d.available_memory_bytes =
      subst (λ (x : ComputeDevice). vram ≤ x.available_memory_bytes) e us.roomy in
    ground (arith, us.named, us.unbusy)
usable-contains w vram busy g (d ∷ ds) us (inr m) =
    ground (arith, usable-contains w vram busy g ds us m)

refused_of_tests :
    (req : ResourceRequirements) (u : Usage) (id : String) (w : WorkerInfo)
    → w.status ≡ DeviceState.healthy
    → req.cpus ≤ avail_cpus u id w
    → req.memory_bytes ≤ avail_ram u id w
    → req.gpus ≤ length (candidate_gpus req.gpu_memory_bytes (u.busy id) w.devices)
    → check_worker req u id w ≢ none
unfolding check_worker
refused_of_tests req u id w h c m g e = ground arith

-- If every worker fails the tests, then nothing fits: the tests refuse no worker needlessly.
pub AllRefused-NoRoom :
    (workers : Dict WorkerInfo) (req : ResourceRequirements) (u : Usage)
    → ((id : String) (w : WorkerInfo) → lookup id workers ≡ some w → Distinct (ids w.devices))
    → AllRefused workers req u
    → NoRoom workers req u
AllRefused-NoRoom workers req u own all p fit =
    let found = candidate_gpus req.gpu_memory_bytes (u.busy p.worker) fit.worker.devices in
    let fewer =
      length-le_of_Distinct p.gpus (ids found) (fit.distinct (own p.worker fit.worker fit.found)) (
        All-map _ (λ g. contains (ids found) g ≡ true)
          (λ g us. usable-contains fit.worker _ _ g fit.worker.devices us us.owned) p.gpus
          fit.usable) in
    refused_of_tests req u p.worker fit.worker fit.healthy fit.cpu_room fit.ram_room
      (omega
        (arith, fewer, fit.exact, length-map {0, 0} (λ (d : ComputeDevice). d.device_id) found))
      (all p.worker fit.worker fit.found)

AllRefused-Grows :
    (workers : Dict WorkerInfo) (req : ResourceRequirements) (u v : Usage)
    → Grows u v
    → AllRefused workers req u
    → AllRefused workers req v
AllRefused-Grows workers req u v g all id w e = check_worker-Grows req u v id w g (all id w e)

-- The usage that a list of allocations adds up to.
abbrev pub book : ResourceAllocation → Usage → Usage
book a u =
    reserve (record { worker = a.worker_id; gpus = a.assigned_device_ids })
      (length a.assigned_cpu_cores) a.memory_bytes u

abbrev pub booked : Usage → List ResourceAllocation → Usage
booked u [] = u
booked u (a ∷ allocs) = booked (book a u) allocs

booked-Grows : (u : Usage) (allocs : List ResourceAllocation) → Grows u (booked u allocs)
booked-Grows u [] = Grows-refl u
booked-Grows u (a ∷ allocs) =
    Grows-trans u (book a u) (booked (book a u) allocs) (reserve-Grows _ _ _ u)
      (booked-Grows (book a u) allocs)

module _ (workers : Dict WorkerInfo) (choose : ResourceRequirements → Usage → Option Placement)
    (complete : (req : ResourceRequirements) (u : Usage)
      → choose req u ≡ none
      → AllRefused workers req u) where
  -- A job without an allocation is refused by every worker, whatever is left at the end.
  abbrev pub LeftOut : Usage → List ResourceAllocation → Job → Type 0
  LeftOut u allocs job =
      contains (job_ids allocs) job.job_id ≡ false
      → AllRefused workers job.spec.resources (booked u allocs)

  under_cons :
      (draws : Draws) (u : Usage) (job : Job) (p : Placement) (allocs : List ResourceAllocation)
      (other : Job)
      → LeftOut (reserve p job.spec.resources.cpus job.spec.resources.memory_bytes u) allocs other
      → LeftOut u
          (allocation draws job.job_id p job.spec.resources.cpus job.spec.resources.memory_bytes u
            ∷ allocs)
          other
  under_cons draws u job p allocs other h out =
      rw (length-range_from (u.cpus p.worker) job.spec.resources.cpus)
        (h (unfold contains in ground arith))

  module _ (draws : Draws) (u : Usage) (job : Job) (jobs : List Job) where
    passed_over :
        choose job.spec.resources u ≡ none
        → place_jobs choose draws u (job ∷ jobs) ≡ place_jobs choose draws u jobs
    unfolding place_jobs
    passed_over e = rw (e, place_jobs)

    placed :
        (p : Placement)
        → choose job.spec.resources u ≡ some p
        → place_jobs choose draws u (job ∷ jobs)
          ≡ allocation draws job.job_id p job.spec.resources.cpus job.spec.resources.memory_bytes u
            ∷ place_jobs choose
                (next_draws draws)
                (reserve p job.spec.resources.cpus job.spec.resources.memory_bytes u)
                jobs
    unfolding place_jobs
    placed p e = rw (e, place_jobs)

  not-LeftOut :
      (draws : Draws) (u : Usage) (job : Job) (p : Placement) (allocs : List ResourceAllocation)
      → LeftOut u
          (allocation draws job.job_id p job.spec.resources.cpus job.spec.resources.memory_bytes u
            ∷ allocs)
          job
  not-LeftOut draws u job p allocs out = absurd (unfold contains in ground arith)

  pub place_jobs-LeftOut :
      (draws : Draws) (u : Usage) (jobs : List Job)
      → All (LeftOut u (place_jobs choose draws u jobs)) jobs
  place_jobs-LeftOut draws u [] = tt
  place_jobs-LeftOut draws u (job ∷ jobs) =
      let req = job.spec.resources in
      elim (Option-cases (choose req u)) [
        | inl e ↦
            let rest = place_jobs choose draws u jobs in
            subst (λ l. All (LeftOut u l) (job ∷ jobs)) (sym (passed_over draws u job jobs e))
              (
                λ _.
                    AllRefused-Grows workers req u (booked u rest) (booked-Grows u rest)
                      (complete req u e),
                place_jobs-LeftOut draws u jobs,
              )
        | inr (p, e) ↦
            let u' = reserve p req.cpus req.memory_bytes u in
            let rest = place_jobs choose (next_draws draws) u' jobs in
            subst (λ l. All (LeftOut u l) (job ∷ jobs)) (sym (placed draws u job jobs p e))
              (
                not-LeftOut draws u job p rest,
                All-map _ _ (under_cons draws u job p rest) jobs
                    (place_jobs-LeftOut (next_draws draws) u' jobs),
              )
      ]
