-- ===== src/Scheduler/Capacity.antt =====
-- What a pass hands out on one worker: cores, memory and devices.
use drigs.Prelude.{
  ℕ, ◌+◌, ◌≤◌, String, ◌≡◌, refl, sym, subst, ap, ◌∙◌, false, Option, some, List, [], ◌∷◌, ◌++◌,
  arith, ite, if_pos, if_neg, dec_text, sum, range_from, range_from-append, All-map, Distinct,
  Distinct-append, Apart, contains, append_assoc, append-nil, inl, inr, Option-cases, Ensures,
  Ensures-some,
}
use drigs.Dict.{Dict, lookup}
use drigs.Models.{Job, ResourceAllocation, ResourceRequirements, WorkerInfo}
use drigs.Scheduler.Placement.{
  Usage, reserve, Placement, Draws, next_draws, allocation, place_jobs, ids,
}
use drigs.Scheduler.Sound.{Fits}

-- The entries of the allocations on one worker, in the order in which they were made.
unfoldable pub gather {ℓ} :
    {A : Type ℓ} → (ResourceAllocation → List A) → String → List ResourceAllocation → List A
gather f id [] = []
gather f id (a ∷ allocs) =
    let rest = gather f id allocs in ite (dec_text a.worker_id id) (f a ++ rest) rest

abbrev pub cores_on : String → List ResourceAllocation → List ℕ
cores_on = gather (λ a. a.assigned_cpu_cores)

abbrev pub devices_on : String → List ResourceAllocation → List String
devices_on = gather (λ a. a.assigned_device_ids)

abbrev pub memory_on : String → List ResourceAllocation → ℕ
memory_on id allocs = sum (gather (λ a. a.memory_bytes ∷ []) id allocs)

-- The allocations continue the usage `u` of a worker within its capacity: the cores are the next
-- ones in order, none twice, and the memory fits in what is left.
pub record Continues (u : Usage) (id : String) (w : WorkerInfo) (allocs : List ResourceAllocation)
    : Type 0 where
  pub count : ℕ
  pub cores : cores_on id allocs ≡ range_from (u.cpus id) count
  pub cpus_fit : u.cpus id + count ≤ w.total_cpus
  pub memory_fits : u.memory id + memory_on id allocs ≤ w.total_memory_bytes

-- One more allocation, on this worker or another, if this worker has room for it.
pub cons-Continues :
    (id : String) (w : WorkerInfo) (draws : Draws) (u : Usage) (job_id : String) (p : Placement)
    (cpus memory : ℕ) (allocs : List ResourceAllocation)
    → (p.worker ≡ id → u.cpus id + cpus ≤ w.total_cpus)
    → (p.worker ≡ id → u.memory id + memory ≤ w.total_memory_bytes)
    → Continues (reserve p cpus memory u) id w allocs
    → Continues u id w (allocation draws job_id p cpus memory u ∷ allocs)
unfolding gather reserve
cons-Continues id w draws u job_id p cpus memory allocs c m rest = elim (dec_text p.worker id) [
  | yes e ↦ record {
    count = cpus + rest.count;
    cores = ground (arith, range_from-append (u.cpus id) cpus rest.count);
    cpus_fit = ground arith;
    memory_fits = ground arith;
  }
  | no n ↦ record {
    count = rest.count;
    cores = ground arith;
    cpus_fit = ground arith;
    memory_fits = ground arith;
  }
]

module _ (workers : Dict WorkerInfo) (choose : ResourceRequirements → Usage → Option Placement)
    (sound : (req : ResourceRequirements) (u : Usage) → Ensures (Fits workers req u) (choose req u))
    (id : String) (w : WorkerInfo) (found : lookup id workers ≡ some w) where
  -- A placement leaves the worker within its capacity.
  room :
      (req : ResourceRequirements) (u : Usage) (p : Placement)
      → Fits workers req u p
      → (u.cpus id ≤ w.total_cpus) × (u.memory id ≤ w.total_memory_bytes)
      → p.worker ≡ id
      → (u.cpus id + req.cpus ≤ w.total_cpus)
        × (u.memory id + req.memory_bytes ≤ w.total_memory_bytes)
  room req u p fit h e = let same : fit.worker ≡ w = ground (arith, fit.found) in ground arith

  after_reserve :
      (req : ResourceRequirements) (u : Usage) (p : Placement)
      → Fits workers req u p
      → (u.cpus id ≤ w.total_cpus) × (u.memory id ≤ w.total_memory_bytes)
      → ((reserve p req.cpus req.memory_bytes u).cpus id ≤ w.total_cpus)
        × ((reserve p req.cpus req.memory_bytes u).memory id ≤ w.total_memory_bytes)
  unfolding reserve
  after_reserve req u p fit h = ground (arith, room req u p fit h)

  pub place_jobs-Continues :
      (draws : Draws) (u : Usage) (jobs : List Job)
      → (u.cpus id ≤ w.total_cpus) × (u.memory id ≤ w.total_memory_bytes)
      → Continues u id w (place_jobs choose draws u jobs)
  unfolding place_jobs gather
  place_jobs-Continues draws u [] h = record {
    count = 0;
    cores = refl;
    cpus_fit = omega arith;
    memory_fits = omega arith;
  }
  place_jobs-Continues draws u (job ∷ jobs) h =
      let req = job.spec.resources in
      elim (Option-cases (choose req u)) [
        | inl e ↦ rw (e, place_jobs) (place_jobs-Continues draws u jobs h)
        | inr (p, e) ↦
            let fit = Ensures-some _ _ p (sound req u) e in
            let u' = reserve p req.cpus req.memory_bytes u in
            rw (e, place_jobs)
              (cons-Continues id w draws u job.job_id p req.cpus req.memory_bytes _
                (λ q. (room req u p fit h q).0) (λ q. (room req u p fit h q).1)
                (place_jobs-Continues (next_draws draws) u' jobs (after_reserve req u p fit h)))
      ]

-- The busy devices of a worker and those handed out next are all distinct.
abbrev pub IsFresh : Usage → String → List ResourceAllocation → Type 0
IsFresh u id allocs = Distinct (u.busy id ++ devices_on id allocs)

pub cons-IsFresh :
    (id : String) (draws : Draws) (u : Usage) (job_id : String) (p : Placement) (cpus memory : ℕ)
    (allocs : List ResourceAllocation)
    → IsFresh (reserve p cpus memory u) id allocs
    → IsFresh u id (allocation draws job_id p cpus memory u ∷ allocs)
unfolding gather reserve
cons-IsFresh id draws u job_id p cpus memory allocs h = elim (dec_text p.worker id) [
  | yes e ↦
      let h' : Distinct ((u.busy p.worker ++ p.gpus) ++ devices_on id allocs) =
        rw (if_pos _ e) at h in
      rw (if_pos _ e) (
        subst Distinct
          (append_assoc (u.busy p.worker) p.gpus (devices_on id allocs)
            ∙ ap (λ j. u.busy j ++ (p.gpus ++ devices_on id allocs)) e)
          h')
  | no n ↦ let h' = rw (if_neg _ n) at h in rw (if_neg _ n) h'
]

pub busy_after :
    (id : String) (u : Usage) (p : Placement) (cpus memory : ℕ)
    → (p.worker ≡ id → Distinct p.gpus × Apart (u.busy p.worker) p.gpus)
    → Distinct (u.busy id)
    → Distinct ((reserve p cpus memory u).busy id)
unfolding reserve
busy_after id u p cpus memory new d = elim (dec_text p.worker id) [
  | yes e ↦ rw (if_pos _ e) (
      Distinct-append (u.busy p.worker) p.gpus (subst (λ j. Distinct (u.busy j)) (sym e) d)
        (new e).0 (new e).1)
  | no n ↦ rw (if_neg _ n) d
]

module _ (workers : Dict WorkerInfo) (choose : ResourceRequirements → Usage → Option Placement)
    (sound : (req : ResourceRequirements) (u : Usage) → Ensures (Fits workers req u) (choose req u))
    (id : String) (w : WorkerInfo) (found : lookup id workers ≡ some w)
    (own : Distinct (ids w.devices)) where
  new_devices :
      (req : ResourceRequirements) (u : Usage) (p : Placement)
      → Fits workers req u p
      → p.worker ≡ id
      → Distinct p.gpus × Apart (u.busy p.worker) p.gpus
  new_devices req u p fit e =
      let same : fit.worker ≡ w = ground (arith, fit.found) in
      (
        fit.distinct (subst (λ (v : WorkerInfo). Distinct (ids v.devices)) (sym same) own),
        All-map _ (λ g. contains (u.busy p.worker) g ≡ false) (λ g us. us.unbusy) p.gpus fit.usable,
      )

  pub place_jobs-IsFresh :
      (draws : Draws) (u : Usage) (jobs : List Job)
      → Distinct (u.busy id)
      → IsFresh u id (place_jobs choose draws u jobs)
  unfolding place_jobs gather
  place_jobs-IsFresh draws u [] d = rw append-nil d
  place_jobs-IsFresh draws u (job ∷ jobs) d =
      let req = job.spec.resources in
      elim (Option-cases (choose req u)) [
        | inl e ↦ rw (e, place_jobs) (place_jobs-IsFresh draws u jobs d)
        | inr (p, e) ↦
            let fit = Ensures-some _ _ p (sound req u) e in
            let u' = reserve p req.cpus req.memory_bytes u in
            rw (e, place_jobs)
              (cons-IsFresh id draws u job.job_id p req.cpus req.memory_bytes _ (
                place_jobs-IsFresh (next_draws draws) u' jobs
                  (busy_after id u p req.cpus req.memory_bytes (new_devices req u p fit) d)))
      ]
