-- ===== src/Resources/Atomic.antt =====
-- drigs/core/resource_manager.py: what an allocation leaves, and what giving it back leaves.
use drigs.Prelude.{
  ℕ, String, ◌≡◌, refl, sym, ap, subst, ◌∙◌, Bool, true, false, Option, none, some, List, [], ◌∷◌,
  arith, dec_text, contains, inl, inr, ◌⊎◌, Bool-cases, Option-cases, ite, if◌then◌else◌, ◌+◌, ltb,
  ◌&&◌,
}
use drigs.Dict.{lookup, put, remove, has, lookup-put, lookup-remove}
use drigs.Models.{ResourceAllocation, ResourceState-discrete, WorkerInfo}
use drigs.Models.ResourceState.{available, allocated}
use drigs.Result.{
  ok, raise, Error, resource_error, Refusal, already_allocated, unknown_worker, unknown_device,
  device_not_available, insufficient_vram,
}
use drigs.Resources.{
  ResourceManager, new_manager, state_of, set_states, check_device, check_devices, mark_devices,
  device_map_from, key, memory_of, Request, new_allocation, requested_keys, record_allocation,
  grant, allocate_resources, allocated_keys, allocation_key, get_allocation, deallocate_resources,
  Call, step, stored, set_memory,
}
use drigs.Storage.{delete_allocation}
use drigs.Resources.Marking.{lookup-set_states, offered_of_checks, allocations-mark}
use drigs.Resources.Exclusive.{run}
use drigs.Resources.Devices.{IsTracked, checked-HasMemory}
use drigs.Resources.Tracked.{IsKnownCall, step-IsTracked, new_manager-IsTracked, mark-fine}

-- The states and the jobs after marking that raises nothing.
state_of-mark :
    (ks : List String) (vram : ℕ) (m : ResourceManager) (k : String)
    → (mark_devices ks vram m).1 ≡ none
    → state_of k (mark_devices ks vram m).0 ≡ (if contains ks k then allocated else state_of k m)
unfolding mark_devices contains
state_of-mark [] vram m k fine = refl
state_of-mark (x ∷ ks) vram m k fine = elim (Option-cases (lookup x m.device_allocated_memory)) [
  | inl e ↦ cc (rw (e, mark_devices) at fine)
  | inr (n, e) ↦
      rw (e, mark_devices)
        (ground (
          arith,
          lookup-put x k allocated m.device_states,
          state_of-mark ks vram _ k (rw (e, mark_devices) at fine),
        ))
]

jobs-mark :
    (ks : List String) (vram : ℕ) (m : ResourceManager)
    → (mark_devices ks vram m).0.job_allocations ≡ m.job_allocations
unfolding mark_devices
jobs-mark [] vram m = refl
jobs-mark (k ∷ ks) vram m = elim (Option-cases (lookup k m.device_allocated_memory)) [
  | inl e ↦ rw (e, mark_devices)
  | inr (n, e) ↦ rw (e, mark_devices) (jobs-mark ks vram _)
]

-- A request that was granted, from `m` to `m'`.
pub record IsGranted (uuid : String) (now : ℕ) (r : Request) (m m' : ResourceManager) : Type 0 where
  pub worker : WorkerInfo
  pub registered : lookup r.worker_id m.workers ≡ some worker
  pub answer : allocate_resources uuid now r m ≡ (m', ok (new_allocation uuid now r worker))
  pub recorded : get_allocation r.job_id m' ≡ some (new_allocation uuid now r worker)
  -- each device of the request was offered
  pub offered : (k : String) → contains (requested_keys r) k ≡ true → state_of k m ≡ available
  -- the devices of the request are taken, and no others change
  pub taken :
      (k : String)
      → state_of k m' ≡ (if contains (requested_keys r) k then allocated else state_of k m)
  -- nor does any other allocation, nor any other job's
  pub others :
      (i : String)
      → lookup i m'.allocations
        ≡ ite (dec_text uuid i) (some (new_allocation uuid now r worker)) (lookup i m.allocations)
  pub jobs :
      (j : String)
      → lookup j m'.job_allocations
        ≡ ite (dec_text r.job_id j) (some uuid) (lookup j m.job_allocations)
  pub first : has r.job_id m.job_allocations ≡ false

abbrev pub Outcome : String → ℕ → Request → ResourceManager → Type 0
Outcome uuid now r m =
    ((why : Refusal) × (allocate_resources uuid now r m ≡ (m, raise (resource_error why))))
    ⊎ ((m' : ResourceManager) × IsGranted uuid now r m m')

-- The tests of the devices raise ResourceError.
check_refuses :
    (worker_id : String) (vram : ℕ) (w : WorkerInfo) (m : ResourceManager) (id : String) (e : Error)
    → check_device worker_id vram w m id ≡ some e
    → (why : Refusal) × (e ≡ resource_error why)
unfolding check_device
check_refuses worker_id vram w m id e h =
    elim (Option-cases (lookup id (device_map_from [] w.devices))) [
      | inl none_found ↦ (unknown_device id, ground (arith, none_found, h))
      | inr (d, found) ↦ elim (ResourceState-discrete (state_of (key worker_id id) m) available) [
        | yes p ↦
            elim (Bool-cases
              (ltb 0 vram && ltb d.total_memory_bytes (memory_of (key worker_id id) m + vram))) [
                | inl b ↦ (insufficient_vram id, ground (arith, found, p, b, h))
                | inr b ↦ absurd (ground (arith, found, p, b, h))
              ]
        | no n ↦ (device_not_available id, ground (arith, found, n, h))
      ]
    ]

checks_refuse :
    (worker_id : String) (vram : ℕ) (w : WorkerInfo) (m : ResourceManager) (ids : List String)
    (e : Error)
    → check_devices worker_id vram w m ids ≡ some e
    → (why : Refusal) × (e ≡ resource_error why)
unfolding check_devices
checks_refuse worker_id vram w m [] e h = cc
checks_refuse worker_id vram w m (id ∷ ids) e h =
    elim (Option-cases (check_device worker_id vram w m id)) [
      | inl c ↦ checks_refuse worker_id vram w m ids e (rw (c, check_devices) at h)
      | inr (x, c) ↦ check_refuses worker_id vram w m id e (c ∙ (rw (c, check_devices) at h))
    ]

granted :
    (uuid : String) (now : ℕ) (r : Request) (w : WorkerInfo) (m : ResourceManager)
    → IsTracked m
    → has r.job_id m.job_allocations ≡ false
    → lookup r.worker_id m.workers ≡ some w
    → check_devices r.worker_id r.gpu_memory_bytes w m r.device_ids ≡ none
    → IsGranted uuid now r m (
        record_allocation
          (new_allocation uuid now r w)
          (mark_devices (requested_keys r) r.gpu_memory_bytes m).0)
unfolding allocate_resources grant
granted uuid now r w m v b e c = record {
  worker = w;
  registered = e;
  answer = rw (allocate_resources, b, e, c, grant, fine);
  recorded = ground (
    arith,
    lookup-put r.job_id r.job_id uuid marked.job_allocations,
    lookup-put uuid uuid (new_allocation uuid now r w) marked.allocations,
  );
  offered = λ k h. offered_of_checks r.worker_id r.gpu_memory_bytes w m r.device_ids k c h;
  taken = λ k. state_of-mark ks r.gpu_memory_bytes m k fine;
  others = λ i.
      subst
        (λ d.
          lookup i (put uuid a marked.allocations) ≡ ite (dec_text uuid i) (some a) (lookup i d))
        (allocations-mark ks r.gpu_memory_bytes m) (lookup-put uuid i a marked.allocations);
  jobs = λ j.
      subst
        (λ d.
          lookup j (put r.job_id uuid marked.job_allocations)
          ≡ ite (dec_text r.job_id j) (some uuid) (lookup j d))
        (jobs-mark ks r.gpu_memory_bytes m) (lookup-put r.job_id j uuid marked.job_allocations);
  first = b;
}
  where
    ks : List String
    ks = requested_keys r

    a : ResourceAllocation
    a = new_allocation uuid now r w

    marked : ResourceManager
    marked = (mark_devices ks r.gpu_memory_bytes m).0

    fine : (mark_devices ks r.gpu_memory_bytes m).1 ≡ none
    fine =
        mark-fine ks r.gpu_memory_bytes m
          (checked-HasMemory r.worker_id r.gpu_memory_bytes w m r.device_ids v e c)

pub allocate-Outcome :
    (uuid : String) (now : ℕ) (r : Request) (m : ResourceManager)
    → IsTracked m
    → Outcome uuid now r m
unfolding allocate_resources
allocate-Outcome uuid now r m v = elim (Bool-cases (has r.job_id m.job_allocations)) [
  | inl b ↦ inl (already_allocated, rw (allocate_resources, b))
  | inr b ↦ elim (Option-cases (lookup r.worker_id m.workers)) [
    | inl e ↦ inl (unknown_worker, rw (allocate_resources, b, e))
    | inr (w, e) ↦
        elim (Option-cases (check_devices r.worker_id r.gpu_memory_bytes w m r.device_ids)) [
          | inl c ↦ inr (_, granted uuid now r w m v b e c)
          | inr (x, c) ↦
              let (why, same) = checks_refuse r.worker_id r.gpu_memory_bytes w m r.device_ids x c in
              inl (why, rw (allocate_resources, b, e, c, same))
        ]
  ]
]

abbrev pub AllKnown : List Call → ResourceManager → Type 0
AllKnown [] m = Unit
AllKnown (c ∷ cs) m = IsKnownCall c m × AllKnown cs (step c m)

pub run-IsTracked :
    (cs : List Call) (m : ResourceManager) → AllKnown cs m → IsTracked m → IsTracked (run cs m)
run-IsTracked [] m k v = v
run-IsTracked (c ∷ cs) m k v = run-IsTracked cs (step c m) k.1 (step-IsTracked c m k.0 v)

-- After any calls on a new manager whose reports are on devices that it has a state for,
-- `allocate_resources` either raises ResourceError and changes nothing, or it records the
-- allocation, under its id and as the job's, on a registered worker; then each device asked for
-- was available and is allocated, and no other device, allocation or job is touched.
pub run-Outcome :
    (c : Option _) (cs : List Call)
    → AllKnown cs (new_manager c)
    → (uuid : String) (now : ℕ) (r : Request) → Outcome uuid now r (run cs (new_manager c))
run-Outcome c cs k uuid now r =
    allocate-Outcome uuid now r (run cs (new_manager c))
      (run-IsTracked cs (new_manager c) k (new_manager-IsTracked c))

-- `m'` offers the devices and knows the allocations that `m` does.
pub record IsRestored (m m' : ResourceManager) : Type 0 where
  pub states : (k : String) → state_of k m' ≡ state_of k m
  pub allocations : (i : String) → lookup i m'.allocations ≡ lookup i m.allocations
  pub jobs : (j : String) → lookup j m'.job_allocations ≡ lookup j m.job_allocations

-- The job's allocation is given back.
abbrev given_back : String → String → ResourceAllocation → ResourceManager → ResourceManager
given_back job_id uuid a m = record m {
  job_allocations = remove job_id m.job_allocations;
  allocations = remove uuid m.allocations;
  device_states = set_states (allocated_keys a) available m.device_states;
  device_allocated_memory = set_memory (allocated_keys a) m.device_allocated_memory;
  storage = stored (delete_allocation a.job_id) m.storage;
}

given_back-IsRestored :
    (uuid : String) (now : ℕ) (r : Request) (m m' : ResourceManager)
    → lookup uuid m.allocations ≡ none
    → (g : IsGranted uuid now r m m')
    → IsRestored m (given_back r.job_id uuid (new_allocation uuid now r g.worker) m')
given_back-IsRestored uuid now r m m' new g = record {
  states = λ k. ground (
    arith,
    g.taken k,
    g.offered k,
    lookup-set_states (requested_keys r) available m'.device_states k,
  );
  allocations = λ i. ground (arith, g.others i, new, lookup-remove uuid i m'.allocations);
  jobs = λ j. ground (arith, g.jobs j, g.first, lookup-remove r.job_id j m'.job_allocations);
}

deallocate_of_held :
    (id : String) (m : ResourceManager) (a : ResourceAllocation)
    → lookup (allocation_key id m) m.allocations ≡ some a
    → deallocate_resources id m ≡ (given_back id (allocation_key id m) a m, true)
unfolding deallocate_resources
deallocate_of_held id m a e = rw (e, deallocate_resources)

deallocate_of_granted :
    (uuid : String) (now : ℕ) (r : Request) (m m' : ResourceManager) (g : IsGranted uuid now r m m')
    → deallocate_resources r.job_id m'
      ≡ (given_back r.job_id uuid (new_allocation uuid now r g.worker) m', true)
deallocate_of_granted uuid now r m m' g =
    let a = new_allocation uuid now r g.worker in
    let mine : allocation_key r.job_id m' ≡ uuid = ground (arith, g.jobs r.job_id) in
    let held : lookup uuid m'.allocations ≡ some a = ground (arith, g.others uuid) in
    subst (λ x. deallocate_resources r.job_id m' ≡ (given_back r.job_id x a m', true)) mine
      (deallocate_of_held r.job_id m' a
        (subst (λ x. lookup x m'.allocations ≡ some a) (sym mine) held))

-- If devices with a state have a memory entry, as they do after the calls of run-Outcome, and the
-- allocation id is new, then deallocating a job right after its allocation was granted answers True
-- and restores the state of every device, the allocations and the jobs.
pub deallocate-allocate :
    (uuid : String) (now : ℕ) (r : Request) (m m' : ResourceManager) (a : ResourceAllocation)
    → IsTracked m
    → lookup uuid m.allocations ≡ none
    → allocate_resources uuid now r m ≡ (m', ok a)
    → ((deallocate_resources r.job_id m').1 ≡ true)
      × IsRestored m (deallocate_resources r.job_id m').0
deallocate-allocate uuid now r m m' a v new answer = elim (allocate-Outcome uuid now r m v) [
  | inl (why, e) ↦ cc
  | inr (m2, g) ↦
      let same : m' ≡ m2 = ap (λ p. p.0) (sym answer ∙ g.answer) in
      subst
        (λ x.
          ((deallocate_resources r.job_id x).1 ≡ true)
          × IsRestored m (deallocate_resources r.job_id x).0)
        (sym same)
        (subst (λ (p : ResourceManager × Bool). (p.1 ≡ true) × IsRestored m p.0)
          (sym (deallocate_of_granted uuid now r m m2 g))
          (refl, given_back-IsRestored uuid now r m m2 new g))
]
