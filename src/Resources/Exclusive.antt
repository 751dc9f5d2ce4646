-- ===== src/Resources/Exclusive.antt =====
-- drigs/core/resource_manager.py: which allocation holds a device.
use drigs.Prelude.{
  ℕ, String, ◌≡◌, ◌≢◌, refl, sym, subst, ◌∙◌, true, false, Option, none, some, List, [], ◌∷◌, arith,
  contains, inl, inr, ◌⊎◌, Bool-cases, Option-cases,
}
use drigs.Dict.{lookup, remove, has, lookup-put, lookup-remove}
use drigs.Models.{DeviceState, ResourceAllocation, WorkerInfo}
use drigs.Models.ResourceState.{available, unavailable, degraded}
use drigs.Resources.{
  key, ResourceManager, new_manager, state_of, add_keys, register_worker, device_keys, set_states,
  unregister_worker, update_device_status, check_devices, mark_devices, Request, new_allocation,
  requested_keys, record_allocation, grant, allocate_resources, allocated_keys, allocation_key,
  deallocate_resources, Call, registers, unregisters, reports, allocates, deallocates, step,
}
use drigs.Resources.Marking.{
  lookup-set_states, allocations-mark, keeps-mark, marks-mark, offered_of_checks, allocate_cases,
}

-- The allocation holds the device with this key.
abbrev pub Holds : ResourceAllocation → String → Type 0
Holds a k = contains (allocated_keys a) k ≡ true

pub record IsExclusive (m : ResourceManager) : Type 0 where
  -- a held device is not offered
  pub busy :
      (id k : String) (a : ResourceAllocation)
      → lookup id m.allocations ≡ some a
      → Holds a k
      → state_of k m ≢ available
  -- two active allocations that hold one device are the same
  pub apart :
      (i j k : String) (a b : ResourceAllocation)
      → lookup i m.allocations ≡ some a
      → lookup j m.allocations ≡ some b
      → Holds a k
      → Holds b k
      → i ≡ j

-- The states change, of held devices to others than AVAILABLE at most.
states-IsExclusive :
    (m m' : ResourceManager)
    → m'.allocations ≡ m.allocations
    → ((k : String) → state_of k m ≢ available → state_of k m' ≢ available)
    → IsExclusive m
    → IsExclusive m'
states-IsExclusive m m' e keeps v = record {
  busy = λ id k a f h. keeps k (v.busy id k a (subst (λ as'. lookup id as' ≡ some a) e f) h);
  apart = λ i j k a b f g.
      v.apart i j k a b (subst (λ d. lookup i d ≡ some a) e f)
        (subst (λ d. lookup j d ≡ some b) e g);
}

allocations-add_keys :
    (ks : List String) (m : ResourceManager) → (add_keys ks m).allocations ≡ m.allocations
unfolding add_keys
allocations-add_keys [] m = refl
allocations-add_keys (k ∷ ks) m = allocations-add_keys ks _

-- A key that is there keeps its state.
keeps-add_keys :
    (ks : List String) (m : ResourceManager) (k : String)
    → state_of k m ≢ available
    → state_of k (add_keys ks m) ≢ available
unfolding add_keys
keeps-add_keys [] m k h = h
keeps-add_keys (x ∷ ks) m k h =
    keeps-add_keys ks _ k (λ e. ground (arith, lookup-put x k available m.device_states))

pub register-IsExclusive :
    (w : WorkerInfo) (m : ResourceManager) → IsExclusive m → IsExclusive (register_worker w m)
unfolding register_worker
register-IsExclusive w m =
    states-IsExclusive m (register_worker w m)
      (allocations-add_keys (device_keys w.worker_id w.devices) _)
      (λ k h. keeps-add_keys (device_keys w.worker_id w.devices) _ k h)

unregister-IsExclusive :
    (id : String) (m : ResourceManager) → IsExclusive m → IsExclusive (unregister_worker id m)
unfolding unregister_worker
unregister-IsExclusive id m = states-IsExclusive m (unregister_worker id m) (ground arith) (λ k h e.
    elim (Option-cases (lookup id m.workers)) [
      | inl n ↦ h (rw (n, unregister_worker) at e)
      | inr (w, n) ↦
          let ks = device_keys id w.devices in
          let law = lookup-set_states ks unavailable m.device_states k in ground (arith, law, n)
    ])

report-IsExclusive :
    (worker_id device_id : String) (s : DeviceState) (m : ResourceManager)
    → IsExclusive m
    → IsExclusive (update_device_status worker_id device_id s m)
unfolding update_device_status
report-IsExclusive worker_id device_id s m = states-IsExclusive m _ (ground arith) (λ k h e.
    ground (
      arith,
      lookup-put (key worker_id device_id) k unavailable m.device_states,
      lookup-put (key worker_id device_id) k degraded m.device_states,
    ))

-- A new allocation of devices that are offered, under a new id.
record-IsExclusive :
    (a : ResourceAllocation) (m m' : ResourceManager)
    → m'.allocations ≡ m.allocations
    → has a.allocation_id m.allocations ≡ false
    → ((k : String) → Holds a k → state_of k m ≡ available)
    → ((k : String) → Holds a k → state_of k m' ≢ available)
    → ((k : String) → state_of k m ≢ available → state_of k m' ≢ available)
    → IsExclusive m
    → IsExclusive (record_allocation a m')
record-IsExclusive a m m' same new was now_held keeps v = record {
  busy = λ id k b f h. elim (entry id b f) [
    | inl (p, e) ↦ now_held k (subst (λ (x : ResourceAllocation). Holds x k) e h)
    | inr old ↦ keeps k (v.busy id k b old h)
  ];
  apart = λ i j k b c f g hb hc. elim (entry i b f) [
    | inl (p, e) ↦ elim (entry j c g) [
      | inl (p', e') ↦ p ∙ sym p'
      | inr old ↦
          absurd (v.busy j k c old hc (was k (subst (λ (x : ResourceAllocation). Holds x k) e hb)))
    ]
    | inr old ↦ elim (entry j c g) [
      | inl (p', e') ↦
          absurd (v.busy i k b old hb (was k (subst (λ (x : ResourceAllocation). Holds x k) e' hc)))
      | inr old' ↦ v.apart i j k b c old old' hb hc
    ]
  ];
}
  where
    entry :
        (id : String) (b : ResourceAllocation)
        → lookup id (record_allocation a m').allocations ≡ some b
        → ((id ≡ a.allocation_id) × (b ≡ a)) ⊎ (lookup id m.allocations ≡ some b)
    entry id b f = ground (arith, same, lookup-put a.allocation_id id a m'.allocations)

grant-IsExclusive :
    (uuid : String) (now : ℕ) (r : Request) (w : WorkerInfo) (m : ResourceManager)
    → has uuid m.allocations ≡ false
    → check_devices r.worker_id r.gpu_memory_bytes w m r.device_ids ≡ none
    → IsExclusive m
    → IsExclusive (grant uuid now r w m).0
unfolding grant
grant-IsExclusive uuid now r w m new checked v =
    let ks = requested_keys r in
    let marked = mark_devices ks r.gpu_memory_bytes m in
    elim (Option-cases marked.1) [
      | inr (e, failed) ↦
          rw (failed, grant)
            (states-IsExclusive m marked.0 (allocations-mark ks r.gpu_memory_bytes m)
              (keeps-mark ks r.gpu_memory_bytes m) v)
      | inl fine ↦
          rw (fine, grant)
            (record-IsExclusive (new_allocation uuid now r w) m marked.0
              (allocations-mark ks r.gpu_memory_bytes m) new
              (λ k h. offered_of_checks r.worker_id r.gpu_memory_bytes w m r.device_ids k checked h)
              (λ k h. marks-mark ks r.gpu_memory_bytes m k fine h)
              (keeps-mark ks r.gpu_memory_bytes m) v)
    ]

pub allocate-IsExclusive :
    (uuid : String) (now : ℕ) (r : Request) (m : ResourceManager)
    → has uuid m.allocations ≡ false
    → IsExclusive m
    → IsExclusive (allocate_resources uuid now r m).0
allocate-IsExclusive uuid now r m new v = elim (allocate_cases uuid now r m) [
  | inl e ↦ subst IsExclusive (sym e) v
  | inr (w, e, b, c, done) ↦
      subst (λ p. IsExclusive p.0) (sym done) (grant-IsExclusive uuid now r w m new c v)
]

freed-IsExclusive :
    (id : String) (a : ResourceAllocation) (m m' : ResourceManager)
    → lookup id m.allocations ≡ some a
    → m'.allocations ≡ remove id m.allocations
    → m'.device_states ≡ set_states (allocated_keys a) available m.device_states
    → IsExclusive m
    → IsExclusive m'
freed-IsExclusive id a m m' held gone states v = record {
  busy = λ i k b f h e.
      let (n, old) = other i b f in
      let free : contains (allocated_keys a) k ≡ false = apart_from i k b n old h in
      v.busy i k b old h (
        ground
          (arith, free, states, lookup-set_states (allocated_keys a) available m.device_states k));
  apart = λ i j k b c f g hb hc. v.apart i j k b c (other i b f).1 (other j c g).1 hb hc;
}
  where
    other :
        (i : String) (b : ResourceAllocation)
        → lookup i m'.allocations ≡ some b
        → (id ≢ i) × (lookup i m.allocations ≡ some b)
    other i b f = (
      ground (arith, gone, lookup-remove id i m.allocations),
      ground (arith, gone, lookup-remove id i m.allocations),
    )

    apart_from :
        (i k : String) (b : ResourceAllocation)
        → id ≢ i
        → lookup i m.allocations ≡ some b
        → Holds b k
        → contains (allocated_keys a) k ≡ false
    apart_from i k b n old h = elim (Bool-cases (contains (allocated_keys a) k)) [
      | inl both ↦ absurd (n (v.apart id i k a b held old both h))
      | inr free ↦ free
    ]

pub deallocate-IsExclusive :
    (id : String) (m : ResourceManager) → IsExclusive m → IsExclusive (deallocate_resources id m).0
unfolding deallocate_resources
deallocate-IsExclusive id m v = elim (Option-cases (lookup (allocation_key id m) m.allocations)) [
  | inl e ↦ rw (e, deallocate_resources) (states-IsExclusive m _ refl (λ k h. h) v)
  | inr (a, e) ↦
      rw (e, deallocate_resources) (freed-IsExclusive (allocation_key id m) a m _ e refl refl v)
]

-- The id that a call draws is new.
abbrev pub IsFreshCall : Call → ResourceManager → Type 0
IsFreshCall (allocates uuid now r) m = has uuid m.allocations ≡ false
IsFreshCall _ m = Unit

abbrev pub AllFresh : List Call → ResourceManager → Type 0
AllFresh [] m = Unit
AllFresh (c ∷ cs) m = IsFreshCall c m × AllFresh cs (step c m)

abbrev pub run : List Call → ResourceManager → ResourceManager
run [] m = m
run (c ∷ cs) m = run cs (step c m)

pub step-IsExclusive :
    (c : Call) (m : ResourceManager) → IsFreshCall c m → IsExclusive m → IsExclusive (step c m)
unfolding step
step-IsExclusive (registers w) m f v = register-IsExclusive w m v
step-IsExclusive (unregisters id) m f v = unregister-IsExclusive id m v
step-IsExclusive (reports worker_id device_id s) m f v =
    report-IsExclusive worker_id device_id s m v
step-IsExclusive (allocates uuid now r) m f v = allocate-IsExclusive uuid now r m f v
step-IsExclusive (deallocates id) m f v = deallocate-IsExclusive id m v

-- It holds after any calls but load_from_storage whose allocation ids are new.
pub run-IsExclusive :
    (cs : List Call) (m : ResourceManager) → AllFresh cs m → IsExclusive m → IsExclusive (run cs m)
run-IsExclusive [] m f v = v
run-IsExclusive (c ∷ cs) m f v = run-IsExclusive cs (step c m) f.1 (step-IsExclusive c m f.0 v)

pub new_manager-IsExclusive : (c : Option _) → IsExclusive (new_manager c)
unfolding lookup
new_manager-IsExclusive c = record { busy = λ id k a e. cc; apart = λ i j k a b e. cc }
