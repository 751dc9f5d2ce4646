-- ===== src/Resources/Tracked.antt =====
-- drigs/core/resource_manager.py: every device that a manager offers has an entry in
-- `_device_allocated_memory`, so that marking it raises nothing.
use drigs.Prelude.{
  ℕ, String, ◌≡◌, refl, sym, subst, true, Option, none, some, List, [], ◌∷◌, arith, contains, inl,
  inr, Bool-cases, Option-cases, All, ◌+◌, if◌then◌else◌,
}
use drigs.Dict.{Dict, lookup, put, has, lookup-put}
use drigs.Models.ResourceState.{available, allocated}
use drigs.Resources.{
  ResourceManager, new_manager, set_memory, mark_devices, Request, requested_keys, grant,
  allocate_resources, deallocate_resources, allocated_keys, allocation_key, Call, registers,
  unregisters, reports, allocates, deallocates, step,
}
use drigs.Resources.Marking.{lookup-set_states, allocate_cases}
use drigs.Resources.Devices.{
  HasMemory, IsTracked, has-put, put-has, register-IsTracked, unregister-IsTracked, IsKnown,
  report-IsTracked, checked-HasMemory,
}

-- One device is marked.
marked_one : String → ℕ → ResourceManager → ResourceManager
marked_one k n m = record m {
  device_states = put k allocated m.device_states;
  device_allocated_memory = put k n m.device_allocated_memory;
}

marked_one-IsTracked :
    (k : String) (n : ℕ) (m : ResourceManager) → IsTracked m → IsTracked (marked_one k n m)
unfolding marked_one
marked_one-IsTracked k n m v = record {
  sized = λ j e. elim (put-has k j allocated m.device_states e) [
    | inl p ↦ ground (arith, p, lookup-put k j n m.device_allocated_memory)
    | inr old ↦ has-put k j n m.device_allocated_memory (v.sized j old)
  ];
  known = λ id w j e c. has-put k j n m.device_allocated_memory (v.known id w j e c);
}

marked_one-HasMemory :
    (k : String) (n : ℕ) (m : ResourceManager) (ks : List String)
    → All (HasMemory m) ks
    → All (HasMemory (marked_one k n m)) ks
unfolding marked_one
marked_one-HasMemory k n m [] h = tt
marked_one-HasMemory k n m (x ∷ ks) h =
    (has-put k x n m.device_allocated_memory h.0, marked_one-HasMemory k n m ks h.1)

-- Marking devices that have an entry raises nothing.
pub mark-fine :
    (ks : List String) (vram : ℕ) (m : ResourceManager)
    → All (HasMemory m) ks
    → (mark_devices ks vram m).1 ≡ none
unfolding mark_devices marked_one
mark-fine [] vram m h = refl
mark-fine (k ∷ ks) vram m h = elim (Option-cases (lookup k m.device_allocated_memory)) [
  | inl e ↦ absurd (ground (arith, e, h.0))
  | inr (n, e) ↦
      rw (e, mark_devices) (mark-fine ks vram _ (marked_one-HasMemory k (n + vram) m ks h.1))
]

mark-IsTracked :
    (ks : List String) (vram : ℕ) (m : ResourceManager)
    → All (HasMemory m) ks
    → IsTracked m
    → IsTracked (mark_devices ks vram m).0
unfolding mark_devices marked_one
mark-IsTracked [] vram m h v = v
mark-IsTracked (k ∷ ks) vram m h v = elim (Option-cases (lookup k m.device_allocated_memory)) [
  | inl e ↦ absurd (ground (arith, e, h.0))
  | inr (n, e) ↦
      rw (e, mark_devices)
        (mark-IsTracked ks vram _ (marked_one-HasMemory k (n + vram) m ks h.1)
          (marked_one-IsTracked k (n + vram) m v))
]

-- Fields that this does not read may change.
same-IsTracked :
    (m m' : ResourceManager)
    → m'.workers ≡ m.workers
    → m'.device_states ≡ m.device_states
    → m'.device_allocated_memory ≡ m.device_allocated_memory
    → IsTracked m
    → IsTracked m'
same-IsTracked m m' w s d v = record {
  sized = λ k h. subst (λ x. has k x ≡ true) (sym d) (v.sized k (subst (λ x. has k x ≡ true) s h));
  known = λ id u k e c.
      subst (λ x. has k x ≡ true) (sym d)
        (v.known id u k (subst (λ x. lookup id x ≡ some u) w e) c);
}

allocate-IsTracked :
    (uuid : String) (now : ℕ) (r : Request) (m : ResourceManager)
    → IsTracked m
    → IsTracked (allocate_resources uuid now r m).0
unfolding grant
allocate-IsTracked uuid now r m v = elim (allocate_cases uuid now r m) [
  | inl e ↦ subst IsTracked (sym e) v
  | inr (w, e, b, c, done) ↦
      let own = checked-HasMemory r.worker_id r.gpu_memory_bytes w m r.device_ids v e c in
      let fine = mark-fine (requested_keys r) r.gpu_memory_bytes m own in
      subst (λ p. IsTracked p.0) (sym done)
        (rw (fine, grant)
          (same-IsTracked _ _ refl refl refl
            (mark-IsTracked (requested_keys r) r.gpu_memory_bytes m own v)))
]

has-set_memory :
    (ks : List String) (memory : Dict ℕ) (k : String)
    → has k (set_memory ks memory) ≡ (if contains ks k then true else has k memory)
unfolding set_memory contains
has-set_memory [] memory k = refl
has-set_memory (x ∷ ks) memory k =
    ground (arith, has-set_memory ks (put x 0 memory) k, lookup-put x k 0 memory)

deallocate-IsTracked :
    (id : String) (m : ResourceManager) → IsTracked m → IsTracked (deallocate_resources id m).0
unfolding deallocate_resources
deallocate-IsTracked id m v = elim (Option-cases (lookup (allocation_key id m) m.allocations)) [
  | inl e ↦ rw (e, deallocate_resources) (same-IsTracked m _ refl refl refl v)
  | inr (a, e) ↦
      let ks = allocated_keys a in
      rw (e, deallocate_resources)
        (record {
          sized = λ k h. elim (Bool-cases (contains ks k)) [
            | inl c ↦ ground (arith, c, has-set_memory ks m.device_allocated_memory k)
            | inr c ↦
                let old =
                  v.sized k
                    (ground (arith, h, c, lookup-set_states ks available m.device_states k)) in
                ground (arith, c, old, has-set_memory ks m.device_allocated_memory k)
          ];
          known = λ i w k f c.
              ground (arith, v.known i w k f c, has-set_memory ks m.device_allocated_memory k);
        })
]

-- A call reports on devices that have a state.
abbrev pub IsKnownCall : Call → ResourceManager → Type 0
IsKnownCall (reports worker_id device_id s) m = IsKnown worker_id device_id s m
IsKnownCall _ m = Unit

pub step-IsTracked :
    (c : Call) (m : ResourceManager) → IsKnownCall c m → IsTracked m → IsTracked (step c m)
unfolding step
step-IsTracked (registers w) m k v = register-IsTracked w m v
step-IsTracked (unregisters id) m k v = unregister-IsTracked id m v
step-IsTracked (reports worker_id device_id s) m k v = report-IsTracked worker_id device_id s m k v
step-IsTracked (allocates uuid now r) m k v = allocate-IsTracked uuid now r m v
step-IsTracked (deallocates id) m k v = deallocate-IsTracked id m v

pub new_manager-IsTracked : (c : Option _) → IsTracked (new_manager c)
unfolding lookup
new_manager-IsTracked c = record { sized = λ k e. cc; known = λ id w k e. cc }
