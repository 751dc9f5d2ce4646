-- ===== src/Resources/Marking.antt =====
-- drigs/core/resource_manager.py, `allocate_resources`: what its tests and its marking do.
use drigs.Prelude.{
  ℕ, String, ◌≡◌, ◌≢◌, refl, subst, true, false, none, some, List, [], ◌∷◌, map, arith, dec_text,
  contains, inl, inr, ◌⊎◌, Bool-cases, Option-cases, if◌then◌else◌,
}
use drigs.Dict.{Dict, lookup, put, has, lookup-put}
use drigs.Models.{ResourceState, WorkerInfo}
use drigs.Models.ResourceState.{available, allocated}
use drigs.Resources.{
  key, ResourceManager, state_of, set_states, check_device, check_devices, mark_devices, Request,
  grant, allocate_resources,
}

pub lookup-set_states :
    (ks : List String) (s : ResourceState) (states : Dict ResourceState) (k : String)
    → lookup k (set_states ks s states) ≡ (if contains ks k then some s else lookup k states)
unfolding set_states contains
lookup-set_states [] s states k = refl
lookup-set_states (x ∷ ks) s states k =
    ground (arith, lookup-set_states ks s (put x s states) k, lookup-put x k s states)

-- What marking does: it leaves the allocations, keeps devices from being offered, and if it does
-- not raise it has marked each device of the list.
pub allocations-mark :
    (ks : List String) (vram : ℕ) (m : ResourceManager)
    → (mark_devices ks vram m).0.allocations ≡ m.allocations
unfolding mark_devices
allocations-mark [] vram m = refl
allocations-mark (k ∷ ks) vram m = elim (Option-cases (lookup k m.device_allocated_memory)) [
  | inl e ↦ rw (e, mark_devices)
  | inr (n, e) ↦ rw (e, mark_devices) (allocations-mark ks vram _)
]

pub keeps-mark :
    (ks : List String) (vram : ℕ) (m : ResourceManager) (k : String)
    → state_of k m ≢ available
    → state_of k (mark_devices ks vram m).0 ≢ available
unfolding mark_devices
keeps-mark [] vram m k h = h
keeps-mark (x ∷ ks) vram m k h = elim (Option-cases (lookup x m.device_allocated_memory)) [
  | inl e ↦ rw (e, mark_devices) (λ o. ground (arith, lookup-put x k allocated m.device_states))
  | inr (n, e) ↦
      rw (e, mark_devices)
        (keeps-mark ks vram _ k (λ o. ground (arith, lookup-put x k allocated m.device_states)))
]

pub marks-mark :
    (ks : List String) (vram : ℕ) (m : ResourceManager) (k : String)
    → (mark_devices ks vram m).1 ≡ none
    → contains ks k ≡ true
    → state_of k (mark_devices ks vram m).0 ≢ available
unfolding mark_devices contains
marks-mark [] vram m k fine c = cc
marks-mark (x ∷ ks) vram m k fine c = elim (Option-cases (lookup x m.device_allocated_memory)) [
  | inl e ↦ cc (rw (e, mark_devices) at fine)
  | inr (n, e) ↦ elim (dec_text x k) [
    | yes p ↦
        rw (e, mark_devices)
          (keeps-mark ks vram _ k (λ o. ground (arith, lookup-put x k allocated m.device_states)))
    | no q ↦
        rw (e, mark_devices) (marks-mark ks vram _ k (rw (e, mark_devices) at fine) (ground arith))
  ]
]

-- Every device that passes the tests is offered.
pub offered_of_checks :
    (worker_id : String) (vram : ℕ) (w : WorkerInfo) (m : ResourceManager) (ids : List String)
    (k : String)
    → check_devices worker_id vram w m ids ≡ none
    → contains (map (λ id. key worker_id id) ids) k ≡ true
    → state_of k m ≡ available
unfolding check_devices contains check_device
offered_of_checks worker_id vram w m [] k h c = cc
offered_of_checks worker_id vram w m (id ∷ ids) k h c =
    elim (Option-cases (check_device worker_id vram w m id)) [
      | inl e ↦ elim (dec_text (key worker_id id) k) [
        | yes p ↦ subst (λ x. state_of x m ≡ available) p (offered id e)
        | no n ↦
            offered_of_checks worker_id vram w m ids k (rw (e, check_devices) at h) (ground arith)
      ]
      | inr (err, e) ↦ cc (rw (e, check_devices) at h)
    ]
  where
    offered :
        (id : String)
        → check_device worker_id vram w m id ≡ none
        → state_of (key worker_id id) m ≡ available
    offered id e = ground arith

-- The branches of an allocation: refused with nothing changed, or granted.
pub allocate_cases :
    (uuid : String) (now : ℕ) (r : Request) (m : ResourceManager)
    → ((allocate_resources uuid now r m).0 ≡ m)
      ⊎ ((w : WorkerInfo) × (lookup r.worker_id m.workers ≡ some w)
          × (has r.job_id m.job_allocations ≡ false)
          × (check_devices r.worker_id r.gpu_memory_bytes w m r.device_ids ≡ none)
          × (allocate_resources uuid now r m ≡ grant uuid now r w m))
unfolding allocate_resources
allocate_cases uuid now r m = elim (Bool-cases (has r.job_id m.job_allocations)) [
  | inl b ↦ inl (rw (b, allocate_resources))
  | inr b ↦ elim (Option-cases (lookup r.worker_id m.workers)) [
    | inl e ↦ inl (rw (b, allocate_resources, e))
    | inr (w, e) ↦
        elim (Option-cases (check_devices r.worker_id r.gpu_memory_bytes w m r.device_ids)) [
          | inl c ↦ inr (w, e, b, c, rw (b, allocate_resources, e, c))
          | inr (err, c) ↦ inl (rw (b, allocate_resources, e, c))
        ]
  ]
]
