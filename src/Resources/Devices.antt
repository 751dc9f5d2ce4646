-- ===== src/Resources/Devices.antt =====
-- drigs/core/resource_manager.py: which devices have an entry in `_device_allocated_memory`, as
-- workers and devices are reported.
use drigs.Prelude.{
  ℕ, String, ◌≡◌, refl, sym, ap, subst, ◌∙◌, true, false, none, some, List, [], ◌∷◌, map, arith,
  dec_text, contains, inl, inr, ◌⊎◌, Bool-cases, Option-cases, ite, All,
}
use drigs.Dict.{Dict, lookup, put, has, lookup-put, lookup-remove}
use drigs.Models.{ComputeDevice, DeviceState, ResourceState, WorkerInfo}
use drigs.Models.ResourceState.{available, unavailable, degraded}
use drigs.Resources.{
  key, ResourceManager, add_keys, register_worker, device_keys, device_map_from, unregister_worker,
  update_device_status, check_device, check_devices,
}
use drigs.Resources.Marking.{lookup-set_states}

abbrev pub HasMemory : ResourceManager → String → Type 0
HasMemory m k = has k m.device_allocated_memory ≡ true

pub record IsTracked (m : ResourceManager) : Type 0 where
  -- a device with a state has an entry
  pub sized : (k : String) → has k m.device_states ≡ true → HasMemory m k
  -- so has every device of a registered worker
  pub known :
      (id : String) (w : WorkerInfo) (k : String)
      → lookup id m.workers ≡ some w
      → contains (device_keys id w.devices) k ≡ true
      → HasMemory m k

pub has-put {ℓ} :
    {V : Type ℓ} (k j : String) (v : V) (m : Dict V) → has j m ≡ true → has j (put k v m) ≡ true
has-put k j v m h = ground (arith, lookup-put k j v m)

pub put-has {ℓ} :
    {V : Type ℓ} (k j : String) (v : V) (m : Dict V)
    → has j (put k v m) ≡ true
    → (k ≡ j) ⊎ (has j m ≡ true)
put-has k j v m h = ground (arith, lookup-put k j v m)

-- The loop of `register_worker`.
keeps-add_keys :
    (ks : List String) (m : ResourceManager) (k : String)
    → HasMemory m k
    → HasMemory (add_keys ks m) k
unfolding add_keys
keeps-add_keys [] m k h = h
keeps-add_keys (x ∷ ks) m k h = elim (Bool-cases (has x m.device_states)) [
  | inl b ↦ keeps-add_keys ks _ k (rw b h)
  | inr b ↦ keeps-add_keys ks _ k (rw b (has-put x k 0 m.device_allocated_memory h))
]

known-add_keys :
    (ks : List String) (m : ResourceManager) (k : String)
    → ((j : String) → has j m.device_states ≡ true → HasMemory m j)
    → contains ks k ≡ true
    → HasMemory (add_keys ks m) k
unfolding add_keys contains
known-add_keys [] m k s c = cc
known-add_keys (x ∷ ks) m k s c = elim (Bool-cases (has x m.device_states)) [
  | inl b ↦
      rw (b, add_keys)
        (elim (dec_text x k) [
          | yes p ↦ keeps-add_keys ks _ k (subst (HasMemory m) p (s x b))
          | no n ↦ known-add_keys ks _ k s (ground arith)
        ])
  | inr b ↦
      rw (b, add_keys)
        (elim (dec_text x k) [
          | yes p ↦
              keeps-add_keys ks _ k (ground (arith, lookup-put x k 0 m.device_allocated_memory))
          | no n ↦ known-add_keys ks _ k (sized_after b) (ground arith)
        ])
]
  where
    sized_after :
        has x m.device_states ≡ false
        → (j : String) → has j (put x available m.device_states) ≡ true
        → has j (put x 0 m.device_allocated_memory) ≡ true
    sized_after b j h = elim (put-has x j available m.device_states h) [
      | inl p ↦ ground (arith, p, lookup-put x j 0 m.device_allocated_memory)
      | inr old ↦ has-put x j 0 m.device_allocated_memory (s j old)
    ]

sized-add_keys :
    (ks : List String) (m : ResourceManager)
    → ((j : String) → has j m.device_states ≡ true → HasMemory m j)
    → (k : String) → has k (add_keys ks m).device_states ≡ true
    → HasMemory (add_keys ks m) k
unfolding add_keys
sized-add_keys [] m s k h = s k h
sized-add_keys (x ∷ ks) m s k h = elim (Bool-cases (has x m.device_states)) [
  | inl b ↦ rw (b, add_keys) (sized-add_keys ks _ s k (rw (b, add_keys) at h))
  | inr b ↦ rw (b, add_keys) (sized-add_keys ks _ sized_after k (rw (b, add_keys) at h))
]
  where
    sized_after :
        (j : String)
        → has j (put x available m.device_states) ≡ true
        → has j (put x 0 m.device_allocated_memory) ≡ true
    sized_after j e = elim (put-has x j available m.device_states e) [
      | inl p ↦ ground (arith, p, lookup-put x j 0 m.device_allocated_memory)
      | inr old ↦ has-put x j 0 m.device_allocated_memory (s j old)
    ]

workers-add_keys : (ks : List String) (m : ResourceManager) → (add_keys ks m).workers ≡ m.workers
unfolding add_keys
workers-add_keys [] m = refl
workers-add_keys (k ∷ ks) m = workers-add_keys ks _

pub register-IsTracked :
    (w : WorkerInfo) (m : ResourceManager) → IsTracked m → IsTracked (register_worker w m)
unfolding register_worker
register-IsTracked w m v = record {
  sized = λ k h. sized-add_keys ks m1 v.sized k h;
  known = λ id w' k e c. elim (dec_text w.worker_id id) [
    | yes p ↦ known-add_keys ks m1 k v.sized (ground (arith, entry id w' e, c, p))
    | no n ↦ keeps-add_keys ks m1 k (v.known id w' k (ground (arith, entry id w' e, n)) c)
  ];
}
  where
    ks : List String
    ks = device_keys w.worker_id w.devices

    m1 : ResourceManager
    m1 = record m { workers = put w.worker_id w m.workers }

    entry :
        (id : String) (w' : WorkerInfo)
        → lookup id (add_keys ks m1).workers ≡ some w'
        → ite (dec_text w.worker_id id) (some w) (lookup id m.workers) ≡ some w'
    entry id w' e =
        sym (lookup-put w.worker_id id w m.workers)
        ∙ (sym (ap (lookup id) (workers-add_keys ks m1)) ∙ e)

pub unregister-IsTracked :
    (id : String) (m : ResourceManager) → IsTracked m → IsTracked (unregister_worker id m)
unfolding unregister_worker
unregister-IsTracked id m v = elim (Option-cases (lookup id m.workers)) [
  | inl e ↦ rw (e, unregister_worker) v
  | inr (w, e) ↦
      rw (e, unregister_worker)
        (record {
          sized = λ k h. elim (Bool-cases (contains (device_keys id w.devices) k)) [
            | inl c ↦ v.known id w k e c
            | inr c ↦ v.sized k (
                ground (
                  arith,
                  h,
                  c,
                  lookup-set_states (device_keys id w.devices) unavailable m.device_states k,
                ))
          ];
          known = λ other w' k e' c.
              v.known other w' k (ground (arith, e', lookup-remove id other m.workers)) c;
        })
]

-- The report of a device that has a state, or that it is healthy.
abbrev pub IsKnown : String → String → DeviceState → ResourceManager → Type 0
IsKnown worker_id device_id DeviceState.healthy m = Unit
IsKnown worker_id device_id _ m = has (key worker_id device_id) m.device_states ≡ true

put-IsTracked :
    (k : String) (s : ResourceState) (m : ResourceManager)
    → has k m.device_states ≡ true
    → IsTracked m
    → IsTracked (record m { device_states = put k s m.device_states })
put-IsTracked k s m h v = record {
  sized = λ j e. elim (put-has k j s m.device_states e) [
    | inl p ↦ v.sized j (subst (λ x. has x m.device_states ≡ true) p h)
    | inr old ↦ v.sized j old
  ];
  known = v.known;
}

pub report-IsTracked :
    (worker_id device_id : String) (s : DeviceState) (m : ResourceManager)
    → IsKnown worker_id device_id s m
    → IsTracked m
    → IsTracked (update_device_status worker_id device_id s m)
unfolding update_device_status
report-IsTracked worker_id device_id DeviceState.healthy m k v = v
report-IsTracked worker_id device_id DeviceState.degraded m k v = put-IsTracked _ degraded m k v
report-IsTracked worker_id device_id DeviceState.unavailable m k v =
    put-IsTracked _ unavailable m k v
report-IsTracked worker_id device_id DeviceState.offline m k v = put-IsTracked _ unavailable m k v

-- The devices that pass the tests of an allocation are devices of the worker.
device_known :
    (worker_id id : String) (found : Dict ComputeDevice) (ds : List ComputeDevice)
    (d : ComputeDevice)
    → lookup id (device_map_from found ds) ≡ some d
    → (contains (device_keys worker_id ds) (key worker_id id) ≡ true) ⊎ (lookup id found ≡ some d)
unfolding contains
device_known worker_id id found [] d e = inr e
device_known worker_id id found (x ∷ ds) d e =
    elim (device_known worker_id id (put x.device_id x found) ds d e) [
      | inl c ↦ inl (ground (arith, c))
      | inr old ↦ elim (dec_text x.device_id id) [
        | yes p ↦ inl (ground (arith, ap (key worker_id) p))
        | no n ↦ inr (ground (arith, old, n, lookup-put x.device_id id x found))
      ]
    ]

pub checked-HasMemory :
    (worker_id : String) (vram : ℕ) (w : WorkerInfo) (m : ResourceManager) (ids : List String)
    → IsTracked m
    → lookup worker_id m.workers ≡ some w
    → check_devices worker_id vram w m ids ≡ none
    → All (HasMemory m) (map (λ id. key worker_id id) ids)
unfolding check_devices check_device lookup
checked-HasMemory worker_id vram w m [] v e c = tt
checked-HasMemory worker_id vram w m (id ∷ ids) v e c =
    elim (Option-cases (lookup id (device_map_from [] w.devices))) [
      | inl unknown ↦ absurd (ground (arith, unknown, c))
      | inr (d, known) ↦ (
        elim (device_known worker_id id [] w.devices d known) [
          | inl member ↦ v.known worker_id w (key worker_id id) e member
          | inr f ↦ cc f
        ],
        checked-HasMemory worker_id vram w m ids v e (ground (arith, c)),
      )
    ]
