-- ===== src/Resources/Loading.antt =====
-- load_from_storage in drigs/core/resource_manager.py among the other calls: which allocation holds
-- a device.
use drigs.Prelude.{
  ℕ, String, ◌≡◌, sym, subst, ◌∙◌, false, some, none, List, [], ◌∷◌, arith, inl, inr, ◌⊎◌, Option,
  length,
}
use drigs.Dict.{lookup, put, has, lookup-put}
use drigs.Models.{ResourceAllocation, WorkerInfo}
use drigs.Models.ResourceState.{allocated}
use drigs.Storage.{Cluster, load_all_workers, load_all_allocations}
use drigs.Resources.{
  ResourceManager, set_states, allocated_keys, register_worker, register_all, restore_all,
  load_from_storage, Call, step,
}
use drigs.Resources.Marking.{lookup-set_states}
use drigs.Resources.Exclusive.{
  Holds, IsExclusive, IsFreshCall, register-IsExclusive, step-IsExclusive,
}

-- The calls of a manager, the loading included.
pub data Event : Type 0 where
  calls : Call → Event
  loads : (uuid : ℕ → String) → Event

unfoldable pub perform : Event → ResourceManager → ResourceManager
perform (calls c) m = step c m
perform (loads uuid) m = (load_from_storage uuid m).0

unfoldable pub perform_all : List Event → ResourceManager → ResourceManager
unfolding perform
perform_all [] m = m
perform_all (e ∷ es) m = perform_all es (perform e m)

-- The manager with one more stored allocation.
abbrev pub restored : ResourceAllocation → ResourceManager → ResourceManager
restored a m = record m {
  allocations = put a.allocation_id a m.allocations;
  job_allocations = put a.job_id a.allocation_id m.job_allocations;
  device_states = set_states (allocated_keys a) allocated m.device_states;
}

-- No active allocation holds a device of this one.
abbrev pub IsFree : ResourceAllocation → ResourceManager → Type 0
IsFree a m =
    (j k : String) (c : ResourceAllocation)
    → lookup j m.allocations ≡ some c
    → Holds a k
    → ¬ Holds c k

-- Each stored allocation comes under a new id, and holds devices that are free.
abbrev pub AreLoadable : List ResourceAllocation → ResourceManager → Type 0
AreLoadable [] m = Unit
AreLoadable (a ∷ rows) m =
    (has a.allocation_id m.allocations ≡ false) × IsFree a m × AreLoadable rows (restored a m)

-- What the database has can be loaded, after its workers.
abbrev pub IsLoadable : (ℕ → String) → Option Cluster → ResourceManager → Type 0
IsLoadable uuid none m = Unit
IsLoadable uuid (some c) m =
    AreLoadable (load_all_allocations uuid c) (register_all (load_all_workers c) m)

unfoldable pub IsFreshEvent : Event → ResourceManager → Type 0
IsFreshEvent (calls c) m = IsFreshCall c m
IsFreshEvent (loads uuid) m = IsLoadable uuid m.storage m

unfoldable pub AreFresh : List Event → ResourceManager → Type 0
unfolding IsFreshEvent perform
AreFresh [] m = Unit
AreFresh (e ∷ es) m = IsFreshEvent e m × AreFresh es (perform e m)

register_all-IsExclusive :
    (ws : List WorkerInfo) (m : ResourceManager) → IsExclusive m → IsExclusive (register_all ws m)
unfolding register_all
register_all-IsExclusive [] m v = v
register_all-IsExclusive (w ∷ ws) m v =
    register_all-IsExclusive ws (register_worker w m) (register-IsExclusive w m v)

restored-IsExclusive :
    (a : ResourceAllocation) (m : ResourceManager)
    → has a.allocation_id m.allocations ≡ false
    → IsFree a m
    → IsExclusive m
    → IsExclusive (restored a m)
restored-IsExclusive a m new free v = record {
  busy = λ id k b f h e.
      let law = lookup-set_states (allocated_keys a) allocated m.device_states k in
      elim (entry id b f) [
        | inl (p, q) ↦
            let held : Holds a k = subst (λ (x : ResourceAllocation). Holds x k) q h in
            ground (arith, held, law, e)
        | inr old ↦ v.busy id k b old h (ground (arith, law, e))
      ];
  apart = λ i j k b c f g hb hc. elim (entry i b f) [
    | inl (p, e) ↦ elim (entry j c g) [
      | inl (p', e') ↦ p ∙ sym p'
      | inr old ↦ absurd (free j k c old (subst (λ (x : ResourceAllocation). Holds x k) e hb) hc)
    ]
    | inr old ↦ elim (entry j c g) [
      | inl (p', e') ↦
          absurd (free i k b old (subst (λ (x : ResourceAllocation). Holds x k) e' hc) hb)
      | inr old' ↦ v.apart i j k b c old old' hb hc
    ]
  ];
}
  where
    entry :
        (id : String) (b : ResourceAllocation)
        → lookup id (restored a m).allocations ≡ some b
        → ((id ≡ a.allocation_id) × (b ≡ a)) ⊎ (lookup id m.allocations ≡ some b)
    entry id b f = ground (arith, lookup-put a.allocation_id id a m.allocations)

restore_all-IsExclusive :
    (rows : List ResourceAllocation) (m : ResourceManager)
    → AreLoadable rows m
    → IsExclusive m
    → IsExclusive (restore_all rows m)
unfolding restore_all
restore_all-IsExclusive [] m f v = v
restore_all-IsExclusive (a ∷ rows) m f v =
    restore_all-IsExclusive rows (restored a m) f.2 (restored-IsExclusive a m f.0 f.1 v)

abbrev loaded : (ℕ → String) → Option Cluster → ResourceManager → ResourceManager × ℕ
loaded uuid storage m = elim storage [
  | none ↦ (m, 0)
  | some c ↦ (
    restore_all (load_all_allocations uuid c) (register_all (load_all_workers c) m),
    length (load_all_allocations uuid c),
  )
]

loaded-IsExclusive :
    (uuid : ℕ → String) (storage : Option Cluster) (m : ResourceManager)
    → IsLoadable uuid storage m
    → IsExclusive m
    → IsExclusive (loaded uuid storage m).0
loaded-IsExclusive uuid none m f v = v
loaded-IsExclusive uuid (some c) m f v =
    restore_all-IsExclusive (load_all_allocations uuid c) (register_all (load_all_workers c) m) f
      (register_all-IsExclusive (load_all_workers c) m v)

pub perform-IsExclusive :
    (e : Event) (m : ResourceManager) → IsFreshEvent e m → IsExclusive m → IsExclusive (perform e m)
unfolding perform IsFreshEvent load_from_storage
perform-IsExclusive (calls c) m f v = step-IsExclusive c m f v
perform-IsExclusive (loads uuid) m f v = loaded-IsExclusive uuid m.storage m f v

-- From any manager in which this holds, such as a new one, it holds after any calls of its methods,
-- load_from_storage included, if the ids drawn for allocations are new and a stored allocation is
-- loaded only while no active allocation holds a device of it: no device is held by two active
-- allocations, and a device that an active allocation holds is not offered for another.
pub perform_all-IsExclusive :
    (es : List Event) (m : ResourceManager)
    → AreFresh es m
    → IsExclusive m
    → IsExclusive (perform_all es m)
unfolding AreFresh perform_all
perform_all-IsExclusive [] m f v = v
perform_all-IsExclusive (e ∷ es) m f v =
    perform_all-IsExclusive es (perform e m) f.1 (perform-IsExclusive e m f.0 v)
