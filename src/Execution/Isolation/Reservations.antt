-- ===== src/Execution/Isolation/Reservations.antt =====
-- GPUIsolationManager in drigs/execution/isolation.py: the two tables agree on which job has which
-- device.
use drigs.Prelude.{
  String, ◌≡◌, refl, Bool, true, false, none, some, List, [], ◌∷◌, arith, ◌↔◌, contains,
  if◌then◌else◌, Bool-cases, Option-cases, inl, inr,
}
use drigs.Dict.{Dict, lookup, put, remove, has, lookup-put, lookup-remove}
use drigs.Execution.Text.{Text}
use drigs.Execution.Isolation.{
  GpuIsolationManager, new_isolation, first_reserved, set_owners, drop_owners, reserve_gpus,
  released_by, release_gpus, register_devices, Call, registers, reserves, releases, step, run,
}

pub lookup-set_owners :
    (ds : List String) (job : String) (owners : Dict String) (d : String)
    → lookup d (set_owners ds job owners) ≡ (if contains ds d then some job else lookup d owners)
unfolding set_owners contains
lookup-set_owners [] job owners d = refl
lookup-set_owners (x ∷ ds) job owners d =
    ground (arith, lookup-set_owners ds job (put x job owners) d, lookup-put x d job owners)

pub lookup-drop_owners :
    (ds : List String) (owners : Dict String) (d : String)
    → lookup d (drop_owners ds owners) ≡ (if contains ds d then none else lookup d owners)
unfolding drop_owners contains
lookup-drop_owners [] owners d = refl
lookup-drop_owners (x ∷ ds) owners d =
    ground (arith, lookup-drop_owners ds (remove x owners) d, lookup-remove x d owners)

-- If none of the devices is reserved, none of them has an owner.
pub unowned_of_none :
    (ds : List String) (owners : Dict String) (d : String)
    → first_reserved ds owners ≡ none
    → contains ds d ≡ true
    → lookup d owners ≡ none
unfolding first_reserved contains
unowned_of_none [] owners d h c = cc
unowned_of_none (x ∷ ds) owners d h c = ground (arith, unowned_of_none ds owners d)

-- A device has a job as its owner just if it stands in that job's reservation.
abbrev pub IsExact : GpuIsolationManager → Type 0
IsExact m =
    (d job : String) → (lookup d m.gpu_owners ≡ some job) ↔ (contains (released_by job m) d ≡ true)

new_isolation-IsExact : (b : Bool) → IsExact (new_isolation b)
unfolding lookup contains
new_isolation-IsExact b d job = (λ e. cc, λ e. cc)

-- The manager after a reservation that is granted.
abbrev pub reserved : String → List String → GpuIsolationManager → GpuIsolationManager
reserved job ids m = record m {
  reserved_gpus = put job ids m.reserved_gpus;
  gpu_owners = set_owners ids job m.gpu_owners;
}

module _ (job : String) (m : GpuIsolationManager) (v : IsExact m) where
  reserved-IsExact :
      (ids : List String)
      → has job m.reserved_gpus ≡ false
      → first_reserved ids m.gpu_owners ≡ none
      → IsExact (reserved job ids m)
  unfolding contains
  reserved-IsExact ids fresh free d j =
      let owner = lookup-set_owners ids job m.gpu_owners d in
      let devices = lookup-put job j ids m.reserved_gpus in
      let unowned = unowned_of_none ids m.gpu_owners d free in
      (
        λ e. ground (arith, e, fresh, owner, devices, (v d j).0),
        λ e. ground (arith, e, fresh, owner, devices, unowned, (v d j).1),
      )

  pub release_gpus-IsExact : IsExact (release_gpus job m).0
  unfolding release_gpus contains
  release_gpus-IsExact d j =
      let owner = lookup-drop_owners (released_by job m) m.gpu_owners d in
      let devices = lookup-remove job j m.reserved_gpus in
      (
        λ e. ground (arith, e, owner, devices, (v d j).0, (v d job).1),
        λ e. ground (arith, e, owner, devices, (v d j).1, (v d job).1),
      )

  pub reserve_gpus-IsExact : (t : Text) (ids : List String) → IsExact (reserve_gpus t job ids m).0
  unfolding reserve_gpus
  reserve_gpus-IsExact t ids = elim (Bool-cases (has job m.reserved_gpus)) [
    | inl e ↦ rw e v
    | inr e ↦ elim (Option-cases (first_reserved ids m.gpu_owners)) [
      | inl f ↦ rw (e, f) (reserved-IsExact ids e f)
      | inr (x, f) ↦ rw (e, f) v
    ]
  ]

pub step-IsExact :
    (t : Text) (c : Call) (m : GpuIsolationManager) → IsExact m → IsExact (step t c m)
unfolding step register_devices
step-IsExact t (registers ds) m v = v
step-IsExact t (reserves job ids) m v = reserve_gpus-IsExact job m v t ids
step-IsExact t (releases job) m v = release_gpus-IsExact job m v

run_kept : (t : Text) (cs : List Call) (m : GpuIsolationManager) → IsExact m → IsExact (run t cs m)
unfolding run
run_kept t [] m v = v
run_kept t (c ∷ cs) m v = run_kept t cs (step t c m) (step-IsExact t c m v)

-- After any calls on a new manager, refused ones included, a device has a job as its owner just if
-- it stands in that job's reservation; so no device stands in the reservations of two jobs.
pub run-IsExact : (t : Text) (b : Bool) (cs : List Call) → IsExact (run t cs (new_isolation b))
run-IsExact t b cs = run_kept t cs (new_isolation b) (new_isolation-IsExact b)
