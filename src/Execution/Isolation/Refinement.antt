-- ===== src/Execution/Isolation/Refinement.antt =====
-- GPUIsolationManager in drigs/execution/isolation.py against what it promises: a set of active
-- jobs and a partial map from devices to jobs.
use drigs.Prelude.{
  String, ◌≡◌, refl, sym, ◌∙◌, ap, Bool, true, false, not, ◌&&◌, Option, none, some, List, [], ◌∷◌,
  arith, ite, subst, dec_text, contains, if◌then◌else◌, Bool-cases, Option-cases, inl, inr,
}
use drigs.Dict.{lookup, put, has, lookup-put, lookup-remove}
use drigs.Result.{ok, raise, isolation_error, already_reserved, gpu_taken}
use drigs.Execution.Text.{Text}
use drigs.Execution.Isolation.{
  GpuIsolationManager, new_isolation, first_reserved, reserve_gpus, released_by, release_gpus,
  register_devices, Call, registers, reserves, releases, step, run, format_cuda_visible_devices,
}
use drigs.Execution.Isolation.Reservations.{
  lookup-set_owners, lookup-drop_owners, IsExact, reserved, step-IsExact, run-IsExact,
  unowned_of_none,
}

-- The jobs with a reservation, and the job that has a device.
pub record Reservations : Type 0 where
  pub active : String → Bool
  pub owner : String → Option String

abbrev pub view : GpuIsolationManager → Reservations
view m = record { active = λ job. has job m.reserved_gpus; owner = λ d. lookup d m.gpu_owners }

is_owned : Option String → Bool
is_owned none = false
is_owned (some job) = true

unfoldable pub any_owned : List String → (String → Option String) → Bool
unfolding is_owned
any_owned [] owner = false
any_owned (d ∷ ds) owner =
    let rest = any_owned ds owner in if is_owned (owner d) then true else rest

-- A reservation is granted if the job has none and no device is owned.
unfoldable pub grants : String → List String → Reservations → Bool
unfolding any_owned
grants job ids r = not (r.active job) && not (any_owned ids r.owner)

-- A granted reservation gives the devices to the job and changes nothing else; a release takes
-- every device that the job owns.
unfoldable pub promised : Call → Reservations → Reservations
unfolding grants
promised (registers ds) r = r
promised (reserves job ids) r =
    if grants job ids r
    then record {
      active = λ j. ite (dec_text job j) true (r.active j);
      owner = λ d. if contains ids d then some job else r.owner d;
    }
    else r
promised (releases job) r = record {
  active = λ j. ite (dec_text job j) false (r.active j);
  owner = λ d. elim (r.owner d) [ none ↦ none | some j ↦ ite (dec_text job j) none (some j) ];
}

unfoldable pub promised_all : List Call → Reservations → Reservations
unfolding promised
promised_all [] r = r
promised_all (c ∷ cs) r = promised_all cs (promised c r)

same_reservations :
    (r s : Reservations)
    → ((job : String) → r.active job ≡ s.active job)
    → ((d : String) → r.owner d ≡ s.owner d)
    → r ≡ s
same_reservations r s a o = λ i. record { active = λ job. a job i; owner = λ d. o d i }

any_owned-first_reserved :
    (ids : List String) (m : GpuIsolationManager)
    → any_owned ids (λ d. lookup d m.gpu_owners)
      ≡ elim (first_reserved ids m.gpu_owners) [ none ↦ false | some d ↦ true ]
unfolding any_owned is_owned first_reserved
any_owned-first_reserved [] m = refl
any_owned-first_reserved (d ∷ ids) m = ground (arith, any_owned-first_reserved ids m)

view-reserved :
    (job : String) (ids : List String) (m : GpuIsolationManager)
    → view (reserved job ids m) ≡ record {
      active = λ j. ite (dec_text job j) true (has j m.reserved_gpus);
      owner = λ d. if contains ids d then some job else lookup d m.gpu_owners;
    }
view-reserved job ids m =
    same_reservations _ _ (λ j. ground (arith, lookup-put job j ids m.reserved_gpus))
      (λ d. lookup-set_owners ids job m.gpu_owners d)

-- A reservation is granted just if the manager's tests pass.
pub reserve_gpus-grants :
    (t : Text) (job : String) (ids : List String) (m : GpuIsolationManager)
    → view (reserve_gpus t job ids m).0
      ≡ (if grants job ids (view m) then view (reserved job ids m) else view m)
unfolding reserve_gpus grants
reserve_gpus-grants t job ids m =
    let tested = any_owned-first_reserved ids m in
    elim (Bool-cases (has job m.reserved_gpus)) [
      | inl e ↦ rw e refl
      | inr e ↦ elim (Option-cases (first_reserved ids m.gpu_owners)) [
        | inl f ↦ rw (e, tested, f) refl
        | inr (x, f) ↦ rw (e, tested, f) refl
      ]
    ]

step-promised :
    (t : Text) (c : Call) (m : GpuIsolationManager)
    → IsExact m
    → view (step t c m) ≡ promised c (view m)
unfolding step promised register_devices release_gpus
step-promised t (registers ds) m v = refl
step-promised t (reserves job ids) m v =
    reserve_gpus-grants t job ids m
    ∙ ap (λ r. if grants job ids (view m) then r else view m) (view-reserved job ids m)
step-promised t (releases job) m v =
    same_reservations _ _ (λ j. ground (arith, lookup-remove job j m.reserved_gpus))
      (λ d.
        ground
          (arith, lookup-drop_owners (released_by job m) m.gpu_owners d, (v d job).0, (v d job).1))

run_promised :
    (t : Text) (cs : List Call) (m : GpuIsolationManager)
    → IsExact m
    → view (run t cs m) ≡ promised_all cs (view m)
unfolding run promised_all
run_promised t [] m v = refl
run_promised t (c ∷ cs) m v =
    run_promised t cs (step t c m) (step-IsExact t c m v)
    ∙ ap (promised_all cs) (step-promised t c m v)

-- After any calls on a new manager, its two tables are a set of active jobs and a map from devices
-- to jobs on which each call does what it promises: a reservation is granted just if the job has
-- none and no device asked for has an owner, and then changes the owner of those devices and of no
-- other; a release takes every device that the job owns, and only those.
pub run-promised_all :
    (t : Text) (b : Bool) (cs : List Call)
    → view (run t cs (new_isolation b)) ≡ promised_all cs (view (new_isolation b))
unfolding run
run-promised_all t b cs = run_promised t cs (new_isolation b) (run-IsExact t b [])

released_view :
    (job : String) (ids : List String) (m : GpuIsolationManager)
    → has job m.reserved_gpus ≡ false
    → first_reserved ids m.gpu_owners ≡ none
    → view (release_gpus job (reserved job ids m)).0 ≡ view m
unfolding release_gpus contains
released_view job ids m fresh free =
    let given = lookup-put job job ids m.reserved_gpus in
    same_reservations _ _
      (λ j. ground (
        arith,
        fresh,
        lookup-remove job j (put job ids m.reserved_gpus),
        lookup-put job j ids m.reserved_gpus,
      ))
      (λ d. ground (
        arith,
        given,
        lookup-drop_owners (released_by job (reserved job ids m)) (reserved job ids m).gpu_owners d,
        lookup-set_owners ids job m.gpu_owners d,
        unowned_of_none ids m.gpu_owners d free,
      ))

-- Releasing a job right after its reservation was granted answers the devices asked for, and the
-- active jobs and the owner of every device are as before the reservation.
pub release-reserve :
    (t : Text) (job : String) (ids : List String) (m m' : GpuIsolationManager) (s : String)
    → reserve_gpus t job ids m ≡ (m', ok s)
    → ((release_gpus job m').1 ≡ ids) × (view (release_gpus job m').0 ≡ view m)
unfolding reserve_gpus release_gpus
release-reserve t job ids m m' s h = elim (Bool-cases (has job m.reserved_gpus)) [
  | inl e ↦
      let refused : reserve_gpus t job ids m ≡ (m, raise (isolation_error (already_reserved job))) =
        rw e refl in
      cc (sym refused ∙ h)
  | inr e ↦ elim (Option-cases (first_reserved ids m.gpu_owners)) [
    | inl f ↦
        let answer = format_cuda_visible_devices t ids m.use_pcie_bus_id m.devices_map in
        let granted : reserve_gpus t job ids m ≡ (reserved job ids m, ok answer) = rw (e, f) refl in
        subst (λ n. ((release_gpus job n).1 ≡ ids) × (view (release_gpus job n).0 ≡ view m))
          (ap (λ p. p.0) (sym granted ∙ h))
          (ground (arith, lookup-put job job ids m.reserved_gpus), released_view job ids m e f)
    | inr (x, f) ↦
        let refused : reserve_gpus t job ids m ≡ (m, raise (isolation_error (gpu_taken x))) =
          rw (e, f) refl in
        cc (sym refused ∙ h)
  ]
]
