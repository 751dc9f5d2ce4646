-- ===== src/Examples/Managing.antt =====
-- A resource manager on a short history.
use drigs.Prelude.{◌≡◌, true, String, refl, List, [], ◌∷◌, none, some, dec_text}
use drigs.Dict.{lookup, put, remove}
use drigs.Models.{ResourceState-discrete}
use drigs.Resources.{
  key, new_manager, ResourceManager, new_allocation, Request, Call, registers, allocates,
  deallocates, step, load_from_storage, register_all, restore_all, register_worker, add_keys,
  allocate_resources, check_devices, check_device, grant, mark_devices, deallocate_resources,
  set_states, set_memory,
}
use drigs.Resources.Exclusive.{IsExclusive, AllFresh, run, new_manager-IsExclusive}
use drigs.Resources.Loading.{
  Event, calls, loads, perform, perform_all, IsFreshEvent, AreFresh, perform_all-IsExclusive,
}
use drigs.Storage.{Cluster, load_rows_from, save_worker, save_allocation}
use drigs.Resources.Tracked.{new_manager-IsTracked}
use drigs.Resources.Atomic.{Outcome, run-Outcome, run-IsTracked, deallocate-allocate, IsRestored}
use drigs.Result.{ok}
use drigs.Examples.Data.{big}

abbrev request : String → List String → Request
request id devices = record {
  job_id = id;
  worker_id = "w1";
  device_ids = devices;
  cpus = 2;
  memory_bytes = 100;
  gpu_memory_bytes = 10;
}

-- The second request is refused: its device is held by the first.
abbrev history : List Call
history =
    registers big
    ∷ allocates "a1" 5 (request "j1" ("g0" ∷ "g1" ∷ []))
    ∷ allocates "a2" 6 (request "j2" ("g1" ∷ []))
    ∷ deallocates "j1"
    ∷ allocates "a3" 7 (request "j2" ("g1" ∷ []))
    ∷ []

all_new : AllFresh history (new_manager none)
unfolding step key register_worker add_keys allocate_resources check_devices check_device grant
    mark_devices deallocate_resources set_states set_memory lookup put dec_text
    ResourceState-discrete remove
all_new = (tt, (refl, (refl, (tt, (refl, tt)))))

-- A manager whose database has a worker and an allocation of one of its devices.
abbrev pub stored : Cluster
stored = record {
  workers = ("w1", big) ∷ [];
  allocations =
      (
        "j1",
        record {
          allocation_id = "old";
          job_id = "j1";
          worker_id = "w1";
          assigned_device_ids = "g0" ∷ [];
          assigned_cpu_cores = 0 ∷ 1 ∷ [];
          memory_bytes = 100;
          allocated_at = 3;
        },
      )
      ∷ [];
}

-- The second request is refused: its device is held by the allocation that was loaded.
abbrev events : List Event
events =
    loads (λ n. "r")
    ∷ calls (allocates "a1" 5 (request "j2" ("g1" ∷ [])))
    ∷ calls (allocates "a2" 6 (request "j3" ("g0" ∷ [])))
    ∷ []

events_fresh : AreFresh events (new_manager (some stored))
unfolding AreFresh IsFreshEvent perform load_from_storage load_rows_from register_all restore_all
    step key register_worker add_keys allocate_resources check_devices check_device grant
    mark_devices set_states set_memory lookup put dec_text save_worker save_allocation
    ResourceState-discrete
events_fresh = ((refl, (λ j k c e. cc), tt), (refl, (refl, tt)))

perform_all-IsExclusive_example : IsExclusive (perform_all events (new_manager (some stored)))
perform_all-IsExclusive_example =
    perform_all-IsExclusive events (new_manager (some stored)) events_fresh
      (new_manager-IsExclusive (some stored))

run-Outcome_example : Outcome "a9" 9 (request "j9" ("g2" ∷ [])) (run history (new_manager none))
run-Outcome_example =
    run-Outcome none history (tt, (tt, (tt, (tt, (tt, tt))))) "a9" 9 (request "j9" ("g2" ∷ []))

abbrev start : ResourceManager
start = run (registers big ∷ []) (new_manager none)

abbrev wanted : Request
wanted = request "j1" ("g0" ∷ "g1" ∷ [])

abbrev after_grant : ResourceManager
after_grant = (allocate_resources "a1" 5 wanted start).0

start_new : lookup "a1" start.allocations ≡ none
unfolding step key register_worker add_keys lookup put dec_text
start_new = refl

start_grants :
    allocate_resources "a1" 5 wanted start ≡ (after_grant, ok (new_allocation "a1" 5 wanted big))
unfolding step key register_worker add_keys allocate_resources check_devices check_device grant
    mark_devices lookup put dec_text ResourceState-discrete
start_grants = refl

deallocate-allocate_example :
    ((deallocate_resources "j1" after_grant).1 ≡ true)
    × IsRestored start (deallocate_resources "j1" after_grant).0
deallocate-allocate_example =
    deallocate-allocate "a1" 5 wanted start after_grant (new_allocation "a1" 5 wanted big)
      (run-IsTracked (registers big ∷ []) (new_manager none) (tt, tt) (new_manager-IsTracked none))
      start_new start_grants
