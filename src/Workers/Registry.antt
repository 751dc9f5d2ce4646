-- ===== src/Workers/Registry.antt =====
-- drigs/workers/registry.py: the workers, their heartbeats and the timeouts. Each method is one
-- step under the registry's lock; `now` is the time that it reads.
pub mod Timeouts
use drigs.Prelude.{
  ℕ, suc, String, ◌≡◌, ◌≢◌, refl, sym, ap, ◌∙◌, Bool, true, false, not, ◌&&◌, ◌||◌, Option, none,
  some, List, [], ◌∷◌, map, length, arith, ite, dec_text, contains, Distinct, All, if◌then◌else◌,
  Bool-cases, Option-cases, inl, inr, ◌⊎◌,
}
use drigs.Dict.{Dict, lookup, put, remove, has, keys, values, lookup-put}
use drigs.Models.{DeviceState, WorkerInfo}
use drigs.Float.{Float}
use drigs.Storage.{Cluster, save_worker, delete_worker, load_all_workers}

pub record WorkerRegistry (F : Type 0) : Type 0 where
  pub timeout_seconds : F
  pub storage : Option Cluster
  pub workers : Dict WorkerInfo

abbrev pub persisted : (Cluster → Cluster) → Option Cluster → Option Cluster
persisted f none = none
persisted f (some c) = some (f c)

load_workers : List WorkerInfo → Dict WorkerInfo → Dict WorkerInfo
load_workers [] found = found
load_workers (w ∷ ws) found = load_workers ws (put w.worker_id w found)

abbrev pub is_offline : DeviceState → Bool
is_offline DeviceState.offline = true
is_offline _ = false

-- worker.status in (HEALTHY, DEGRADED)
abbrev pub is_active : DeviceState → Bool
is_active DeviceState.healthy = true
is_active DeviceState.degraded = true
is_active _ = false

module _ (f : Float) where
  open f use {F, lt, elapsed}

  unfoldable pub load_from_storage : WorkerRegistry F → WorkerRegistry F × ℕ
  unfolding load_workers
  load_from_storage r = elim r.storage [
    | none ↦ (r, 0)
    | some c ↦ (
      record r { workers = load_workers (load_all_workers c) r.workers },
      length (load_all_workers c),
    )
  ]

  -- A time is true, so `worker.last_heartbeat or _now_utc()` is the worker's own.
  unfoldable pub register : WorkerInfo → WorkerRegistry F → WorkerRegistry F
  register w r = record r {
    workers = put w.worker_id w r.workers;
    storage = persisted (save_worker w) r.storage;
  }

  unfoldable pub heartbeat : ℕ → String → DeviceState → WorkerRegistry F → WorkerRegistry F × Bool
  heartbeat now id status r = elim (lookup id r.workers) [
    | none ↦ (r, false)
    | some w ↦ (
      record r {
        workers = put id (record w { status = status; last_heartbeat = now }) r.workers;
        storage =
            persisted (save_worker (record w { status = status; last_heartbeat = now })) r.storage;
      },
      true,
    )
  ]

  unfoldable pub deregister : String → WorkerRegistry F → WorkerRegistry F × Bool
  deregister id r =
      if has id r.workers
      then (
        record r {
          workers = remove id r.workers;
          storage = persisted (delete_worker id) r.storage;
        },
        true,
      )
      else (r, false)

  -- elapsed > self.timeout_seconds
  abbrev pub is_late : F → ℕ → WorkerInfo → Bool
  is_late timeout now w = lt timeout (elapsed now w.last_heartbeat)

  -- What `check_timeouts` makes of one worker.
  abbrev pub timed_out : F → ℕ → WorkerInfo → Bool
  timed_out timeout now w = is_late timeout now w && not (is_offline w.status)

  -- The loop over a copy of the items.
  unfoldable pub scan :
      F → ℕ → List (String × WorkerInfo) → Dict WorkerInfo → Dict WorkerInfo × List String
  scan timeout now [] workers = (workers, [])
  scan timeout now ((id, w) ∷ items) workers =
      let late = timed_out timeout now w in
      let workers' =
        if late then put id (record w { status = DeviceState.offline }) workers else workers in
      let (done, ids) = scan timeout now items workers' in (done, if late then id ∷ ids else ids)

  unfoldable pub check_timeouts : ℕ → WorkerRegistry F → WorkerRegistry F × List String
  unfolding scan
  check_timeouts now r =
      let (workers, ids) = scan r.timeout_seconds now r.workers r.workers in
      (record r { workers = workers }, ids)

  unfoldable pub get_worker : ℕ → String → WorkerRegistry F → WorkerRegistry F × Option WorkerInfo
  get_worker now id r = let r' = (check_timeouts now r).0 in (r', lookup id r'.workers)

  unfoldable pub active_of : List WorkerInfo → List WorkerInfo
  active_of [] = []
  active_of (w ∷ ws) = let rest = active_of ws in if is_active w.status then w ∷ rest else rest

  unfoldable pub get_active_workers : ℕ → WorkerRegistry F → WorkerRegistry F × List WorkerInfo
  get_active_workers now r =
      let r' = (check_timeouts now r).0 in (r', active_of (values r'.workers))

  unfoldable pub get_all_workers : ℕ → WorkerRegistry F → WorkerRegistry F × List WorkerInfo
  get_all_workers now r = let r' = (check_timeouts now r).0 in (r', values r'.workers)
