-- ===== src/Scheduler/Gang.antt =====
-- drigs/scheduler/gang.py: one worker if one has room, and otherwise the GPUs of several workers.
pub mod Atomic
use drigs.Prelude.{
  ℕ, zero, suc, ◌+◌, ◌-◌, ◌*◌, ◌/◌, min, max, String, not, ◌&&◌, ◌||◌, Option, none, some, List, [],
  ◌∷◌, ◌++◌, ltb, length, take, is_empty, if◌then◌else◌,
}
use drigs.Prelude.Sort.{sort}
use drigs.Dict.{Dict, lookup}
use drigs.Models.{Job, ResourceAllocation, ResourceRequirements, WorkerInfo, ClusterState}
use drigs.Storage.{le_job}
use drigs.Scheduler.Placement.{
  Usage, no_usage, is_healthy, avail_cpus, avail_ram, candidate_gpus, ids, Placement, reserve,
  Draws, next_draws, allocation,
}
use drigs.Scheduler.Policies.{first_fit, sorted_worker_ids}

-- 1024**2
abbrev pub mebibyte : ℕ
mebibyte = 1024 * 1024

module _ (workers : Dict WorkerInfo) (req : ResourceRequirements) where
  -- worker_gpu_map: the free GPUs of every worker with a core and a mebibyte left.
  unfoldable pub worker_gpu_map : Usage → List String → List (String × List String)
  unfolding candidate_gpus
  worker_gpu_map u [] = []
  worker_gpu_map u (id ∷ more) =
      let rest = worker_gpu_map u more in
      elim (lookup id workers) [
        | none ↦ rest
        | some w ↦
            if not (is_healthy w.status)
            then rest
            else if ltb (avail_cpus u id w) 1 || ltb (avail_ram u id w) mebibyte
            then rest
            else (let found = ids (candidate_gpus req.gpu_memory_bytes (u.busy id) w.devices) in
                if is_empty found then rest else (id, found) ∷ rest)
      ]

  abbrev pub total_gpus : List (String × List String) → ℕ
  total_gpus [] = 0
  total_gpus ((id, found) ∷ rest) = length found + total_gpus rest

  -- The share of a worker among `n` workers of the map.
  abbrev pub share_cpus : ℕ → ℕ
  share_cpus n = max 1 (req.cpus / n)

  abbrev pub share_ram : ℕ → ℕ
  share_ram n = max mebibyte (req.memory_bytes / n)

  -- The loop that takes GPUs until enough are found; `n` is len(worker_gpu_map).
  unfoldable pub take_gang :
      String → ℕ → Draws → ℕ → Usage → List (String × List String) → List ResourceAllocation × Usage
  unfolding reserve
  take_gang job_id n draws needed u [] = ([], u)
  take_gang job_id n draws zero u ((id, found) ∷ rest) = ([], u)
  take_gang job_id n draws (suc k) u ((id, found) ∷ rest) =
      let p : Placement = record { worker = id; gpus = take (min (length found) (suc k)) found } in
      let (allocs, u') =
        take_gang job_id n (next_draws draws) (suc k - min (length found) (suc k))
          (reserve p (share_cpus n) (share_ram n) u) rest in
      (allocation draws job_id p (share_cpus n) (share_ram n) u ∷ allocs, u')

  unfoldable pub try_multi_node_gang :
      String → Draws → Usage → List String → List ResourceAllocation × Usage
  unfolding worker_gpu_map take_gang
  try_multi_node_gang job_id draws u worker_ids =
      let found = worker_gpu_map u worker_ids in
      if ltb 0 req.gpus && not (ltb (total_gpus found) req.gpus)
      then take_gang job_id (length found) draws req.gpus u found
      else ([], u)

  -- The same loop as first-fit, which also books the placement.
  unfoldable pub try_single_node :
      String → Draws → Usage → List String → Option (ResourceAllocation × Usage)
  unfolding reserve
  try_single_node job_id draws u worker_ids = elim (first_fit workers worker_ids req u) [
    | none ↦ none
    | some p ↦ some (
      allocation draws job_id p req.cpus req.memory_bytes u,
      reserve p req.cpus req.memory_bytes u,
    )
  ]

abbrev skip_draws : ℕ → Draws → Draws
skip_draws zero d = d
skip_draws (suc n) d = skip_draws n (next_draws d)

unfoldable pub place_gangs :
    Dict WorkerInfo → List String → Draws → Usage → List Job → List ResourceAllocation
unfolding try_single_node try_multi_node_gang
place_gangs workers worker_ids draws u [] = []
place_gangs workers worker_ids draws u (job ∷ jobs) =
    elim (try_single_node workers job.spec.resources job.job_id draws u worker_ids) [
      | some (alloc, u') ↦ alloc ∷ place_gangs workers worker_ids (next_draws draws) u' jobs
      | none ↦
          let (allocs, u') =
            try_multi_node_gang workers job.spec.resources job.job_id draws u worker_ids in
          allocs ++ place_gangs workers worker_ids (skip_draws (length allocs) draws) u' jobs
    ]

unfoldable pub schedule_gangs : Draws → List Job → ClusterState → List ResourceAllocation
unfolding place_gangs
schedule_gangs draws pending state =
    if is_empty pending || is_empty state.workers
    then []
    else place_gangs state.workers (sorted_worker_ids state.workers) draws no_usage
        (sort le_job pending)
