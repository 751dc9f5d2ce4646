-- ===== src/Scheduler/Policies.antt =====
-- The single-node policies of drigs/scheduler: fifo.py, fit.py, priority.py, binpack.py,
-- memory_aware.py and topology_aware.py. Scores are floats, whose arithmetic is a parameter.
use drigs.Prelude.{
  ℕ, ◌-◌, ◌*◌, String, Bool, true, false, ◌||◌, Option, none, some, List, [], ◌∷◌, map, ltb, leb,
  take, is_empty, sum, if◌then◌else◌,
}
use drigs.Prelude.Sort.{sort}
use drigs.Dict.{Dict, keys}
use drigs.Models.{
  ComputeDevice, Job, ResourceAllocation, ResourceRequirements, WorkerInfo, ClusterState,
}
use drigs.Storage.{le_job}
use drigs.Float.{Float}
use drigs.Hardware.Topology.{graph_of, find_best_clique, get_group_topology_score}
use drigs.Scheduler.Placement.{
  Usage, no_usage, avail_cpus, avail_ram, eligible, Placement, first_gpus, ids, Draws, place_jobs,
}
use Prim.Native.String.{compare as compare_text}
use text.Mathlib.Text.{is_le}

-- `a <= b` on texts, by code points
abbrev pub le_text : String → String → Bool
le_text a b = is_le (compare_text a b)

-- sorted(cluster_state.workers.keys())
unfoldable pub sorted_worker_ids : Dict WorkerInfo → List String
sorted_worker_ids workers = sort le_text (keys workers)

-- FIFOScheduler, FirstFitScheduler and PriorityScheduler: the first worker that passes the tests.
module _ (workers : Dict WorkerInfo) where
  unfoldable pub first_fit : List String → ResourceRequirements → Usage → Option Placement
  first_fit [] req u = none
  first_fit (id ∷ more) req u = elim (eligible workers req u id) [
    | none ↦ first_fit more req u
    | some (w, found) ↦ some (record { worker = id; gpus = first_gpus req found })
  ]

-- The other policies: the worker with the best score, the first of equals.
module _ {ℓ} {F : Type ℓ} (better : F → F → Bool) (score : String → Option (F × List String)) where
  abbrev pub improve : Option (F × Placement) → String → Option (F × Placement)
  improve best id = elim (score id) [
    | none ↦ best
    | some (s, gpus) ↦ elim best [
      | none ↦ some (s, record { worker = id; gpus = gpus })
      | some (s', p) ↦
          if better s s' then some (s, record { worker = id; gpus = gpus }) else some (s', p)
    ]
  ]

  unfoldable pub best_worker : Option (F × Placement) → List String → Option (F × Placement)
  best_worker best [] = best
  best_worker best (id ∷ more) = best_worker (improve best id) more

  unfoldable pub best_placement : List String → Option Placement
  unfolding best_worker
  best_placement worker_ids = elim (best_worker none worker_ids) [
    | none ↦ none
    | some (s, p) ↦ some p
  ]

abbrev pub total_vram : List ComputeDevice → ℕ
total_vram found = sum (map (λ d. d.available_memory_bytes) found)

-- d.available_memory_bytes, descending
abbrev pub more_vram : ComputeDevice → ComputeDevice → Bool
more_vram a b = leb b.available_memory_bytes a.available_memory_bytes

module _ (f : Float) (workers : Dict WorkerInfo) (req : ResourceRequirements) (u : Usage) where
  open f use {F, of_nat, add, over, quotient, giga, minus_one, lt}

  -- rem_cpus + (rem_ram / 1e9) + (vram / 1e9)
  abbrev surplus : String → WorkerInfo → ℕ → F
  surplus id w vram =
      add
        (add (of_nat (avail_cpus u id w - req.cpus))
          (over (of_nat (avail_ram u id w - req.memory_bytes)) giga))
        (over (of_nat vram) giga)

  unfoldable pub best_fit_score : String → Option (F × List String)
  best_fit_score id = elim (eligible workers req u id) [
    | none ↦ none
    | some (w, found) ↦ some (surplus id w (total_vram found), first_gpus req found)
  ]

  -- max(0, total - needed) is the truncated difference.
  unfoldable pub bin_pack_score : String → Option (F × List String)
  bin_pack_score id = elim (eligible workers req u id) [
    | none ↦ none
    | some (w, found) ↦
        some
          (surplus id w (total_vram found - req.gpu_memory_bytes * req.gpus), first_gpus req found)
  ]

  unfoldable pub memory_aware_score : String → Option (F × List String)
  memory_aware_score id = elim (eligible workers req u id) [
    | none ↦ none
    | some (w, found) ↦
        if ltb 0 req.gpus
        then (let selected = take req.gpus (sort more_vram found) in
            some (quotient (total_vram selected) req.gpus, ids selected))
        else some (of_nat (avail_ram u id w), [])
  ]

  unfoldable pub topology_score : String → Option (F × List String)
  topology_score id = elim (eligible workers req u id) [
    | none ↦ none
    | some (w, found) ↦
        let matrix = (graph_of w.devices).matrix in
        let assigned =
          if ltb 0 req.gpus then find_best_clique f req.gpus (ids found) matrix else [] in
        let score =
          if ltb 0 req.gpus then get_group_topology_score f assigned matrix else of_nat 100 in
        some (score, assigned)
  ]

  -- The best score starts at -1.0 with no worker.
  unfoldable pub best_topology : F → Option Placement → List String → Option Placement
  unfolding topology_score
  best_topology best_score best [] = best
  best_topology best_score best (id ∷ more) = elim (topology_score id) [
    | none ↦ best_topology best_score best more
    | some (s, gpus) ↦
        best_topology (if lt best_score s then s else best_score)
          (if lt best_score s then some (record { worker = id; gpus = gpus }) else best) more
  ]

-- The scheduler classes, with the aging factor of PriorityScheduler.
pub data Policy (F : Type 0) : Type 0 where
  fifo first_fit_policy best_fit bin_pack memory_aware topology_aware : Policy F
  priority : (aging_factor : F) → Policy F

module _ (f : Float) where
  open f use {F, of_nat, add, mul, seconds, minus_one, lt}

  unfoldable pub choose :
      Policy F → Dict WorkerInfo → ResourceRequirements → Usage → Option Placement
  choose fifo ws req u = first_fit ws (sorted_worker_ids ws) req u
  choose first_fit_policy ws req u = first_fit ws (sorted_worker_ids ws) req u
  choose (priority aging) ws req u = first_fit ws (sorted_worker_ids ws) req u
  choose best_fit ws req u = best_placement lt (best_fit_score f ws req u) (sorted_worker_ids ws)
  choose bin_pack ws req u = best_placement lt (bin_pack_score f ws req u) (sorted_worker_ids ws)
  choose memory_aware ws req u =
      best_placement (λ s s'. lt s' s) (memory_aware_score f ws req u) (keys ws)
  choose topology_aware ws req u = best_topology f ws req u minus_one none (sorted_worker_ids ws)

  -- max(0.0, …) of the waiting time is the truncated difference.
  abbrev pub effective_priority : F → ℕ → Job → F
  effective_priority aging now job =
      add (of_nat job.priority) (mul aging (seconds (now - job.submitted_at)))

  -- The sort keys: which of two jobs may go first.
  unfoldable pub le_for : Policy F → ℕ → Job → Job → Bool
  le_for fifo now j k = leb j.submitted_at k.submitted_at
  le_for (priority aging) now j k =
      if lt (effective_priority aging now k) (effective_priority aging now j)
      then true
      else if lt (effective_priority aging now j) (effective_priority aging now k)
      then false
      else leb j.submitted_at k.submitted_at
  le_for memory_aware now j k =
      if ltb k.spec.resources.gpu_memory_bytes j.spec.resources.gpu_memory_bytes
      then true
      else if ltb j.spec.resources.gpu_memory_bytes k.spec.resources.gpu_memory_bytes
      then false
      else le_job j k
  le_for _ now j k = le_job j k

  unfoldable pub schedule : Policy F → Draws → ℕ → List Job → ClusterState → List ResourceAllocation
  schedule policy draws now pending state =
      if is_empty pending || is_empty state.workers
      then []
      else place_jobs (choose policy state.workers) draws no_usage
          (sort (le_for policy now) pending)
