-- ===== src/Scheduler/Gang/Atomic.antt =====
-- drigs/scheduler/gang.py: a gang gets all of its GPUs or none.
use drigs.Prelude.{
  ℕ, zero, suc, ◌-◌, ◌≤◌, min, String, ◌≡◌, refl, not, ◌&&◌, List, [], ◌∷◌, map, arith, length,
  take, sum, ltb, inl, inr, ◌⊎◌, Bool-cases, length-take,
}
use drigs.Models.{ResourceAllocation, ResourceRequirements, WorkerInfo}
use drigs.Dict.{Dict}
use drigs.Scheduler.Placement.{Usage, Draws, next_draws, Placement, reserve}
use drigs.Scheduler.Gang.{
  take_gang, total_gpus, try_multi_node_gang, worker_gpu_map, share_cpus, share_ram,
}

-- How many devices the allocations hand out.
abbrev pub devices_given : List ResourceAllocation → ℕ
devices_given allocs = sum (map (λ a. length a.assigned_device_ids) allocs)

module _ (workers : Dict WorkerInfo) (req : ResourceRequirements) where
  take_gang-exact :
      (job_id : String) (n : ℕ) (draws : Draws) (needed : ℕ) (u : Usage)
      (found : List (String × List String))
      → needed ≤ total_gpus workers req found
      → devices_given (take_gang workers req job_id n draws needed u found).0 ≡ needed
  unfolding take_gang
  take_gang-exact job_id n draws needed u [] h = omega arith
  take_gang-exact job_id n draws zero u ((id, gpus) ∷ rest) h = refl
  take_gang-exact job_id n draws (suc k) u ((id, gpus) ∷ rest) h =
      let count = min (length gpus) (suc k) in
      let taken : length (take count gpus) ≡ count = length-take count gpus (omega arith) in
      let p : Placement = record { worker = id; gpus = take count gpus } in
      let booked = reserve p (share_cpus workers req n) (share_ram workers req n) u in
      ground (
        arith,
        taken,
        take_gang-exact job_id n (next_draws draws) (suc k - count) booked rest (omega (arith, h)),
      )

  -- A gang is all or nothing: either no allocation is made and nothing is booked, or the
  -- allocations hand out exactly as many GPUs as the job asks for.
  pub gang-exact :
      (job_id : String) (draws : Draws) (u : Usage) (ids : List String)
      → (try_multi_node_gang workers req job_id draws u ids ≡ ([], u))
        ⊎ (devices_given (try_multi_node_gang workers req job_id draws u ids).0 ≡ req.gpus)
  unfolding try_multi_node_gang
  gang-exact job_id draws u ids =
      let found = worker_gpu_map workers req u ids in
      elim (Bool-cases (ltb 0 req.gpus && not (ltb (total_gpus workers req found) req.gpus))) [
        | inl b ↦ inr (
            rw (b, try_multi_node_gang)
              (take_gang-exact job_id (length found) draws req.gpus u found (ground arith)))
        | inr b ↦ inl (rw (b, try_multi_node_gang))
      ]
