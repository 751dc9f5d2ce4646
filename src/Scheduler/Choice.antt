-- ===== src/Scheduler/Choice.antt =====
-- Every policy chooses a placement that the worker can hold.
use drigs.Prelude.{
  String, ◌≡◌, Bool, false, Option, none, some, List, [], ◌∷◌, arith, ltb, take, All-take,
  All-of_map, All-to_map, Distinct-take, length-take, length-map, map-take, inl, inr, Bool-cases,
  Option-cases, Ensures, Ensures-some,
}
use drigs.Prelude.Sort.{sort, All-sort, length-sort, Distinct-sort}
use drigs.Dict.{Dict, keys}
use drigs.Models.{ComputeDevice, ResourceRequirements, WorkerInfo}
use drigs.Float.{Float, HasNonneg}
use drigs.Hardware.Topology.{TopologyMatrix, graph_of, find_best_clique}
use drigs.Hardware.Topology.Clique.{find_best_clique-IsChoice}
use drigs.Scheduler.Placement.{Usage, Placement, eligible, ids, first_gpus}
use drigs.Scheduler.Sound.{IsUsable, Fits, eligible-IsEligible, eligible-Fits}
use drigs.Scheduler.Policies.{
  first_fit, improve, best_worker, best_placement, best_fit_score, bin_pack_score,
  memory_aware_score, topology_score, best_topology, more_vram, Policy, fifo, first_fit_policy,
  priority, best_fit, bin_pack, memory_aware, topology_aware, choose, sorted_worker_ids,
}

module _ (workers : Dict WorkerInfo) (req : ResourceRequirements) (u : Usage) where
  abbrev FitsOn : String → List String → Type 0
  FitsOn id gpus = Fits workers req u (record { worker = id; gpus = gpus })

  first_gpus-Fits :
      (id : String) (w : WorkerInfo) (found : List ComputeDevice)
      → eligible workers req u id ≡ some (w, found)
      → FitsOn id (first_gpus req found)
  first_gpus-Fits id w found h =
      let e = eligible-IsEligible workers req u id w found h in
      eligible-Fits workers req u id (first_gpus req found) e
        (length-take req.gpus (ids found)
          (omega (arith, e.enough, length-map {0, 0} (λ (d : ComputeDevice). d.device_id) found)))
        (All-take _ req.gpus (ids found) e.usable)
        (λ d. Distinct-take req.gpus (ids found) (e.distinct d))

  first_fit-Fits :
      (worker_ids : List String) → Ensures (Fits workers req u) (first_fit workers worker_ids req u)
  unfolding first_fit
  first_fit-Fits [] = tt
  first_fit-Fits (id ∷ more) = elim (Option-cases (eligible workers req u id)) [
    | inl e ↦ rw (e, first_fit) (first_fit-Fits more)
    | inr ((w, found), e) ↦ rw (e, first_fit) (first_gpus-Fits id w found e)
  ]

-- The loop for the best score keeps to what the scores are computed for.
module _ {ℓ κ} {F : Type ℓ} (P : Placement → Type κ) (better : F → F → Bool)
    (score : String → Option (F × List String))
    (sound : (id : String)
      → Ensures (λ (s, gpus). P (record { worker = id; gpus = gpus })) (score id)) where
  abbrev Kept : Option (F × Placement) → Type κ
  Kept = Ensures (λ (s, p). P p)

  improve-Kept :
      (best : Option (F × Placement)) (id : String)
      → Kept best
      → Kept (improve better score best id)
  improve-Kept none id h = elim (Option-cases (score id)) [
    | inl e ↦ rw (e, improve) tt
    | inr ((s, gpus), e) ↦ rw (e, improve) (Ensures-some _ (score id) (s, gpus) (sound id) e)
  ]
  improve-Kept (some (s', p)) id h = elim (Option-cases (score id)) [
    | inl e ↦ rw (e, improve) h
    | inr ((s, gpus), e) ↦ elim (Bool-cases (better s s')) [
      | inl b ↦ rw (e, improve, b) (Ensures-some _ (score id) (s, gpus) (sound id) e)
      | inr b ↦ rw (e, improve, b) h
    ]
  ]

  best_worker-Kept :
      (best : Option (F × Placement)) (worker_ids : List String)
      → Kept best
      → Kept (best_worker better score best worker_ids)
  unfolding best_worker
  best_worker-Kept best [] h = h
  best_worker-Kept best (id ∷ more) h =
      best_worker-Kept (improve better score best id) more (improve-Kept best id h)

  pub best_placement-Ensures :
      (worker_ids : List String) → Ensures P (best_placement better score worker_ids)
  unfolding best_placement
  best_placement-Ensures worker_ids =
      elim (Option-cases (best_worker better score none worker_ids)) [
        | inl e ↦ rw (e, best_placement) tt
        | inr ((s, p), e) ↦
            rw (e, best_placement) (Ensures-some _ _ (s, p) (best_worker-Kept none worker_ids tt) e)
      ]

module _ (f : Float) (workers : Dict WorkerInfo) (req : ResourceRequirements) (u : Usage) where
  abbrev ScoreFits : String → Option (f.F × List String) → Type 0
  ScoreFits id = Ensures (λ (s, gpus). FitsOn workers req u id gpus)

  best_fit_score-Fits : (id : String) → ScoreFits id (best_fit_score f workers req u id)
  unfolding best_fit_score
  best_fit_score-Fits id = elim (Option-cases (eligible workers req u id)) [
    | inl e ↦ rw (e, best_fit_score) tt
    | inr ((w, found), e) ↦ rw (e, best_fit_score) (first_gpus-Fits workers req u id w found e)
  ]

  bin_pack_score-Fits : (id : String) → ScoreFits id (bin_pack_score f workers req u id)
  unfolding bin_pack_score
  bin_pack_score-Fits id = elim (Option-cases (eligible workers req u id)) [
    | inl e ↦ rw (e, bin_pack_score) tt
    | inr ((w, found), e) ↦ rw (e, bin_pack_score) (first_gpus-Fits workers req u id w found e)
  ]

  -- The GPUs with the most memory.
  selected-Fits :
      (id : String) (w : WorkerInfo) (found : List ComputeDevice)
      → eligible workers req u id ≡ some (w, found)
      → FitsOn workers req u id (ids (take req.gpus (sort more_vram found)))
  selected-Fits id w found h =
      let e = eligible-IsEligible workers req u id w found h in
      let Q = IsUsable w req.gpu_memory_bytes (u.busy id) in
      let name = λ (d : ComputeDevice). d.device_id in
      rw (map-take name req.gpus (sort more_vram found)) (
        eligible-Fits workers req u id (take req.gpus (ids (sort more_vram found))) e
          (length-take req.gpus (ids (sort more_vram found)) (
            omega (
              arith,
              e.enough,
              length-map {0, 0} name (sort more_vram found),
              length-sort more_vram found,
            )))
          (All-take Q req.gpus (ids (sort more_vram found)) (
            All-to_map Q name (sort more_vram found)
              (All-sort more_vram (λ d. Q d.device_id) found (All-of_map Q name found e.usable))))
          (λ d.
            Distinct-take req.gpus (ids (sort more_vram found))
              (Distinct-sort more_vram name found (e.distinct d))))

  -- A job without GPUs gets none.
  no_gpus-Fits :
      (id : String) (w : WorkerInfo) (found : List ComputeDevice)
      → eligible workers req u id ≡ some (w, found)
      → ltb 0 req.gpus ≡ false
      → FitsOn workers req u id []
  no_gpus-Fits id w found h n =
      eligible-Fits workers req u id [] (eligible-IsEligible workers req u id w found h)
        (ground arith) tt (λ _. tt)

  memory_aware_score-Fits : (id : String) → ScoreFits id (memory_aware_score f workers req u id)
  unfolding memory_aware_score
  memory_aware_score-Fits id = elim (Option-cases (eligible workers req u id)) [
    | inl e ↦ rw (e, memory_aware_score) tt
    | inr ((w, found), e) ↦ elim (Bool-cases (ltb 0 req.gpus)) [
      | inl g ↦ rw (e, memory_aware_score, g) (selected-Fits id w found e)
      | inr g ↦ rw (e, memory_aware_score, g) (no_gpus-Fits id w found e g)
    ]
  ]

  module _ (n : HasNonneg f) where
    clique-Fits :
        (id : String) (w : WorkerInfo) (found : List ComputeDevice) (m : TopologyMatrix)
        → eligible workers req u id ≡ some (w, found)
        → FitsOn workers req u id (find_best_clique f req.gpus (ids found) m)
    clique-Fits id w found m h =
        let e = eligible-IsEligible workers req u id w found h in
        let c =
          find_best_clique-IsChoice (IsUsable w req.gpu_memory_bytes (u.busy id)) f n m req.gpus
            (ids found)
            (omega
              (arith, e.enough, length-map {0, 0} (λ (d : ComputeDevice). d.device_id) found)) in
        eligible-Fits workers req u id _ e c.sized (c.each e.usable)
          (λ d. c.distinct (e.distinct d))

    topology_score-Fits : (id : String) → ScoreFits id (topology_score f workers req u id)
    unfolding topology_score
    topology_score-Fits id = elim (Option-cases (eligible workers req u id)) [
      | inl e ↦ rw (e, topology_score) tt
      | inr ((w, found), e) ↦ elim (Bool-cases (ltb 0 req.gpus)) [
        | inl g ↦ rw (e, topology_score, g) (clique-Fits id w found (graph_of w.devices).matrix e)
        | inr g ↦ rw (e, topology_score, g) (no_gpus-Fits id w found e g)
      ]
    ]

    best_topology-Fits :
        (score : f.F) (best : Option Placement) (worker_ids : List String)
        → Ensures (Fits workers req u) best
        → Ensures (Fits workers req u) (best_topology f workers req u score best worker_ids)
    unfolding best_topology
    best_topology-Fits score best [] h = h
    best_topology-Fits score best (id ∷ more) h =
        elim (Option-cases (topology_score f workers req u id)) [
          | inl e ↦ rw (e, best_topology) (best_topology-Fits score best more h)
          | inr ((s, gpus), e) ↦
              let fits = Ensures-some _ _ (s, gpus) (topology_score-Fits id) e in
              elim (Bool-cases (f.lt score s)) [
                | inl b ↦
                    rw (e, best_topology, b)
                      (best_topology-Fits s (some (record { worker = id; gpus = gpus })) more fits)
                | inr b ↦ rw (e, best_topology, b) (best_topology-Fits score best more h)
              ]
        ]

module _ (f : Float) (n : HasNonneg f) (workers : Dict WorkerInfo) where
  -- Whatever the policy, a chosen worker has room for the job, and the chosen GPUs are its own,
  -- free, large enough, and as many as the job asks for.
  pub choose-Fits :
      (policy : Policy f.F) (req : ResourceRequirements) (u : Usage)
      → Ensures (Fits workers req u) (choose f policy workers req u)
  unfolding choose
  choose-Fits fifo req u = first_fit-Fits workers req u (sorted_worker_ids workers)
  choose-Fits first_fit_policy req u = first_fit-Fits workers req u (sorted_worker_ids workers)
  choose-Fits (priority aging) req u = first_fit-Fits workers req u (sorted_worker_ids workers)
  choose-Fits best_fit req u =
      best_placement-Ensures (Fits workers req u) f.lt _ (best_fit_score-Fits f workers req u)
        (sorted_worker_ids workers)
  choose-Fits bin_pack req u =
      best_placement-Ensures (Fits workers req u) f.lt _ (bin_pack_score-Fits f workers req u)
        (sorted_worker_ids workers)
  choose-Fits memory_aware req u =
      best_placement-Ensures (Fits workers req u) (λ s s'. f.lt s' s) _
        (memory_aware_score-Fits f workers req u) (keys workers)
  choose-Fits topology_aware req u =
      best_topology-Fits f workers req u n f.minus_one none (sorted_worker_ids workers) tt
