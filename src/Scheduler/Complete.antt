-- ===== src/Scheduler/Complete.antt =====
-- A policy chooses no worker only if every worker fails the tests.
use drigs.Prelude.{
  String, ◌≡◌, ◌≢◌, Bool, true, Option, none, some, List, [], ◌∷◌, arith, ltb, length-map, All,
  All-map, inl, inr, Bool-cases, Option-cases,
}
use drigs.Prelude.Sort.{All-of_sort}
use drigs.Dict.{Dict, lookup, keys, All-keys}
use drigs.Models.{ComputeDevice, ResourceRequirements, WorkerInfo}
use drigs.Float.{Float, HasNonneg}
use drigs.Hardware.Topology.{TopologyMatrix, graph_of, find_best_clique, get_group_topology_score}
use drigs.Hardware.Topology.Clique.{find_best_clique-IsChoice, score_above_any}
use drigs.Scheduler.Placement.{Usage, Placement, check_worker, eligible, ids}
use drigs.Scheduler.Sound.{eligible-IsEligible}
use drigs.Scheduler.Maximal.{AllRefused}
use drigs.Scheduler.Policies.{
  le_text, first_fit, improve, best_worker, best_placement, best_fit_score, bin_pack_score,
  memory_aware_score, topology_score, best_topology, Policy, fifo, first_fit_policy, priority,
  best_fit, bin_pack, memory_aware, topology_aware, choose, sorted_worker_ids,
}

module _ (workers : Dict WorkerInfo) (req : ResourceRequirements) (u : Usage) where
  abbrev IsOut : String → Type 0
  IsOut id = eligible workers req u id ≡ none

  refused_of_IsOut :
      (id : String) (w : WorkerInfo)
      → lookup id workers ≡ some w
      → IsOut id
      → check_worker req u id w ≡ none
  unfolding eligible
  refused_of_IsOut id w e h = ground arith

  keys-IsOut : All IsOut (keys workers) → AllRefused workers req u
  keys-IsOut h id w e = refused_of_IsOut id w e (All-keys IsOut workers id w h e)

  sorted-IsOut : All IsOut (sorted_worker_ids workers) → AllRefused workers req u
  unfolding sorted_worker_ids
  sorted-IsOut h = keys-IsOut (All-of_sort le_text IsOut (keys workers) h)

  first_fit-none :
      (worker_ids : List String) → first_fit workers worker_ids req u ≡ none → All IsOut worker_ids
  unfolding first_fit
  first_fit-none [] h = tt
  first_fit-none (id ∷ more) h = elim (Option-cases (eligible workers req u id)) [
    | inl e ↦ (e, first_fit-none more (ground arith))
    | inr (wf, e) ↦ ground arith
  ]

module _ {ℓ} {F : Type ℓ} (better : F → F → Bool) (score : String → Option (F × List String)) where
  improve-some :
      (best : F × Placement) (id : String)
      → (b : F × Placement) × (improve better score (some best) id ≡ some b)
  improve-some (s', p) id = elim (Option-cases (score id)) [
    | inl e ↦ ((s', p), rw (e, improve))
    | inr ((s, gpus), e) ↦ elim (Bool-cases (better s s')) [
      | inl b ↦ ((s, record { worker = id; gpus = gpus }), rw (e, improve, b))
      | inr b ↦ ((s', p), rw (e, improve, b))
    ]
  ]

  best_worker-some :
      (best : F × Placement) (worker_ids : List String)
      → best_worker better score (some best) worker_ids ≢ none
  unfolding best_worker
  best_worker-some best [] h = cc
  best_worker-some best (id ∷ more) h =
      let (b, e) = improve-some best id in best_worker-some b more (rw e at h)

  best_worker-none :
      (worker_ids : List String)
      → best_worker better score none worker_ids ≡ none
      → All (λ id. score id ≡ none) worker_ids
  unfolding best_worker
  best_worker-none [] h = tt
  best_worker-none (id ∷ more) h = elim (Option-cases (score id)) [
    | inl e ↦ (e, best_worker-none more (rw (e, improve) at h))
    | inr ((s, gpus), e) ↦
        absurd
          (best_worker-some (s, record { worker = id; gpus = gpus }) more (rw (e, improve) at h))
  ]

  pub best_placement-none :
      (worker_ids : List String)
      → best_placement better score worker_ids ≡ none
      → All (λ id. score id ≡ none) worker_ids
  unfolding best_placement
  best_placement-none worker_ids h = best_worker-none worker_ids (ground arith)

module _ (f : Float) (workers : Dict WorkerInfo) (req : ResourceRequirements) (u : Usage) where
  best_fit_score-none :
      (id : String) → best_fit_score f workers req u id ≡ none → IsOut workers req u id
  unfolding best_fit_score
  best_fit_score-none id h = ground arith

  bin_pack_score-none :
      (id : String) → bin_pack_score f workers req u id ≡ none → IsOut workers req u id
  unfolding bin_pack_score
  bin_pack_score-none id h = ground arith

  memory_aware_score-none :
      (id : String) → memory_aware_score f workers req u id ≡ none → IsOut workers req u id
  unfolding memory_aware_score
  memory_aware_score-none id h = ground arith

  topology_score-none :
      (id : String) → topology_score f workers req u id ≡ none → IsOut workers req u id
  unfolding topology_score
  topology_score-none id h = ground arith

module _ (f : Float) (n : HasNonneg f) (workers : Dict WorkerInfo) (req : ResourceRequirements)
    (u : Usage) where
  clique_above :
      (id : String) (w : WorkerInfo) (found : List ComputeDevice) (m : TopologyMatrix)
      → eligible workers req u id ≡ some (w, found)
      → ltb 0 req.gpus ≡ true
      → f.lt f.minus_one (get_group_topology_score f (find_best_clique f req.gpus (ids found) m) m)
        ≡ true
  clique_above id w found m h g =
      let e = eligible-IsEligible workers req u id w found h in
      let c =
        find_best_clique-IsChoice (λ _. Unit {0}) f n m req.gpus (ids found)
          (omega (arith, e.enough, length-map {0, 0} (λ (d : ComputeDevice). d.device_id) found)) in
      score_above_any f n m _ (ground (arith, c.sized))

  -- Every score that is computed exceeds -1.0.
  topology_score_above :
      (id : String) (s : f.F) (gpus : List String)
      → topology_score f workers req u id ≡ some (s, gpus)
      → f.lt f.minus_one s ≡ true
  unfolding topology_score
  topology_score_above id s gpus h = elim (Option-cases (eligible workers req u id)) [
    | inl e ↦ ground arith
    | inr ((w, found), e) ↦ elim (Bool-cases (ltb 0 req.gpus)) [
      | inl g ↦ let a = clique_above id w found (graph_of w.devices).matrix e g in ground arith
      | inr g ↦ let a = n.above_minus_one _ (n.of_nat-Nonneg 100) in ground arith
    ]
  ]

  best_topology-some :
      (score : f.F) (p : Placement) (worker_ids : List String)
      → best_topology f workers req u score (some p) worker_ids ≢ none
  unfolding best_topology
  best_topology-some score p [] h = cc
  best_topology-some score p (id ∷ more) h =
      elim (Option-cases (topology_score f workers req u id)) [
        | inl e ↦ best_topology-some score p more (rw (e, best_topology) at h)
        | inr ((s, gpus), e) ↦ elim (Bool-cases (f.lt score s)) [
          | inl b ↦
              best_topology-some s (record { worker = id; gpus = gpus }) more
                (rw (e, best_topology, b) at h)
          | inr b ↦ best_topology-some score p more (rw (e, best_topology, b) at h)
        ]
      ]

  best_topology-none :
      (worker_ids : List String)
      → best_topology f workers req u f.minus_one none worker_ids ≡ none
      → All (IsOut workers req u) worker_ids
  unfolding best_topology
  best_topology-none [] h = tt
  best_topology-none (id ∷ more) h = elim (Option-cases (topology_score f workers req u id)) [
    | inl e ↦ (
      topology_score-none f workers req u id e,
      best_topology-none more (rw (e, best_topology) at h),
    )
    | inr ((s, gpus), e) ↦ absurd (
        best_topology-some s (record { worker = id; gpus = gpus }) more
          (rw (e, best_topology, topology_score_above id s gpus e) at h))
  ]

module _ (f : Float) (n : HasNonneg f) (workers : Dict WorkerInfo) where
  -- Whatever the policy, no worker is chosen only if every registered worker fails the tests.
  pub choose-none :
      (policy : Policy f.F) (req : ResourceRequirements) (u : Usage)
      → choose f policy workers req u ≡ none
      → AllRefused workers req u
  unfolding choose
  choose-none fifo req u h = sorted-IsOut workers req u (first_fit-none workers req u _ h)
  choose-none first_fit_policy req u h =
      sorted-IsOut workers req u (first_fit-none workers req u _ h)
  choose-none (priority aging) req u h =
      sorted-IsOut workers req u (first_fit-none workers req u _ h)
  choose-none best_fit req u h =
      sorted-IsOut workers req u
        (All-map _ _ (best_fit_score-none f workers req u) _ (best_placement-none _ _ _ h))
  choose-none bin_pack req u h =
      sorted-IsOut workers req u
        (All-map _ _ (bin_pack_score-none f workers req u) _ (best_placement-none _ _ _ h))
  choose-none memory_aware req u h =
      keys-IsOut workers req u
        (All-map _ _ (memory_aware_score-none f workers req u) _ (best_placement-none _ _ _ h))
  choose-none topology_aware req u h =
      sorted-IsOut workers req u (best_topology-none f n workers req u _ h)
