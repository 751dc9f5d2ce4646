-- ===== src/Examples/Placing.antt =====
-- The policies on the small cluster.
use drigs.Prelude.{
  ◌⊎◌, ℕ, String, ◌≡◌, refl, List, [], ◌∷◌, arith, some, All, Distinct, contains, dec_text,
}
use drigs.Prelude.Sort.{sort}
use drigs.Dict.{lookup, put, All-values}
use drigs.Models.{ResourceRequirements, ResourceAllocation, WorkerInfo}
use drigs.Hardware.Topology.{
  find_best_clique, graph_of, get_group_topology_score, combinations, add_devices,
}
use drigs.Hardware.Topology.Clique.{NoneBeats, find_best_clique-NoneBeats}
use drigs.Scheduler.Placement.{
  Placement, ids, no_usage, eligible, check_worker, place_jobs, candidate_gpus,
}
use drigs.Scheduler.Capacity.{Continues, devices_on}
use drigs.Scheduler.Grants.{Serves, job_ids}
use drigs.Scheduler.Policies.{
  best_placement, best_worker, best_fit_score, schedule, topology_aware, choose, le_for,
  best_topology, sorted_worker_ids,
}
use drigs.Scheduler.Safety.{
  schedule-Continues, schedule-devices_Distinct, schedule-Serves, schedule-jobs_Distinct,
  schedule-IsRefused, IsRefused,
}
use drigs.Scheduler.Best.{NoneBetter, best_placement-NoneBetter}
use drigs.Scheduler.Gang.{try_multi_node_gang}
use drigs.Scheduler.Gang.Atomic.{gang-exact, devices_given}
use drigs.Examples.Data.{
  requires, whole, whole-HasNonneg, whole-IsOrder, big, cluster, state, jobs, draws,
}

abbrev topo_allocs : List ResourceAllocation
topo_allocs = schedule whole topology_aware draws 30 jobs state

own : (id : String) (w : WorkerInfo) → lookup id cluster ≡ some w → Distinct (ids w.devices)
own id w e =
    All-values (λ w. Distinct (ids w.devices)) cluster id w
      (unfold contains dec_text in ((refl, (refl, (refl, tt))), ((refl, tt), tt))) e

topo_jobs : job_ids topo_allocs ≡ "j2" ∷ "j1" ∷ []
unfolding schedule place_jobs sort le_for choose best_topology sorted_worker_ids eligible lookup
    dec_text check_worker candidate_gpus contains get_group_topology_score find_best_clique
    add_devices put
topo_jobs = refl

schedule-Continues_example : Continues no_usage "w1" big topo_allocs
schedule-Continues_example =
    schedule-Continues whole whole-HasNonneg topology_aware draws 30 jobs state "w1" big
      (unfold lookup dec_text in refl)

schedule-devices_Distinct_example : Distinct (devices_on "w1" topo_allocs)
schedule-devices_Distinct_example =
    schedule-devices_Distinct whole whole-HasNonneg topology_aware draws 30 jobs state "w1" big
      (unfold lookup dec_text in refl) (unfold contains dec_text in (refl, (refl, (refl, tt))))

schedule-Serves_example : All (Serves cluster jobs) topo_allocs
schedule-Serves_example = schedule-Serves whole whole-HasNonneg topology_aware draws 30 jobs state

schedule-jobs_Distinct_example : Distinct (job_ids topo_allocs)
schedule-jobs_Distinct_example =
    schedule-jobs_Distinct whole whole-HasNonneg topology_aware draws 30 jobs state
      (unfold contains dec_text in (refl, (refl, (refl, tt))))

schedule-IsRefused_example : All (IsRefused cluster topo_allocs) jobs
schedule-IsRefused_example =
    schedule-IsRefused whole whole-HasNonneg topology_aware draws 30 jobs state own

find_best_clique-NoneBeats_example :
    NoneBeats whole
      (graph_of big.devices).matrix
      (find_best_clique whole 2 ("g0" ∷ "g1" ∷ "g2" ∷ []) (graph_of big.devices).matrix)
      (combinations 2 ("g0" ∷ "g1" ∷ "g2" ∷ []))
find_best_clique-NoneBeats_example =
    find_best_clique-NoneBeats whole whole-HasNonneg whole-IsOrder (graph_of big.devices).matrix 2
      ("g0" ∷ "g1" ∷ "g2" ∷ []) (omega arith)

gang-exact_example :
    (try_multi_node_gang cluster (requires 3 10 2 100) "j9" draws no_usage ("w0" ∷ "w1" ∷ [])
      ≡ ([], no_usage))
    ⊎ (devices_given
          (try_multi_node_gang cluster
            (requires 3 10 2 100)
            "j9"
            draws
            no_usage
            ("w0" ∷ "w1" ∷ [])).0
        ≡ 3)
gang-exact_example = gang-exact cluster (requires 3 10 2 100) "j9" draws no_usage ("w0" ∷ "w1" ∷ [])

abbrev wanted : ResourceRequirements
wanted = requires 1 0 4 100

abbrev on_small : Placement
on_small = record { worker = "w0"; gpus = "g0" ∷ [] }

fits_small :
    best_placement whole.lt (best_fit_score whole cluster wanted no_usage) ("w0" ∷ "w1" ∷ [])
    ≡ some on_small
unfolding best_placement best_worker best_fit_score eligible lookup dec_text check_worker
    candidate_gpus contains
fits_small = refl

best_placement-NoneBetter_example :
    (s : ℕ) × (best_fit_score whole cluster wanted no_usage "w0" ≡ some (s, "g0" ∷ []))
    × NoneBetter whole.lt
        (best_fit_score whole cluster wanted no_usage)
        whole-IsOrder.irrefl
        whole-IsOrder.trans
        s
        ("w0" ∷ "w1" ∷ [])
best_placement-NoneBetter_example =
    best_placement-NoneBetter whole.lt (best_fit_score whole cluster wanted no_usage)
      whole-IsOrder.irrefl whole-IsOrder.trans ("w0" ∷ "w1" ∷ []) on_small fits_small
