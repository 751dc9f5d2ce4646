-- ===== src/Execution/Distributed/Launch.antt =====
-- DistributedBackend.launch in drigs/execution/distributed.py: all ranks, or an exception.
use drigs.Prelude.{
  ℕ, zero, suc, ◌+◌, ◌≤◌, String, ◌≡◌, ◌≢◌, refl, subst, Option, none, some, List, [], ◌∷◌, ◌++◌,
  length, length-append, arith, Option-cases, inl, inr, ◌⊎◌,
}
use drigs.Dict.{lookup, lookup-put_self}
use drigs.Models.{Job, ResourceAllocation, WorkloadDistributionConfig}
use drigs.Result.{Result, ok, raise, Error, Result-cases}
use drigs.Execution.Text.{Text}
use drigs.Execution.Native.{directory}
use drigs.Execution.Process.{ExecutionHandle, command}
use drigs.Execution.Distributed.{
  DistributedBackend, Launching, world_size, rank_env, Ranks, log_path, launch_ranks, first,
  new_record, Launched, conclude, launch,
}

-- Why ranks that have been started may be left running.
unfoldable pub Spared : Launching → Ranks → Error → Type 0
Spared os r e = (r.killed ≡ r.started) ⊎ ((path : String) × (os.open_log path ≡ some e))

-- The loop started `count` ranks after those it was given, or it failed.
RanksOutcome : Launching → ℕ → List ℕ → Ranks → Option Error → Type 0
RanksOutcome os count before r none = (length r.started ≡ length before + count) × (r.killed ≡ [])
RanksOutcome os count before r (some e) = Spared os r e

one_more :
    (os : Launching) (count : ℕ) (before : List ℕ) (pid : ℕ) (r : Ranks) (o : Option Error)
    → RanksOutcome os count (before ++ (pid ∷ [])) r o
    → RanksOutcome os (suc count) before r o
unfolding RanksOutcome
one_more os count before pid r none h = (omega (arith, h.0, length-append before (pid ∷ [])), h.1)
one_more os count before pid r (some e) h = h

module _ (t : Text) (os : Launching) (job : Job) (a : ResourceAllocation) (dir : String)
    (cmd : List String) where
  launch_ranks-Outcome :
      (count rank : ℕ) (started : List ℕ) (logs : List String)
      → let r = launch_ranks t os job a dir cmd count rank started logs in
        RanksOutcome os count started r r.failure
  unfolding launch_ranks RanksOutcome Spared
  launch_ranks-Outcome zero rank started logs = (omega arith, refl)
  launch_ranks-Outcome (suc count) rank started logs =
      let path = log_path t dir job.job_id rank in
      let where_to = directory job.spec.execution.working_dir os.cwd in
      elim (Option-cases (os.open_log path)) [
        | inr (e, p) ↦ rw (launch_ranks, p) (inr (path, p))
        | inl p ↦ elim (Result-cases (os.spawn rank cmd where_to (rank_env t os job a rank))) [
          | inr (e, q) ↦ rw (launch_ranks, p, q) (inl refl)
          | inl (pid, q) ↦
              rw (launch_ranks, p, q)
                (one_more os count started pid
                  (launch_ranks t os job a dir cmd count (suc rank) (started ++ (pid ∷ []))
                    (logs ++ (path ∷ [])))
                  _
                  (launch_ranks-Outcome count (suc rank) (started ++ (pid ∷ []))
                    (logs ++ (path ∷ []))))
        ]
      ]

-- A job has at least one rank.
world_size_positive :
    (dist : WorkloadDistributionConfig) (gpus : List String) → 1 ≤ world_size dist gpus
unfolding world_size
world_size_positive dist gpus = ground arith

first-some : (pids : List ℕ) → 1 ≤ length pids → first pids ≢ none
first-some [] h e = omega arith
first-some (pid ∷ pids) h e = cc

-- What a launch leaves when it answers a handle, and when it raises.
unfoldable pub IsLaunched :
    Launching
    → Job
    → ResourceAllocation
    → DistributedBackend
    → Launched
    → Result ExecutionHandle
    → Type 0
unfolding Spared
IsLaunched os job a b l (ok h) =
    (length l.ranks.started ≡ world_size job.spec.distribution a.assigned_device_ids)
    × (l.ranks.killed ≡ [])
    × (h.pid ≢ none)
    × (lookup h.handle_id l.backend.records ≡ some (new_record os.uuid job.job_id l.ranks))
IsLaunched os job a b l (raise e) = (l.backend ≡ b) × Spared os l.ranks e

concluded :
    (os : Launching) (job : Job) (a : ResourceAllocation) (b : DistributedBackend) (r : Ranks)
    → RanksOutcome os (world_size job.spec.distribution a.assigned_device_ids) [] r r.failure
    → let l = conclude os.uuid job b r in IsLaunched os job a b l l.answer
unfolding conclude RanksOutcome IsLaunched
concluded os job a b r h =
    let size = world_size job.spec.distribution a.assigned_device_ids in
    elim (Option-cases r.failure) [
      | inl e ↦
          let (count, alive) = subst (RanksOutcome os size [] r) e h in
          let many : length r.started ≡ size = omega (arith, count) in
          rw (conclude, e)
            (
              many,
              alive,
              first-some r.started (
                  omega
                    (arith, many, world_size_positive job.spec.distribution a.assigned_device_ids)),
              lookup-put_self os.uuid _ b.records,
            )
      | inr (x, e) ↦ rw (conclude, e) (refl, subst (RanksOutcome os size [] r) e h)
    ]

-- A launch that answers a handle has started as many ranks as the world size says, one at least,
-- has killed none of them, and has recorded them under the handle; a launch that raises leaves the
-- backend as it was and has killed every rank that it started, unless what it raises is the
-- exception of opening a log file: then the ranks that were started may go on.
pub launch-IsLaunched :
    (t : Text) (os : Launching) (job : Job) (a : ResourceAllocation) (b : DistributedBackend)
    → let l = launch t os job a b in IsLaunched os job a b l l.answer
unfolding launch IsLaunched Spared
launch-IsLaunched t os job a b = elim (Result-cases (command t job.spec.execution)) [
  | inr (e, c) ↦ rw (launch, c) (refl, inl refl)
  | inl ([], c) ↦ rw (launch, c) (refl, inl refl)
  | inl (word ∷ more, c) ↦
      rw (launch, c)
        (concluded os job a b _ (launch_ranks-Outcome t os job a b.log_dir (word ∷ more) _ 0 [] []))
]
