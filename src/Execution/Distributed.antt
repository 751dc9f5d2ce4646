-- ===== src/Execution/Distributed.antt =====
-- drigs/execution/distributed.py: the rank processes of one job, from their launch to their end.
-- The lock makes each method one step. A launch answers which processes it has started and which of
-- them it has killed; the logs are not modelled.
pub mod Launch
pub mod Rank
pub mod Status
use Prim.Native.String.{◌++◌ as join}
use drigs.Prelude.{
  ℕ, zero, suc, max, String, Bool, true, false, ◌&&◌, ◌||◌, Option, none, some, List, [], ◌∷◌, ◌++◌,
  map, length, ltb, ite, dec_text, if◌then◌else◌, get_elem?,
}
use drigs.Prelude.Int.{ℤ, pos, negsuc}
use drigs.Dict.{Dict, lookup, put}
use drigs.Models.{Job, JobStatus, ResourceAllocation, WorkloadDistributionConfig}
use drigs.Models.JobStatus.{running, completed, failed, cancelled}
use drigs.Result.{Result, ok, raise, Error, empty_entry, launch_failed}
use drigs.Execution.Text.{Text}
use drigs.Execution.Isolation.{clean_gpu_id, format_cuda_visible_devices, update}
use drigs.Execution.Native.{directory}
use drigs.Execution.Process.{ExecutionHandle, Poll, command}

pub record DistributedProcessRecord : Type 0 where
  pub handle : ExecutionHandle
  pub processes : List ℕ
  pub log_filepaths : List String
  pub completed_status : Option JobStatus

pub record DistributedBackend : Type 0 where
  pub log_dir : String
  pub records : Dict DistributedProcessRecord

-- What the operating system answers to one launch: its environment, its working directory, a free
-- port, an exception of opening a log, and the process of a rank.
pub record Launching : Type 0 where
  pub environ : Dict String
  pub cwd : String
  pub free_port : ℕ
  pub open_log : String → Option Error
  -- the rank, the command, the directory and the environment
  pub spawn : ℕ → List String → String → Dict String → Result ℕ
  pub uuid : String

unfoldable pub world_size : WorkloadDistributionConfig → List String → ℕ
world_size dist gpus = if ltb 1 dist.world_size then dist.world_size else max 1 (length gpus)

-- dist_config.master_addr or "127.0.0.1"
unfoldable pub master_addr : WorkloadDistributionConfig → String
master_addr dist = elim dist.master_addr [
  | none ↦ "127.0.0.1"
  | some s ↦ ite (dec_text s "") "127.0.0.1" s
]

-- dist_config.master_port or find_free_port()
unfoldable pub master_port : WorkloadDistributionConfig → ℕ → ℕ
master_port dist free_port = elim dist.master_port [
  | none ↦ free_port
  | some zero ↦ free_port
  | some (suc n) ↦ suc n
]

-- The GPUs that one rank sees: its own, all of them if there are fewer GPUs than ranks, and
-- nothing is said if the allocation has none.
unfoldable pub rank_devices : Text → List String → ℕ → Dict String → Dict String
rank_devices t [] rank env = env
rank_devices t (g ∷ gpus) rank env =
    put "CUDA_VISIBLE_DEVICES"
      (elim (get_elem? (g ∷ gpus) rank) [
        | some id ↦ clean_gpu_id t id
        | none ↦ format_cuda_visible_devices t (g ∷ gpus) false []
      ])
      env

unfoldable pub rank_env : Text → Launching → Job → ResourceAllocation → ℕ → Dict String
unfolding rank_devices
rank_env t os job a rank =
    let dist = job.spec.distribution in
    let gpus = a.assigned_device_ids in
    rank_devices t gpus rank (
      put "MASTER_PORT" (t.show (master_port dist os.free_port)) (
        put "MASTER_ADDR" (master_addr dist) (
          put "LOCAL_RANK" (t.show rank) (
            put "RANK" (t.show rank) (
              put "WORLD_SIZE" (t.show (world_size dist gpus)) (
                put "DRIGS_WORKER_ID" a.worker_id (
                  put "DRIGS_ALLOCATION_ID" a.allocation_id (
                    put "DRIGS_JOB_ID" job.job_id (update job.spec.execution.env os.environ)))))))))

-- What the loop over the ranks leaves: the processes started, their logs, those killed, and the
-- exception that ended it.
pub record Ranks : Type 0 where
  pub started : List ℕ
  pub logs : List String
  pub killed : List ℕ
  pub failure : Option Error

unfoldable pub log_path : Text → String → String → ℕ → String
log_path t dir job_id rank =
    join dir (join "/" (join job_id (join "_rank_" (join (t.show rank) ".log"))))

-- The ranks from `rank` on, `count` of them. If one cannot be started, those before it are killed;
-- an exception of opening a log leaves them.
unfoldable pub launch_ranks :
    Text
    → Launching
    → Job
    → ResourceAllocation
    → String
    → List String
    → ℕ
    → ℕ
    → List ℕ
    → List String
    → Ranks
launch_ranks t os job a dir cmd zero rank started logs = record {
  started = started;
  logs = logs;
  killed = [];
  failure = none;
}
launch_ranks t os job a dir cmd (suc count) rank started logs =
    let path = log_path t dir job.job_id rank in
    elim (os.open_log path) [
      | some e ↦ record { started = started; logs = logs; killed = []; failure = some e }
      | none ↦
          elim (os.spawn rank cmd (directory job.spec.execution.working_dir os.cwd)
            (rank_env t os job a rank)) [
              | raise e ↦ record {
                started = started;
                logs = logs;
                killed = started;
                failure = some (launch_failed e);
              }
              | ok pid ↦
                  launch_ranks t os job a dir cmd count (suc rank) (started ++ (pid ∷ []))
                    (logs ++ (path ∷ []))
            ]
    ]

abbrev pub first : List ℕ → Option ℕ
first [] = none
first (pid ∷ pids) = some pid

abbrev pub new_record : String → String → Ranks → DistributedProcessRecord
new_record id job_id ranks = record {
  handle = record {
    handle_id = id;
    job_id = job_id;
    backend_type = "DISTRIBUTED";
    pid = first ranks.started;
    status = running;
    container_name = none;
  };
  processes = ranks.started;
  log_filepaths = ranks.logs;
  completed_status = none;
}

-- The backend after a launch, its answer, and what happened to the ranks.
pub record Launched : Type 0 where
  pub backend : DistributedBackend
  pub answer : Result ExecutionHandle
  pub ranks : Ranks

abbrev no_ranks : Ranks
no_ranks = record { started = []; logs = []; killed = []; failure = none }

-- The loop's exception is passed on; else the job is recorded.
unfoldable pub conclude : String → Job → DistributedBackend → Ranks → Launched
conclude id job b ranks = elim ranks.failure [
  | some e ↦ record { backend = b; answer = raise e; ranks = ranks }
  | none ↦
      let r = new_record id job.job_id ranks in
      record {
        backend = record b { records = put id r b.records };
        answer = ok r.handle;
        ranks = ranks;
      }
]

unfoldable pub launch : Text → Launching → Job → ResourceAllocation → DistributedBackend → Launched
unfolding conclude launch_ranks
launch t os job a b = elim (command t job.spec.execution) [
  | raise e ↦ record { backend = b; answer = raise e; ranks = no_ranks }
  | ok [] ↦ record { backend = b; answer = raise empty_entry; ranks = no_ranks }
  | ok (word ∷ more) ↦ conclude os.uuid job b (
      launch_ranks t os job a b.log_dir (word ∷ more)
        (world_size job.spec.distribution a.assigned_device_ids) 0 [] [])
]

-- record.completed_status = handle.status = status
abbrev pub settle : JobStatus → DistributedProcessRecord → DistributedProcessRecord
settle s r = record r { handle = record r.handle { status = s }; completed_status = some s }

-- The loop over the processes: their exit codes, and whether one of them failed.
unfoldable pub poll_all : Poll → List ℕ → List (Option ℤ) × Bool
poll_all poll [] = ([], false)
poll_all poll (pid ∷ pids) =
    let (codes, bad) = poll_all poll pids in
    elim (poll pid) [
      | none ↦ (none ∷ codes, bad)
      | some (pos zero) ↦ (some (pos 0) ∷ codes, bad)
      | some code ↦ (some code ∷ codes, true)
    ]

-- all(s == 0 for s in statuses)
unfoldable pub all_zero : List (Option ℤ) → Bool
all_zero [] = true
all_zero (some (pos zero) ∷ codes) = all_zero codes
all_zero (_ ∷ codes) = false

-- What the exit codes of the ranks say.
unfoldable pub ranks_status : Poll → List ℕ → JobStatus
unfolding poll_all all_zero
ranks_status poll pids =
    let (codes, bad) = poll_all poll pids in
    if bad then failed else if all_zero codes then completed else running

abbrev pub after_poll : JobStatus → DistributedProcessRecord → DistributedProcessRecord
after_poll running r = record r { handle = record r.handle { status = running } }
after_poll s r = settle s r

unfoldable pub get_status :
    Poll → ExecutionHandle → DistributedBackend → DistributedBackend × JobStatus
unfolding ranks_status
get_status poll h b = elim (lookup h.handle_id b.records) [
  | none ↦ (b, h.status)
  | some r ↦ elim r.completed_status [
    | some s ↦ (b, s)
    | none ↦
        let s = ranks_status poll r.processes in
        (record b { records = put h.handle_id (after_poll s r) b.records }, s)
  ]
]

-- The processes that have not ended.
unfoldable pub alive : Poll → List ℕ → List ℕ
alive poll [] = []
alive poll (pid ∷ pids) =
    let rest = alive poll pids in elim (poll pid) [ none ↦ pid ∷ rest | some code ↦ rest ]

-- The answer, and the processes whose groups are told to end.
unfoldable pub stop :
    Poll → ExecutionHandle → DistributedBackend → DistributedBackend × Bool × List ℕ
unfolding alive
stop poll h b = elim (lookup h.handle_id b.records) [
  | none ↦ (b, false, [])
  | some r ↦ (
    record b { records = put h.handle_id (settle cancelled r) b.records },
    true,
    alive poll r.processes,
  )
]
