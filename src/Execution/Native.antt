-- ===== src/Execution/Native.antt =====
-- drigs/execution/native.py: launching, polling and stopping a native process. The lock makes each
-- method one step. The end of a process tree is an effect on the operating system, of which the
-- processes that are told to end are answered; the sweeper of orphans and the logs are not modelled.
pub mod Accounts
pub mod Settled
use Prim.Native.String.{◌++◌ as join}
use drigs.Prelude.{
  ℕ, suc, String, Bool, true, false, Option, none, some, List, [], ◌∷◌, ◌||◌, ite, dec_text, ◌==◌,
  if◌then◌else◌,
}
use drigs.Prelude.Int.{ℤ, pos, negsuc}
use drigs.Dict.{Dict, lookup, put, has}
use drigs.Models.{Job, JobStatus, ResourceAllocation}
use drigs.Models.JobStatus.{running, completed, failed, cancelled}
use drigs.Result.{Result, ok, raise, empty_entry, launch_failed, ◌>>=◌}
use drigs.Execution.Text.{Text, comma_join}
use drigs.Execution.Isolation.{update}
use drigs.Execution.Process.{
  ExecutionHandle, ProcessRecord, Poll, completed as settle, command, gpu_ids,
}

pub record NativeBackend : Type 0 where
  pub log_dir : String
  pub processes : Dict ProcessRecord

abbrev pub new_native : String → NativeBackend
new_native log_dir = record { log_dir = log_dir; processes = [] }

-- What the operating system answers to one launch: its environment and its working directory,
-- whether a missing directory can be made, whether the log can be opened, and the new process.
pub record Launching : Type 0 where
  pub environ : Dict String
  pub cwd : String
  pub make_dir : String → Result (Unit {0})
  pub open_log : String → Result (Unit {0})
  -- the command, the directory and the environment
  pub spawn : List String → String → Dict String → Result ℕ
  -- uuid.uuid4().hex[:8]
  pub hex : String

-- The CUDA variable: the GPUs of the allocation, and none if there are none and the user has not
-- set it.
unfoldable pub visible_devices : List String → Dict String → Dict String → Dict String
visible_devices [] user env =
    if has "CUDA_VISIBLE_DEVICES" user then env else put "CUDA_VISIBLE_DEVICES" "" env
visible_devices (g ∷ gs) user env = put "CUDA_VISIBLE_DEVICES" (comma_join (g ∷ gs)) env

unfoldable pub launch_env : Text → Dict String → Job → ResourceAllocation → Dict String
unfolding visible_devices
launch_env t environ job a =
    let user = job.spec.execution.env in
    visible_devices (gpu_ids t a.assigned_device_ids) user (
      put "DRIGS_WORKER_ID" a.worker_id (
        put "DRIGS_ALLOCATION_ID" a.allocation_id
          (put "DRIGS_JOB_ID" job.job_id (update user environ))))

-- exec_config.working_dir or os.getcwd()
abbrev pub directory : Option String → String → String
directory none cwd = cwd
directory (some d) cwd = ite (dec_text d "") cwd d

abbrev pub new_handle : String → String → ℕ → ExecutionHandle
new_handle id job pid = record {
  handle_id = id;
  job_id = job;
  backend_type = "native";
  pid = some pid;
  status = running;
  container_name = none;
}

abbrev pub new_record : ExecutionHandle → ℕ → String → ProcessRecord
new_record h pid log = record {
  handle = h;
  popen = pid;
  log_filepath = log;
  completed_status = none;
}

-- The id of the handle that a launch draws.
abbrev pub drawn_id : Launching → Job → String
drawn_id os job = join "exec_" (join job.job_id (join "_" os.hex))

-- An exception of Popen is an ExecutionError.
abbrev pub as_launch_failure : Result ℕ → Result ℕ
as_launch_failure (ok pid) = ok pid
as_launch_failure (raise e) = raise (launch_failed e)

-- The process is started, and recorded under the id that is drawn.
unfoldable pub start_process :
    Text
    → Launching
    → Job
    → ResourceAllocation
    → NativeBackend
    → List String
    → Result (NativeBackend × ExecutionHandle)
unfolding launch_env
start_process t os job a b [] = raise empty_entry
start_process t os job a b (word ∷ more) =
    let dir = directory job.spec.execution.working_dir os.cwd in
    let id = drawn_id os job in
    let log = join b.log_dir (join "/" (join id ".log")) in
    os.make_dir dir >>= λ _. os.open_log log >>= λ _.
    as_launch_failure (os.spawn (word ∷ more) dir (launch_env t os.environ job a)) >>= λ pid.
    let h = new_handle id job.job_id pid in
    ok (record b { processes = put id (new_record h pid log) b.processes }, h)

-- A failed launch leaves the backend as it was.
unfoldable pub launch :
    Text
    → Launching
    → Job
    → ResourceAllocation
    → NativeBackend
    → Result (NativeBackend × ExecutionHandle)
unfolding start_process
launch t os job a b = command t job.spec.execution >>= start_process t os job a b

-- The status that an exit code stands for. A signal that ended the process is a negative code;
-- SIGKILL is 9 and SIGTERM is 15.
unfoldable pub exit_status : ℤ → JobStatus
exit_status (pos n) = if n == 0 then completed else failed
exit_status (negsuc n) = if suc n == 15 || suc n == 9 then cancelled else failed

unfoldable pub get_status : Poll → ExecutionHandle → NativeBackend → NativeBackend × JobStatus
unfolding exit_status
get_status poll h b = elim (lookup h.handle_id b.processes) [
  | none ↦ (b, h.status)
  | some r ↦ elim r.completed_status [
    | some s ↦ (b, s)
    | none ↦ elim (poll r.popen) [
      | none ↦ (b, running)
      | some code ↦ (
        record b { processes = put h.handle_id (settle (exit_status code) r) b.processes },
        exit_status code,
      )
    ]
  ]
]

-- The answer, and the processes whose trees are told to end.
unfoldable pub stop : Poll → ExecutionHandle → NativeBackend → NativeBackend × Bool × List ℕ
stop poll h b = elim (lookup h.handle_id b.processes) [
  | none ↦ (b, false, [])
  | some r ↦ elim (poll r.popen) [
    | some code ↦ ((get_status poll h b).0, true, [])
    | none ↦ (
      record b { processes = put h.handle_id (settle cancelled r) b.processes },
      true,
      r.popen ∷ [],
    )
  ]
]

-- The calls of the backend.
pub data Call : Type 0 where
  launches : Launching → Job → ResourceAllocation → Call
  polls stops : ExecutionHandle → Call

abbrev pub left_by : NativeBackend → Result (NativeBackend × ExecutionHandle) → NativeBackend
left_by b (ok (b', h)) = b'
left_by b (raise e) = b

-- What a call leaves, at processes that answer as `poll`; a launch that fails changes nothing.
unfoldable pub step : Text → Poll → Call → NativeBackend → NativeBackend
step t poll (launches os job a) b = left_by b (launch t os job a b)
step t poll (polls h) b = (get_status poll h b).0
step t poll (stops h) b = (stop poll h b).0

-- The n-th call is made at time n.
unfoldable pub run : Text → (ℕ → Poll) → ℕ → List Call → NativeBackend → NativeBackend
unfolding step
run t poll n [] b = b
run t poll n (c ∷ cs) b = run t poll (suc n) cs (step t (poll n) c b)
