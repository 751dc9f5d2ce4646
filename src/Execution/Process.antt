-- ===== src/Execution/Process.antt =====
-- What the backends of drigs/execution keep of a process: the ExecutionHandle of
-- drigs/core/interfaces.py and the ProcessRecord of drigs/execution/native.py.
use drigs.Prelude.{ℕ, String, Option, some, List, [], ◌∷◌, ◌++◌, ◌||◌, if◌then◌else◌}
use drigs.Prelude.Int.{ℤ}
use drigs.Models.{JobStatus, text, words, WorkloadExecutionConfig}
use drigs.Result.{Result, ok, ◌>>=◌}
use drigs.Execution.Text.{Text}

-- Of the metadata, the name of the container.
pub record ExecutionHandle : Type 0 where
  pub handle_id : String
  pub job_id : String
  pub backend_type : String
  pub pid : Option ℕ
  pub status : JobStatus
  pub container_name : Option String

-- A Popen object is its number; the caller's handle is the record's, so one status is kept.
pub record ProcessRecord : Type 0 where
  pub handle : ExecutionHandle
  pub popen : ℕ
  pub log_filepath : String
  pub completed_status : Option JobStatus

-- popen.poll(): the exit code of a process that has ended.
abbrev pub Poll : Type 0
Poll = ℕ → Option ℤ

-- record.completed_status = record.handle.status = status
abbrev pub completed : JobStatus → ProcessRecord → ProcessRecord
completed s r = record r { handle = record r.handle { status = s }; completed_status = some s }

-- The words of the command line.
unfoldable pub command : Text → WorkloadExecutionConfig → Result (List String)
command t c = elim c.entrypoint [
  | text s ↦ t.split s >>= λ parts. ok (parts ++ c.args)
  | words ws ↦ ok (ws ++ c.args)
]

-- The ids of the GPUs among the devices of an allocation, as native.py and docker.py write them.
unfoldable pub gpu_ids : Text → List String → List String
gpu_ids t [] = []
gpu_ids t (id ∷ ids) =
    let rest = gpu_ids t ids in
    if t.mentions "gpu" (t.lower id) || t.is_digit id
    then t.without "GPU-" (t.without "gpu-" id) ∷ rest
    else rest
