-- ===== src/Execution/Docker.antt =====
-- drigs/execution/docker.py: the `docker run` command, and launching, polling and stopping a
-- container, with the native backend in place of a docker daemon that does not answer. The lock
-- makes each method one step; the logs are not modelled.

pub mod Fallback
use Prim.Native.String.{◌++◌ as join}
use drigs.Prelude.{
  ℕ, zero, suc, String, Bool, true, false, ◌&&◌, Option, none, some, List, [], ◌∷◌, ◌++◌, ite,
  dec_text, if◌then◌else◌,
}
use drigs.Prelude.Int.{ℤ, pos, negsuc}
use drigs.Dict.{Dict, lookup, put}
use drigs.Models.{
  Job, JobStatus, ResourceAllocation, ResourceRequirements, WorkloadRuntimeConfig, Entrypoint, text,
  words,
}
use drigs.Models.JobStatus.{running, completed, failed, cancelled}
use drigs.Result.{Result, ok, raise, docker_unavailable, launch_failed, ◌>>=◌}
use drigs.Execution.Text.{Text, comma_join}
use drigs.Execution.Process.{ExecutionHandle, ProcessRecord, Poll, completed as settle, gpu_ids}
use drigs.Execution.Native.{NativeBackend, new_record, as_launch_failure}
use drigs.Execution.Native

pub record DockerBackend : Type 0 where
  pub docker_cmd : String
  pub log_dir : String
  -- the native backend, if it may take a job over
  pub native_backend : Option NativeBackend
  pub processes : Dict ProcessRecord

-- getattr(runtime_config, "container_image", None) or "python:3.10-slim"
unfoldable pub image_of : WorkloadRuntimeConfig → String
image_of r = elim r.container_image [
  | none ↦ "python:3.10-slim"
  | some s ↦ ite (dec_text s "") "python:3.10-slim" s
]

module _ (t : Text) where
  unfoldable pub gpu_flags : List String → List String
  gpu_flags [] = []
  gpu_flags (g ∷ gs) = "--gpus" ∷ join "device=" (comma_join (g ∷ gs)) ∷ []

  unfoldable pub cpu_flags : ℕ → List String
  cpu_flags zero = []
  cpu_flags (suc n) = "--cpus" ∷ t.show (suc n) ∷ []

  unfoldable pub memory_flags : ℕ → List String
  memory_flags zero = []
  memory_flags (suc n) = "--memory" ∷ join (t.show (suc n)) "b" ∷ []

  unfoldable pub env_flags : Dict String → List String
  env_flags [] = []
  env_flags ((k, v) ∷ env) = "-e" ∷ join k (join "=" v) ∷ env_flags env

  unfoldable pub volume_flags : Dict String → List String
  volume_flags [] = []
  volume_flags ((host, inner) ∷ vols) =
      "-v" ∷ join host (join ":" (join inner ":rw")) ∷ volume_flags vols

  unfoldable pub dir_flags : Option String → List String
  dir_flags none = []
  dir_flags (some d) = ite (dec_text d "") [] ("-w" ∷ d ∷ [])

  -- The words of the entry point; an empty text is not split.
  unfoldable pub entry_words : Entrypoint → Result (List String)
  entry_words (text s) = ite (dec_text s "") (ok []) (t.split s)
  entry_words (words ws) = ok ws

  -- The variables of the container.
  unfoldable pub container_env : Job → ResourceAllocation → Dict String
  container_env job a = put "DRIGS_WORKER_ID" a.worker_id (
      put "DRIGS_ALLOCATION_ID" a.allocation_id
        (put "DRIGS_JOB_ID" job.job_id job.spec.execution.env))

  unfoldable pub build_docker_cmd :
      String → Job → ResourceAllocation → String → Result (List String)
  unfolding gpu_flags cpu_flags memory_flags env_flags volume_flags dir_flags
  build_docker_cmd docker_cmd job a container_name =
      entry_words job.spec.execution.entrypoint >>= λ entry. ok (
        docker_cmd
        ∷ "run"
        ∷ "--rm"
        ∷ "--name"
        ∷ container_name
        ∷ (gpu_flags (gpu_ids t a.assigned_device_ids)
            ++ (cpu_flags job.spec.resources.cpus
                ++ (memory_flags job.spec.resources.memory_bytes
                    ++ (env_flags (container_env job a)
                        ++ (volume_flags job.spec.runtime.volumes
                            ++ (dir_flags job.spec.execution.working_dir
                                ++ (image_of job.spec.runtime
                                    ∷ (entry ++ job.spec.execution.args)))))))))

-- What the operating system answers to one launch: whether the docker daemon answers, what a native
-- launch would meet, whether the log can be opened, the client's process, and the random parts of
-- the container's name and of the handle's id.
pub record Launching : Type 0 where
  pub available : Bool
  pub natively : Native.Launching
  pub open_log : String → Result (Unit {0})
  pub spawn : List String → Result ℕ
  pub name_hex : String
  pub id_hex : String

abbrev pub container_handle : String → String → ℕ → String → ExecutionHandle
container_handle id job_id pid name = record {
  handle_id = id;
  job_id = job_id;
  backend_type = "docker";
  pid = some pid;
  status = running;
  container_name = some name;
}

-- A launch by the native backend.
abbrev pub over_native :
    DockerBackend → NativeBackend × ExecutionHandle → DockerBackend × ExecutionHandle
over_native b (n, h) = (record b { native_backend = some n }, h)

unfoldable pub launch_container :
    Text
    → Launching
    → Job
    → ResourceAllocation
    → DockerBackend
    → Result (DockerBackend × ExecutionHandle)
unfolding build_docker_cmd
launch_container t os job a b =
    let name = join "drigs_container_" (join job.job_id (join "_" os.name_hex)) in
    let id = join "docker_" (join job.job_id (join "_" os.id_hex)) in
    let log = join b.log_dir (join "/" (join id ".log")) in
    build_docker_cmd t b.docker_cmd job a name >>= λ cmd. os.open_log log >>= λ _.
    as_launch_failure (os.spawn cmd) >>= λ pid.
    let h = container_handle id job.job_id pid name in
    ok (record b { processes = put id (new_record h pid log) b.processes }, h)

unfoldable pub launch :
    Text
    → Launching
    → Job
    → ResourceAllocation
    → DockerBackend
    → Result (DockerBackend × ExecutionHandle)
unfolding launch_container
launch t os job a b =
    if os.available then launch_container t os job a b else elim b.native_backend [
      | none ↦ raise docker_unavailable
      | some n ↦ Native.launch t os.natively job a n >>= λ r. ok (over_native b r)
    ]

-- handle.backend_type == "native" and self.native_backend
abbrev pub native_of : ExecutionHandle → DockerBackend → Option NativeBackend
native_of h b = ite (dec_text h.backend_type "native") b.native_backend none

-- The status of a client's exit code.
unfoldable pub exit_status : ℤ → JobStatus
exit_status (pos zero) = completed
exit_status _ = failed

unfoldable pub container_status : Poll → ExecutionHandle → DockerBackend → DockerBackend × JobStatus
unfolding exit_status
container_status poll h b = elim (lookup h.handle_id b.processes) [
  | none ↦ (b, h.status)
  | some r ↦ elim r.completed_status [
    | some s ↦ (b, s)
    | none ↦ elim (poll r.popen) [
      | none ↦ (b, running)
      | some code ↦ (
        record b { processes = put h.handle_id (settle (exit_status code) r) b.processes },
        exit_status code,
      )
    ]
  ]
]

unfoldable pub get_status : Poll → ExecutionHandle → DockerBackend → DockerBackend × JobStatus
unfolding container_status
get_status poll h b = elim (native_of h b) [
  | none ↦ container_status poll h b
  | some n ↦ let (n', s) = Native.get_status poll h n in (record b { native_backend = some n' }, s)
]

-- `docker stop` and the signals to the client are effects on the outside.
unfoldable pub stop_container : ExecutionHandle → DockerBackend → DockerBackend × Bool
stop_container h b = elim (lookup h.handle_id b.processes) [
  | none ↦ (b, false)
  | some r ↦ (record b { processes = put h.handle_id (settle cancelled r) b.processes }, true)
]

unfoldable pub stop : Poll → ExecutionHandle → DockerBackend → DockerBackend × Bool
unfolding stop_container
stop poll h b = elim (native_of h b) [
  | none ↦ stop_container h b
  | some n ↦
      let (n', answer, ended) = Native.stop poll h n in
      (record b { native_backend = some n' }, answer)
]
