-- ===== src/Diagnostics.antt =====
-- drigs/diagnostics/analyzer.py: what is found out about a job, and its health score. The texts of
-- a finding that are for a reader are left out: its description and its recommendation. The score
-- is a float that starts at 100.0 and loses whole numbers; here it is a number, and since no
-- penalties come to more than 100 (see Diagnostics/Score), it is never cut at 0.
pub mod Score
use drigs.Prelude.{
  ℕ, zero, suc, ◌+◌, ◌-◌, min, max, String, Bool, true, false, ◌&&◌, ◌||◌, Option, none, some, List,
  [], ◌∷◌, ◌++◌, map, sum, ltb, if◌then◌else◌,
}
use drigs.Dict.{lookup, values}
use drigs.Models.{ComputeDevice, DeviceState, DeviceType, Job, JobStatus}
use drigs.Models.JobStatus.{queued, failed}
use drigs.Queue.{JobQueue, get_job}
use drigs.Resources.{ResourceManager, get_available_devices}
use drigs.Execution.Text.{Text}
use drigs.Execution.Isolation.{given}

pub data DiagnosticSeverity : Type 0 where
  info warning error critical : DiagnosticSeverity

pub data Category : Type 0 where
  vram cpu worker execution : Category

pub data Title : Type 0 where
  job_not_found execution_failed no_available_gpus vram_exceeded cpu_bottleneck : Title
  healthy_state : Title
  worker_degraded : DeviceState → Title

pub record DiagnosticFinding : Type 0 where
  pub category : Category
  pub severity : DiagnosticSeverity
  pub title : Title

pub record DiagnosticReport : Type 0 where
  pub job_id : String
  pub job_name : String
  pub status : JobStatus
  pub health_score : ℕ
  pub findings : List DiagnosticFinding

-- A finding with what it takes off the score.
abbrev pub Penalty : Type 0
Penalty = ℕ × DiagnosticFinding

abbrev pub finding : Category → DiagnosticSeverity → Title → DiagnosticFinding
finding category severity title = record { category = category; severity = severity; title = title }

abbrev pub is_failed : JobStatus → Bool
is_failed failed = true
is_failed _ = false

abbrev pub is_queued : JobStatus → Bool
is_queued queued = true
is_queued _ = false

-- job.error_message or "Unknown execution error", in lower case
abbrev message : Text → Job → String
message t job =
    t.lower (elim (given job.error_message) [ none ↦ "Unknown execution error" | some s ↦ s ])

-- What an error message is about.
unfoldable pub error_category : Text → String → Category
error_category t s =
    if t.mentions "vram" s || t.mentions "memory" s || t.mentions "oom" s
    then vram
    else if t.mentions "worker" s || t.mentions "timeout" s
    then worker
    else execution

unfoldable pub failure_findings : Text → Job → List Penalty
failure_findings t job =
    if is_failed job.status
    then (50, finding (error_category t (message t job)) error execution_failed) ∷ []
    else []

unfoldable pub gpus_of : List ComputeDevice → List ComputeDevice
gpus_of [] = []
gpus_of (d ∷ ds) =
    let rest = gpus_of ds in
    elim d.device_type [
      | DeviceType.gpu ↦ d ∷ rest
      | DeviceType.cpu ↦ rest
      | DeviceType.accelerator ↦ rest
    ]

-- max(g.total_memory_bytes for g in gpus)
abbrev pub max_vram : List ComputeDevice → ℕ
max_vram [] = 0
max_vram (g ∷ gs) = max g.total_memory_bytes (max_vram gs)

unfoldable pub gpu_findings : ℕ → ℕ → List ComputeDevice → List Penalty
gpu_findings gpus memory [] =
    if ltb 0 gpus then (30, finding vram warning no_available_gpus) ∷ [] else []
gpu_findings gpus memory (g ∷ gs) =
    if ltb 0 memory && ltb (max_vram (g ∷ gs)) memory
    then (40, finding vram critical vram_exceeded) ∷ []
    else []

unfoldable pub cpu_findings : ℕ → ℕ → List Penalty
cpu_findings cpus total =
    if ltb total cpus && ltb 0 total then (30, finding cpu warning cpu_bottleneck) ∷ [] else []

-- The devices that a manager offers, and the cores of its workers; none without a manager.
abbrev pub offered : Option ResourceManager → List ComputeDevice
offered none = []
offered (some m) = get_available_devices none m

abbrev pub all_cpus : Option ResourceManager → ℕ
all_cpus none = 0
all_cpus (some m) = sum (map (λ w. w.total_cpus) (values m.workers))

unfoldable pub queue_findings : Option ResourceManager → Job → List Penalty
unfolding gpu_findings cpu_findings gpus_of
queue_findings manager job =
    let req = job.spec.resources in
    if is_queued job.status
    then gpu_findings req.gpus req.gpu_memory_bytes (gpus_of (offered manager))
      ++ cpu_findings req.cpus (all_cpus manager)
    else []

unfoldable pub degraded_worker : DeviceState → List Penalty
degraded_worker DeviceState.healthy = []
degraded_worker s = (30, finding worker warning (worker_degraded s)) ∷ []

unfoldable pub worker_findings : Option ResourceManager → Job → List Penalty
unfolding degraded_worker
worker_findings none job = []
worker_findings (some m) job = elim job.allocation [
  | none ↦ []
  | some a ↦ elim (lookup a.worker_id m.workers) [ none ↦ [] | some w ↦ degraded_worker w.status ]
]

abbrev pub all_findings : Text → Option ResourceManager → Job → List Penalty
all_findings t manager job =
    (failure_findings t job ++ queue_findings manager job) ++ worker_findings manager job

abbrev pub or_healthy : List DiagnosticFinding → List DiagnosticFinding
or_healthy [] = finding execution info healthy_state ∷ []
or_healthy (f ∷ fs) = f ∷ fs

abbrev pub penalties : List Penalty → ℕ
penalties found = sum (map (λ p. p.0) found)

unfoldable pub analyze_job : Text → JobQueue → Option ResourceManager → String → DiagnosticReport
unfolding failure_findings queue_findings worker_findings
analyze_job t queue manager job_id = elim (get_job job_id queue) [
  | none ↦ record {
    job_id = job_id;
    job_name = "Unknown";
    status = failed;
    health_score = 0;
    findings = finding execution critical job_not_found ∷ [];
  }
  | some job ↦
      let found = all_findings t manager job in
      record {
        job_id = job.job_id;
        job_name = job.name;
        status = job.status;
        health_score = min 100 (100 - penalties found);
        findings = or_healthy (map (λ p. p.1) found);
      }
]
