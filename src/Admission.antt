-- ===== src/Admission.antt =====
-- drigs/core/queue.py, AdmissionController. The counts of a request are natural numbers, as its
-- pydantic model requires, so the three tests for a negative number never pass and are left out.
use Prim.Native.Char.{code}
use drigs.Prelude.{
  ℕ, String, Bool, true, false, ◌||◌, ◌&&◌, Option, none, some, ltb, leb, ◌==◌, is_empty, ite,
  if◌then◌else◌,
}
use drigs.Models.{Job, JobStatus, JobStatus-discrete, Entrypoint}
use drigs.Result.{
  Result, ok, raise, Rejection, empty_name, empty_spec_name, empty_entrypoint, no_cpus, gpu_limit,
  cpu_limit, admission_error,
}

-- The code points that `str.strip` removes.
abbrev is_space : ℕ → Bool
is_space c =
    (leb 9 c && leb c 13)
    || (leb 28 c && leb c 32)
    || c == 133
    || c == 160
    || c == 5760
    || (leb 8192 c && leb c 8202)
    || c == 8232
    || c == 8233
    || c == 8239
    || c == 8287
    || c == 12288

-- `not s or not s.strip()`
unfoldable pub is_blank : String → Bool
is_blank String.[] = true
is_blank (String.◌∷◌ c s) = let rest = is_blank s in is_space (code c) && rest

pub record AdmissionController : Type 0 where
  pub max_gpu_limit : Option ℕ
  pub max_cpu_limit : Option ℕ

-- `not entrypoint`
abbrev pub no_entrypoint : Entrypoint → Bool
no_entrypoint (Entrypoint.text String.[]) = true
no_entrypoint (Entrypoint.text (String.◌∷◌ c s)) = false
no_entrypoint (Entrypoint.words ws) = is_empty ws

-- `limit is not None and n > limit`
abbrev pub exceeds : ℕ → Option ℕ → Bool
exceeds n none = false
exceeds n (some limit) = ltb limit n

-- `none` is the answer `(True, None)`.
unfoldable pub validate_job : AdmissionController → Job → Option Rejection
validate_job c job =
    if is_blank job.name
    then some empty_name
    else if is_blank job.spec.name
    then some empty_spec_name
    else if no_entrypoint job.spec.execution.entrypoint
    then some empty_entrypoint
    else if ltb job.spec.resources.cpus 1
    then some no_cpus
    else if exceeds job.spec.resources.gpus c.max_gpu_limit
    then some gpu_limit
    else if exceeds job.spec.resources.cpus c.max_cpu_limit
    then some cpu_limit
    else none

unfoldable pub admit_job : AdmissionController → Job → Result Job
admit_job c job = elim (validate_job c job) [
  | some reason ↦ raise (admission_error reason)
  | none ↦ ok (
      ite (JobStatus-discrete job.status JobStatus.pending)
        (record job { status = JobStatus.queued }) job)
]
