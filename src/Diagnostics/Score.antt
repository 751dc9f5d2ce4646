-- ===== src/Diagnostics/Score.antt =====
-- DiagnosticAnalyzer.analyze_job in drigs/diagnostics/analyzer.py: the score and the findings.
use drigs.Prelude.{
  ℕ, ◌+◌, ◌-◌, ◌≤◌, min, String, ◌≡◌, ◌≢◌, refl, sym, true, false, Option, none, some, List, [],
  ◌∷◌, ◌++◌, map, ltb, arith, All, All-append, Bool-cases, Option-cases, inl, inr, ◌&&◌,
}
use drigs.Dict.{lookup}
use drigs.Models.{ComputeDevice, DeviceState, Job, JobStatus}
use drigs.Queue.{JobQueue, get_job}
use drigs.Resources.{ResourceManager}
use drigs.Execution.Text.{Text}
use drigs.Diagnostics.{
  Penalty, penalties, is_failed, is_queued, failure_findings, gpu_findings, cpu_findings,
  queue_findings, degraded_worker, worker_findings, all_findings, analyze_job, finding, max_vram,
  DiagnosticReport, execution, info, healthy_state, gpus_of, offered, all_cpus, or_healthy,
}

-- The penalties come to at most `most`, and each of them is 30 at least.
AtMost : ℕ → List Penalty → Type 0
AtMost most found = (penalties found ≤ most) × All (λ p. 30 ≤ p.0) found

penalties-append : (xs ys : List Penalty) → penalties (xs ++ ys) ≡ penalties xs + penalties ys
penalties-append [] ys = omega arith
penalties-append (x ∷ xs) ys = omega (arith, penalties-append xs ys)

append-AtMost :
    (m n : ℕ) (xs ys : List Penalty) → AtMost m xs → AtMost n ys → AtMost (m + n) (xs ++ ys)
unfolding AtMost
append-AtMost m n xs ys h k =
    (omega (arith, h.0, k.0, penalties-append xs ys), All-append (λ p. 30 ≤ p.0) xs ys h.1 k.1)

gpu_findings-AtMost :
    (gpus memory : ℕ) (ds : List ComputeDevice) → AtMost 40 (gpu_findings gpus memory ds)
unfolding gpu_findings AtMost
gpu_findings-AtMost gpus memory [] = elim (Bool-cases (ltb 0 gpus)) [
  | inl e ↦ rw e (omega arith, (omega arith, tt))
  | inr e ↦ rw e (omega arith, tt)
]
gpu_findings-AtMost gpus memory (g ∷ gs) =
    elim (Bool-cases (ltb 0 memory && ltb (max_vram (g ∷ gs)) memory)) [
      | inl e ↦ rw e (omega arith, (omega arith, tt))
      | inr e ↦ rw e (omega arith, tt)
    ]

cpu_findings-AtMost : (cpus total : ℕ) → AtMost 30 (cpu_findings cpus total)
unfolding cpu_findings AtMost
cpu_findings-AtMost cpus total = elim (Bool-cases (ltb total cpus && ltb 0 total)) [
  | inl e ↦ rw e (omega arith, (omega arith, tt))
  | inr e ↦ rw e (omega arith, tt)
]

degraded_worker-AtMost : (s : DeviceState) → AtMost 30 (degraded_worker s)
unfolding degraded_worker AtMost
degraded_worker-AtMost DeviceState.healthy = (omega arith, tt)
degraded_worker-AtMost _ = (omega arith, (omega arith, tt))

worker_findings-AtMost :
    (manager : Option ResourceManager) (job : Job) → AtMost 30 (worker_findings manager job)
unfolding worker_findings AtMost
worker_findings-AtMost none job = (omega arith, tt)
worker_findings-AtMost (some m) job = elim (Option-cases job.allocation) [
  | inl e ↦ rw (worker_findings, e) (omega arith, tt)
  | inr (a, e) ↦ elim (Option-cases (lookup a.worker_id m.workers)) [
    | inl g ↦ rw (worker_findings, e, g) (omega arith, tt)
    | inr (w, g) ↦ rw (worker_findings, e, g) (degraded_worker-AtMost w.status)
  ]
]

not_both : (s : JobStatus) → is_failed s ≡ true → is_queued s ≡ false
not_both JobStatus.failed e = refl
not_both JobStatus.queued e = sym e
not_both _ e = refl

status_findings-AtMost :
    (t : Text) (manager : Option ResourceManager) (job : Job)
    → AtMost 70 (failure_findings t job ++ queue_findings manager job)
unfolding failure_findings queue_findings AtMost
status_findings-AtMost t manager job =
    let req = job.spec.resources in
    let gpus = gpus_of (offered manager) in
    elim (Bool-cases (is_failed job.status)) [
      | inl e ↦
          rw (failure_findings, queue_findings, e, not_both job.status e)
            (omega arith, (omega arith, tt))
      | inr e ↦ elim (Bool-cases (is_queued job.status)) [
        | inr q ↦ rw (failure_findings, queue_findings, e, q) (omega arith, tt)
        | inl q ↦
            rw (failure_findings, queue_findings, e, q)
              (append-AtMost 40 30 (gpu_findings req.gpus req.gpu_memory_bytes gpus)
                (cpu_findings req.cpus (all_cpus manager))
                (gpu_findings-AtMost req.gpus req.gpu_memory_bytes gpus)
                (cpu_findings-AtMost req.cpus (all_cpus manager)))
      ]
    ]

all_findings-AtMost :
    (t : Text) (manager : Option ResourceManager) (job : Job)
    → AtMost 100 (all_findings t manager job)
all_findings-AtMost t manager job =
    append-AtMost 70 30 (failure_findings t job ++ queue_findings manager job)
      (worker_findings manager job) (status_findings-AtMost t manager job)
      (worker_findings-AtMost manager job)

-- The report `r` on what was found.
pub record IsScored (found : List Penalty) (r : DiagnosticReport) : Type 0 where
  pub total : r.health_score + penalties found ≡ 100
  pub healthy : r.health_score ≡ 100 → r.findings ≡ finding execution info healthy_state ∷ []
  pub troubled : r.health_score ≢ 100 → (r.findings ≡ map (λ p. p.1) found) × (r.health_score ≤ 70)

scored :
    (job : Job) (found : List Penalty)
    → AtMost 100 found
    → IsScored found (record {
      job_id = job.job_id;
      job_name = job.name;
      status = job.status;
      health_score = min 100 (100 - penalties found);
      findings = or_healthy (map (λ p. p.1) found);
    })
unfolding AtMost
scored job [] h = record {
  total = omega arith;
  healthy = λ e. refl;
  troubled = λ n. absurd (n (omega arith));
}
scored job (p ∷ found) h = record {
  total = omega (arith, h.0);
  healthy = λ e. absurd (omega (arith, e, h.0, h.1.0));
  troubled = λ n. (refl, omega (arith, h.0, h.1.0));
}

-- For a tracked job, the score and the penalties of what was found come to 100, so the score is
-- never cut; a score of 100 comes with the one finding that the job is healthy, and any other score
-- is at most 70 and comes with the findings that lowered it.
pub analyze_job-IsScored :
    (t : Text) (queue : JobQueue) (manager : Option ResourceManager) (job_id : String) (job : Job)
    → get_job job_id queue ≡ some job
    → IsScored (all_findings t manager job) (analyze_job t queue manager job_id)
unfolding analyze_job
analyze_job-IsScored t queue manager job_id job e =
    rw (analyze_job, e)
      (scored job (all_findings t manager job) (all_findings-AtMost t manager job))
