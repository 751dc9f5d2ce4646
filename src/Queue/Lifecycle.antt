-- ===== src/Queue/Lifecycle.antt =====
-- What the history of a queue can make of a tracked job: its status follows the transition table, a
-- finished job stays finished, and its times agree with its status.
use drigs.Prelude.{
  ℕ, String, ◌≡◌, ◌≢◌, refl, sym, ap, subst, ◌∙◌, true, Option, some, List, [], ◌∷◌, arith,
  dec_text, All, inl, inr, ◌⊎◌,
}
use drigs.Dict.{lookup, lookup-put, lookup-remove}
use drigs.Models.{Job, JobStatus, JobStatus-discrete}
use drigs.Models.JobStatus.{completed, failed, cancelled}
use drigs.Result.{ok, after}
use drigs.Queue.{
  JobQueue, valid_transitions, allowed, validate_status_transition, enqueue, accept, as_queued,
  dequeue, remove_job, update_job_status, updated, is_terminal, first_of_pair, Call, enqueues,
  dequeues, removes, updates, step, run, sort_queue,
}
use drigs.Queue.Calls.{update_cases}

-- A path of the transition table.
pub data Reaches (s : JobStatus) : JobStatus → Type 0 where
  here : Reaches s s
  then_to : {t u : JobStatus} → Reaches s t → allowed u (valid_transitions t) ≡ true → Reaches s u

-- The job is tracked, with a status that its old one leads to, and all that identifies it.
pub record Evolves (q : JobQueue) (id : String) (job : Job) : Type 0 where
  pub job' : Job
  pub found : lookup id q.jobs ≡ some job'
  pub reaches : Reaches job.status job'.status
  pub same_name : job'.name ≡ job.name
  pub same_priority : job'.priority ≡ job.priority
  pub same_spec : job'.spec ≡ job.spec
  pub same_time : job'.submitted_at ≡ job.submitted_at

-- A transition that is let through is none, or one of the table.
pub transition_cases :
    (s t : JobStatus)
    → validate_status_transition s t ≡ ok tt
    → (s ≡ t) ⊎ (allowed t (valid_transitions s) ≡ true)
unfolding validate_status_transition
transition_cases s t h = elim (JobStatus-discrete s t) [ yes e ↦ inl e | no n ↦ inr (ground arith) ]

Reaches-by :
    {r : JobStatus} (s t : JobStatus)
    → Reaches r s
    → validate_status_transition s t ≡ ok tt
    → Reaches r t
Reaches-by {r} s t p h = elim (transition_cases s t h) [
  | inl e ↦ subst (Reaches r) e p
  | inr a ↦ then_to p a
]

updated_fields :
    (now : ℕ) (new : JobStatus) (message : Option String) (job : Job)
    → ((updated now new message job).name ≡ job.name)
      × ((updated now new message job).priority ≡ job.priority)
      × ((updated now new message job).spec ≡ job.spec)
      × ((updated now new message job).submitted_at ≡ job.submitted_at)
      × ((updated now new message job).status ≡ new)
updated_fields now new message job = ground arith

-- `c` does not take the job out of the tracked ones.
abbrev pub Keeps : String → ℕ × Call → Type 0
Keeps id (now, removes other) = other ≢ id
Keeps id (now, _) = Unit

pub jobs-dequeue : (q : JobQueue) → (dequeue q).0.jobs ≡ q.jobs
unfolding dequeue
jobs-dequeue q = ground arith

module _ (id : String) where
  jobs-enqueue :
      (new : Job) (q : JobQueue) (job : Job)
      → lookup id q.jobs ≡ some job
      → lookup id (after q (enqueue new q)).jobs ≡ some job
  unfolding enqueue accept sort_queue
  jobs-enqueue new q job e =
      ground (arith, lookup-put (as_queued new).job_id id (as_queued new) q.jobs)

  jobs-remove :
      (other : String) (q : JobQueue)
      → other ≢ id
      → lookup id (remove_job other q).0.jobs ≡ lookup id q.jobs
  unfolding remove_job
  jobs-remove other q n = ground (arith, lookup-remove other id q.jobs)

  update-Evolves :
      (now : ℕ) (other : String) (new : JobStatus) (message : Option String) (q : JobQueue)
      (job : Job)
      → Evolves q id job
      → Evolves (after q (first_of_pair (update_job_status now other new message q))) id job
  update-Evolves now other new message q job v = elim (update_cases now other new message q) [
    | inl e ↦ subst (λ r. Evolves r id job) (sym e) v
    | inr (old, e, o, done) ↦
        subst (λ r. Evolves r id job) (sym done)
          (elim (dec_text other id) [
            | yes p ↦
                let same : old ≡ v.job' = ground (arith, v.found) in
                let f = updated_fields now new message old in
                record {
                  job' = updated now new message old;
                  found = ground (arith, lookup-put other id (updated now new message old) q.jobs);
                  reaches = subst (Reaches job.status) (sym f.4) (
                      Reaches-by old.status new
                        (subst (λ (j : Job). Reaches job.status j.status) (sym same) v.reaches) o);
                  same_name = ground (arith, v.same_name);
                  same_priority = ground (arith, v.same_priority);
                  same_spec = ground (arith, v.same_spec);
                  same_time = ground (arith, v.same_time);
                }
            | no n ↦ record {
              job' = v.job';
              found =
                  ground (arith, lookup-put other id (updated now new message old) q.jobs, v.found);
              reaches = v.reaches;
              same_name = v.same_name;
              same_priority = v.same_priority;
              same_spec = v.same_spec;
              same_time = v.same_time;
            }
          ])
  ]

  moved :
      (q r : JobQueue) (job : Job)
      → ((j : Job) → lookup id q.jobs ≡ some j → lookup id r.jobs ≡ some j)
      → Evolves q id job
      → Evolves r id job
  moved q r job keep v = record {
    job' = v.job';
    found = keep v.job' v.found;
    reaches = v.reaches;
    same_name = v.same_name;
    same_priority = v.same_priority;
    same_spec = v.same_spec;
    same_time = v.same_time;
  }

  step-Evolves :
      (c : ℕ × Call) (q : JobQueue) (job : Job)
      → Keeps id c
      → Evolves q id job
      → Evolves (step c q) id job
  unfolding step
  step-Evolves (now, enqueues new) q job k v = moved q _ job (jobs-enqueue new q) v
  step-Evolves (now, dequeues) q job k v =
      moved q _ job (λ j e. ap (lookup id) (jobs-dequeue q) ∙ e) v
  step-Evolves (now, removes other) q job k v = moved q _ job (λ j e. jobs-remove other q k ∙ e) v
  step-Evolves (now, updates other new message) q job k v =
      update-Evolves now other new message q job v

  run-Evolves_from :
      (cs : List (ℕ × Call)) (q : JobQueue) (job : Job)
      → All (Keeps id) cs
      → Evolves q id job
      → Evolves (run cs q) id job
  unfolding run
  run-Evolves_from [] q job k v = v
  run-Evolves_from (c ∷ cs) q job k v =
      run-Evolves_from cs (step c q) job k.1 (step-Evolves c q job k.0 v)

  -- Whatever calls follow, a tracked job that is not removed is still tracked, with its name,
  -- priority, specification and submission time, and its status has followed the transition table.
  pub run-Evolves :
      (cs : List (ℕ × Call)) (q : JobQueue) (job : Job)
      → lookup id q.jobs ≡ some job
      → All (Keeps id) cs
      → Evolves (run cs q) id job
  run-Evolves cs q job e k = run-Evolves_from cs q job k (record {
    job' = job;
    found = e;
    reaches = here;
    same_name = refl;
    same_priority = refl;
    same_spec = refl;
    same_time = refl;
  })

-- Nothing follows a final status.
final_stays : (s t : JobStatus) → is_terminal s ≡ true → Reaches s t → t ≡ s
final_stays s _ h here = refl
final_stays s _ h (then_to {t = t} {u = u} r a) =
    let e = final_stays s t h r in
    absurd (no_exit s u h (subst (λ x. allowed u (valid_transitions x) ≡ true) e a))
  where
    no_exit : (s u : JobStatus) → is_terminal s ≡ true → allowed u (valid_transitions s) ≡ true → ⊥
    no_exit completed u h a = cc
    no_exit failed u h a = cc
    no_exit cancelled u h a = cc
    no_exit _ u h a = cc

-- A job that is completed, failed or cancelled keeps that status whatever calls follow, unless it is
-- removed.
pub run_final :
    (id : String) (cs : List (ℕ × Call)) (q : JobQueue) (job : Job)
    → lookup id q.jobs ≡ some job
    → is_terminal job.status ≡ true
    → All (Keeps id) cs
    → (job' : Job) × (lookup id (run cs q).jobs ≡ some job') × (job'.status ≡ job.status)
run_final id cs q job e final k =
    let v = run-Evolves id cs q job e k in
    (v.job', v.found, final_stays job.status v.job'.status final v.reaches)
