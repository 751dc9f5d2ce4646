-- ===== src/Recovery/Rescheduler/Requeue.antt =====
-- drigs/recovery/rescheduler.py: which jobs are queued again.
use drigs.Prelude.{
  ℕ, String, ◌≡◌, ◌≢◌, refl, sym, ap, subst, ◌∙◌, Bool, true, false, Option, none, some, arith, inl,
  inr, ◌⊎◌, Bool-cases, ite, dec_text, [], ◌∷◌, if_pos, if_neg, texts_differ,
}
use drigs.Dict.{Dict, lookup, put, lookup-put, lookup-put_self, lookup-put_other}
use drigs.Models.{Job, WorkloadSpec, JobStatus, JobStatus-discrete}
use drigs.Models.JobStatus.{queued, running, recovering}
use drigs.Result.{Result, ok, raise, invalid_transition}
use drigs.Queue.{JobQueue, updated, validate_status_transition}
use drigs.Queue.Updates.{update-ok, update-raise, with_update}
use drigs.Resources.{ResourceManager, deallocate_resources}
use drigs.Recovery.Rescheduler.{
  change_job, change_jobs, without_allocation, restoring, restoring_shared, restore_shared,
  reschedule_job, may_recover,
}

recover_ok :
    (s : JobStatus) → may_recover s ≡ true → validate_status_transition s recovering ≡ ok tt
unfolding validate_status_transition JobStatus-discrete
recover_ok running a = refl
recover_ok recovering a = refl
recover_ok JobStatus.pending a = cc
recover_ok queued a = cc
recover_ok JobStatus.scheduled a = cc
recover_ok JobStatus.completed a = cc
recover_ok JobStatus.failed a = cc
recover_ok JobStatus.cancelled a = cc

recover_raise :
    (s : JobStatus)
    → may_recover s ≡ false
    → validate_status_transition s recovering ≡ raise (invalid_transition s recovering)
unfolding validate_status_transition JobStatus-discrete
recover_raise running a = cc
recover_raise recovering a = cc
recover_raise JobStatus.pending a = refl
recover_raise queued a = refl
recover_raise JobStatus.scheduled a = refl
recover_raise JobStatus.completed a = refl
recover_raise JobStatus.failed a = refl
recover_raise JobStatus.cancelled a = refl

queued_ok : validate_status_transition recovering queued ≡ ok tt
unfolding validate_status_transition JobStatus-discrete
queued_ok = refl

change_job_of :
    (id : String) (f : Job → Job) (q : JobQueue) (job : Job)
    → lookup id q.jobs ≡ some job
    → change_job id f q ≡ record q { jobs = put id (f job) q.jobs }
change_job_of id f q job e = rw (change_job, e)

lookup-change_job :
    (id i : String) (f : Job → Job) (q : JobQueue) (job : Job)
    → lookup id q.jobs ≡ some job
    → lookup i (change_job id f q).jobs ≡ ite (dec_text id i) (some (f job)) (lookup i q.jobs)
lookup-change_job id i f q job e =
    rw (ap (λ q'. lookup i q'.jobs) (change_job_of id f q job e)) (lookup-put id i (f job) q.jobs)

lookup-change_jobs :
    (i : String) (f : String → Job → Job) (jobs : Dict Job)
    → lookup i (change_jobs f jobs)
      ≡ elim (lookup i jobs) [ none ↦ none | some job ↦ some (f i job) ]
unfolding change_jobs lookup
lookup-change_jobs i f [] = refl
lookup-change_jobs i f ((k, job) ∷ jobs) = elim (dec_text k i) [
  | yes p ↦
      if_pos (dec_text k i) p (some (f k job)) _
      ∙ ap (λ (x : String). some (f x job)) p
      ∙ ap (λ (o : Option Job). elim o [ none ↦ none | some j ↦ some (f i j) ])
          (sym (if_pos (dec_text k i) p (some job) (lookup i jobs)))
  | no n ↦
      if_neg (dec_text k i) n (some (f k job)) _
      ∙ lookup-change_jobs i f jobs
      ∙ ap (λ (o : Option Job). elim o [ none ↦ none | some j ↦ some (f i j) ])
          (sym (if_neg (dec_text k i) n (some job) (lookup i jobs)))
]

-- The specification with the checkpoint, if there is one, in its variables, and nothing else
-- changed.
unfoldable pub IsRestored : Option (String × String) → WorkloadSpec → WorkloadSpec → Type 0
IsRestored none before after = after ≡ before
IsRestored (some (step, path)) before after =
    (lookup "DRIGS_RESTORE_STEP" after.execution.env ≡ some step)
    × (lookup "DRIGS_RESTORE_CHECKPOINT" after.execution.env ≡ some path)
    × ((k : String)
        → "DRIGS_RESTORE_STEP" ≢ k
        → "DRIGS_RESTORE_CHECKPOINT" ≢ k
        → lookup k after.execution.env ≡ lookup k before.execution.env)
    × (record after { execution = record after.execution { env = before.execution.env } } ≡ before)

restoring-IsRestored :
    (latest : Option (String × String)) (job : Job)
    → IsRestored latest job.spec (restoring latest job).spec
unfolding IsRestored
restoring-IsRestored none job = refl
restoring-IsRestored (some (step, path)) job =
    let env = job.spec.execution.env in
    let with_path = put "DRIGS_RESTORE_CHECKPOINT" path env in
    (
      lookup-put_self "DRIGS_RESTORE_STEP" step with_path,
      lookup-put_other "DRIGS_RESTORE_STEP" "DRIGS_RESTORE_CHECKPOINT" step with_path
            (texts_differ "DRIGS_RESTORE_STEP" "DRIGS_RESTORE_CHECKPOINT" refl)
          ∙ lookup-put_self "DRIGS_RESTORE_CHECKPOINT" path env,
      λ k n o.
          lookup-put_other "DRIGS_RESTORE_STEP" k step with_path n
          ∙ lookup-put_other "DRIGS_RESTORE_CHECKPOINT" k path env o,
      refl,
    )

restoring_spec_only :
    (latest : Option (String × String)) (job : Job)
    → record (restoring latest job) { spec = job.spec } ≡ job
restoring_spec_only none job = refl
restoring_spec_only (some (step, path)) job = refl

module _ (changed_at : JobStatus → ℕ) (shares : String → Bool) (latest : Option (String × String))
    (id reason : String) (q : JobQueue) (m : ResourceManager) (job : Job)
    (found : lookup id q.jobs ≡ some job) where
  abbrev answer : (JobQueue × ResourceManager) × Result Bool
  answer = reschedule_job changed_at shares latest id reason (q, m)

  abbrev cleared : JobQueue
  cleared = change_job id without_allocation q

  -- The job once it is RECOVERING, and then with its checkpoint.
  abbrev marked_job : Job
  marked_job = updated (changed_at recovering) recovering (some reason) (without_allocation job)

  abbrev marked : JobQueue
  marked =
      with_update (changed_at recovering) id recovering (some reason) (without_allocation job)
        cleared

  abbrev restored : JobQueue
  restored = restore_shared id shares latest marked

  abbrev requeued_job : Job
  requeued_job = updated (changed_at queued) queued none (restoring latest marked_job)

  abbrev requeued : JobQueue
  requeued = with_update (changed_at queued) id queued none (restoring latest marked_job) restored

  -- The queue has the job waiting, without an allocation, with its checkpoint among its variables;
  -- of another job nothing is changed but the variables, and those only if it shares them.
  pub record IsRequeued (q' : JobQueue) : Type 0 where
    pub job' : Job
    pub tracked : lookup id q'.jobs ≡ some job'
    pub status : job'.status ≡ queued
    pub unallocated : job'.allocation ≡ none
    pub environment : IsRestored latest job.spec job'.spec
    pub priority : job'.priority ≡ job.priority
    pub others : (i : String) → id ≢ i → shares i ≡ false → lookup i q'.jobs ≡ lookup i q.jobs
    pub sharing :
        (i : String) (other : Job)
        → id ≢ i
        → shares i ≡ true
        → lookup i q.jobs ≡ some other
        → (other' : Job) × ((lookup i q'.jobs ≡ some other')
            × IsRestored latest other.spec other'.spec
            × (record other' { spec = other.spec } ≡ other))
    pub unknown : (i : String) → lookup i q.jobs ≡ none → lookup i q'.jobs ≡ none
    pub entries : q'.queue ≡ q.queue

  in_cleared : lookup id cleared.jobs ≡ some (without_allocation job)
  in_cleared = ground (arith, lookup-change_job id id without_allocation q job found)

  in_marked : lookup id marked.jobs ≡ some marked_job
  in_marked = ground (arith, lookup-put id id marked_job cleared.jobs)

  in_restored : lookup id restored.jobs ≡ some (restoring latest marked_job)
  in_restored =
      ground
        (arith, lookup-change_jobs id (restoring_shared id shares latest) marked.jobs, in_marked)

  restored_status : (r : Option (String × String)) (j : Job) → (restoring r j).status ≡ j.status
  restored_status none j = refl
  restored_status (some (step, path)) j = refl

  restored_queued : validate_status_transition (restoring latest marked_job).status queued ≡ ok tt
  restored_queued =
      let same : (restoring latest marked_job).status ≡ recovering =
        restored_status latest marked_job ∙ ground arith in
      subst (λ s. validate_status_transition s queued ≡ ok tt) (sym same) queued_ok

  answer_requeued :
      may_recover job.status ≡ true → answer ≡ ((requeued, (deallocate_resources id m).0), ok true)
  unfolding reschedule_job
  answer_requeued r =
      let first =
        update-ok (changed_at recovering) id recovering (some reason) cleared
          (without_allocation job) in_cleared (recover_ok job.status r) in
      let second =
        update-ok (changed_at queued) id queued none restored (restoring latest marked_job)
          in_restored restored_queued in
      rw (reschedule_job, found, first, second)

  answer_refused :
      may_recover job.status ≡ false
      → answer ≡ (
        (cleared, (deallocate_resources id m).0),
        raise (invalid_transition job.status recovering),
      )
  unfolding reschedule_job
  answer_refused r =
      let first =
        update-raise (changed_at recovering) id recovering (some reason) cleared
          (without_allocation job) in_cleared (invalid_transition job.status recovering)
          (recover_raise job.status r) in
      rw (reschedule_job, found, first)

  restored_spec :
      (r : Option (String × String)) (j k : Job)
      → j.spec ≡ k.spec
      → (restoring r j).spec ≡ (restoring r k).spec
  restored_spec none j k e = e
  restored_spec (some (step, path)) j k e = rw e

  restored_rest :
      (r : Option (String × String)) (j : Job)
      → ((restoring r j).priority ≡ j.priority) × ((restoring r j).allocation ≡ j.allocation)
  restored_rest none j = (refl, refl)
  restored_rest (some (step, path)) j = (refl, refl)

  requeued-IsRequeued : IsRequeued requeued
  requeued-IsRequeued = record {
    job' = requeued_job;
    tracked = ground (arith, lookup-put id id requeued_job restored.jobs);
    status = ground arith;
    unallocated = kept_allocation ∙ ((restored_rest latest marked_job).1 ∙ ground arith);
    environment =
        subst (IsRestored latest job.spec)
          (sym (kept_spec ∙ restored_spec latest marked_job job (ground arith)))
          (restoring-IsRestored latest job);
    priority = kept_priority ∙ ((restored_rest latest marked_job).0 ∙ ground arith);
    others = λ i n s. ground (arith, n, s, elsewhere i n);
    sharing = λ i other n s e. (
      restoring latest other,
      (
        ground (arith, n, s, e, elsewhere i n),
        restoring-IsRestored latest other,
        restoring_spec_only latest other,
      ),
    );
    unknown = λ i e. ground (arith, e, found, elsewhere i);
    entries = ap (λ x. x.queue) (change_job_of id without_allocation q job found);
  }
    where
      elsewhere :
          (i : String)
          → id ≢ i
          → lookup i requeued.jobs ≡ elim (lookup i q.jobs) [
            | none ↦ none
            | some other ↦ some (restoring_shared id shares latest i other)
          ]
      elsewhere i n =
          let put_last = lookup-put_other id i requeued_job restored.jobs n in
          let put_first = lookup-put_other id i marked_job cleared.jobs n in
          let clear : lookup i cleared.jobs ≡ lookup i q.jobs =
            ground (arith, n, lookup-change_job id i without_allocation q job found) in
          put_last
          ∙ lookup-change_jobs i (restoring_shared id shares latest) marked.jobs
          ∙ ap
              (λ (o : Option Job). elim o [
                | none ↦ none
                | some other ↦ some (restoring_shared id shares latest i other)
              ])
              (put_first ∙ clear)

      kept_spec : requeued_job.spec ≡ (restoring latest marked_job).spec
      kept_spec = ground arith

      kept_allocation : requeued_job.allocation ≡ (restoring latest marked_job).allocation
      kept_allocation = ground arith

      kept_priority : requeued_job.priority ≡ (restoring latest marked_job).priority
      kept_priority = ground arith

  -- For a tracked job, of whatever status, the resources are deallocated. If it is RUNNING or
  -- RECOVERING the answer is True, and the queue has it QUEUED, without an allocation, and with the
  -- file and the step of its latest checkpoint, if there is one, among its variables; so have the
  -- jobs that share its variables, which are otherwise as they were, as all other jobs are. In any
  -- other status, FAILED included, StateTransitionError is raised, and the job has lost its
  -- allocation all the same.
  pub reschedule_job-Outcome :
      (answer.0.1 ≡ (deallocate_resources id m).0)
      × (((may_recover job.status ≡ true) × (answer.1 ≡ ok true) × IsRequeued answer.0.0)
          ⊎ ((may_recover job.status ≡ false)
              × (answer.1 ≡ raise (invalid_transition job.status recovering))
              × (lookup id answer.0.0.jobs ≡ some (without_allocation job))))
  reschedule_job-Outcome = elim (Bool-cases (may_recover job.status)) [
    | inl r ↦
        let e = answer_requeued r in
        (
          ap (λ a. a.0.1) e,
          inl (r, ap (λ a. a.1) e, subst (λ a. IsRequeued a.0.0) (sym e) requeued-IsRequeued),
        )
    | inr r ↦
        let e = answer_refused r in
        (
          ap (λ a. a.0.1) e,
          inr (
            r,
            ap (λ a. a.1) e,
            subst (λ a. lookup id a.0.0.jobs ≡ some (without_allocation job)) (sym e) in_cleared,
          ),
        )
  ]
