-- ===== src/Queue/Calls.antt =====
-- Every call keeps a JobQueue well-formed, and `dequeue` returns the first queued job.
use drigs.Prelude.{
  ℕ, String, ◌≡◌, ◌≢◌, refl, sym, ap, subst, ◌∙◌, Bool, true, false, Option, none, some, List, [],
  ◌∷◌, arith, contains, All, All-map, inl, inr, ◌⊎◌, Bool-cases, Option-cases,
}
use drigs.Prelude.Sort.{IsSorted}
use drigs.Dict.{Dict, lookup, put, remove, lookup-put, lookup-remove}
use drigs.Models.{Job, JobStatus}
use drigs.Result.{ok, after, Result-cases}
use drigs.Storage.{save_job}
use drigs.Queue.{
  JobQueue, new_queue, le_id, dequeue, pop_queued, remove_job, drop_id, update_job_status,
  validate_status_transition, updated, queued_in, first_of_pair, Call, enqueues, dequeues, removes,
  updates, step, run, stored,
}
use drigs.Queue.Invariant.{
  IsValid, Tracked, new_queue-IsValid, enqueue-IsValid, All-drop_id, Distinct-drop_id,
  IsSorted-drop_id, others_of_drop_id, Tracked-put,
}

-- What `pop_queued` finds: the first queued entry, and the queue without it.
pub pop_queued-some :
    (jobs : Dict Job) (ids others : List String) (found : String)
    → pop_queued jobs ids ≡ some (found, others)
    → (queued_in jobs found ≡ true) × (others ≡ drop_id found ids) × (contains ids found ≡ true)
unfolding pop_queued drop_id contains
pop_queued-some jobs [] others found h = cc
pop_queued-some jobs (id ∷ ids) others found h = elim (Bool-cases (queued_in jobs id)) [
  | inl b ↦
      let h' : ◌≡◌ {A = Option (String × List String)} (some (id, ids)) (some (found, others)) =
        rw (b, pop_queued) at h in
      ground arith
  | inr b ↦ elim (Option-cases (pop_queued jobs ids)) [
    | inl e ↦ cc (rw (b, e, pop_queued) at h)
    | inr ((f, rest), e) ↦
        let h' : ◌≡◌ {A = Option (String × List String)} (some (f, id ∷ rest))
            (some (found, others)) =
          rw (b, e, pop_queued) at h in
        let ih = pop_queued-some jobs ids rest f e in ground arith
  ]
]

drop-IsValid :
    (q : JobQueue) (id : String) → IsValid q → IsValid (record q { queue = drop_id id q.queue })
drop-IsValid q id v = record {
  filed = v.filed;
  distinct = Distinct-drop_id id q.queue v.distinct;
  tracked = All-drop_id _ id q.queue v.tracked;
  ordered = IsSorted-drop_id (le_id q.jobs) id q.queue v.ordered;
}

dequeue-IsValid : (q : JobQueue) → IsValid q → IsValid (dequeue q).0
unfolding dequeue
dequeue-IsValid q v = elim (Option-cases (pop_queued q.jobs q.queue)) [
  | inl e ↦ rw (e, dequeue) v
  | inr ((id, others), e) ↦
      rw (e, dequeue, (pop_queued-some q.jobs q.queue others id e).1) (drop-IsValid q id v)
]

-- The order of two entries does not depend on a third job.
le_id-remove :
    (jobs : Dict Job) (id a b : String)
    → a ≢ id
    → b ≢ id
    → le_id (remove id jobs) a b ≡ le_id jobs a b
le_id-remove jobs id a b na nb = ground (arith, lookup-remove id a jobs, lookup-remove id b jobs)

module _ (le le' : String → String → Bool) (id : String)
    (same : (a b : String) → a ≢ id → b ≢ id → le' a b ≡ le a b) where
  IsSorted-same : (ids : List String) → All (λ x. x ≢ id) ids → IsSorted le ids → IsSorted le' ids
  IsSorted-same [] h s = tt
  IsSorted-same (x ∷ ids) h s = (head ids h.1 s.0, IsSorted-same ids h.1 s.1)
    where
      head :
          (ys : List String)
          → All (λ y. y ≢ id) ys
          → All (λ y. le x y ≡ true) ys
          → All (λ y. le' x y ≡ true) ys
      head [] n l = tt
      head (y ∷ ys) n l = (same x y h.0 n.0 ∙ l.0, head ys n.1 l.1)

Tracked-remove :
    (jobs : Dict Job) (id : String) (ids : List String)
    → All (λ x. x ≢ id) ids
    → Tracked jobs ids
    → Tracked (remove id jobs) ids
Tracked-remove jobs id [] n t = tt
Tracked-remove jobs id (x ∷ ids) n t =
    (ground (arith, n.0, lookup-remove id x jobs), Tracked-remove jobs id ids n.1 t.1)

removed-IsValid :
    (q : JobQueue) (id : String) (s : Option (Dict Job))
    → IsValid q
    → IsValid (record q { jobs = remove id q.jobs; queue = drop_id id q.queue; storage = s })
removed-IsValid q id s v =
    let others = others_of_drop_id id q.queue v.distinct in
    let d = drop-IsValid q id v in
    record {
      filed = λ x job e. ground (arith, lookup-remove id x q.jobs, v.filed x job);
      distinct = d.distinct;
      tracked = Tracked-remove q.jobs id _ others d.tracked;
      ordered =
          IsSorted-same (le_id q.jobs) (le_id (remove id q.jobs)) id (le_id-remove q.jobs id) _
            others d.ordered;
    }

remove-IsValid : (id : String) (q : JobQueue) → IsValid q → IsValid (remove_job id q).0
unfolding remove_job
remove-IsValid id q v = elim (Option-cases (lookup id q.jobs)) [
  | inl e ↦ rw (e, remove_job) v
  | inr (job, e) ↦ rw (e, remove_job) (removed-IsValid q id (stored _ q.storage) v)
]

-- An update leaves alone what the queue is ordered by.
updated_key :
    (now : ℕ) (new : JobStatus) (message : Option String) (job : Job)
    → ((updated now new message job).priority ≡ job.priority)
      × ((updated now new message job).submitted_at ≡ job.submitted_at)
      × ((updated now new message job).job_id ≡ job.job_id)
      × ((updated now new message job).status ≡ new)
updated_key now new message job = ground arith

le_id-put :
    (jobs : Dict Job) (id : String) (job job' : Job) (a b : String)
    → lookup id jobs ≡ some job
    → job'.priority ≡ job.priority
    → job'.submitted_at ≡ job.submitted_at
    → le_id (put id job' jobs) a b ≡ le_id jobs a b
le_id-put jobs id job job' a b e p s =
    ground (arith, lookup-put id a job' jobs, lookup-put id b job' jobs)

pub put-IsValid :
    (q : JobQueue) (id : String) (job job' : Job) (s : Option (Dict Job))
    → IsValid q
    → lookup id q.jobs ≡ some job
    → job'.priority ≡ job.priority
    → job'.submitted_at ≡ job.submitted_at
    → job'.job_id ≡ job.job_id
    → IsValid (record q { jobs = put id job' q.jobs; storage = s })
put-IsValid q id job job' s v e p t i =
    let le_same : le_id (put id job' q.jobs) ≡ le_id q.jobs =
      λ k a b. le_id-put q.jobs id job job' a b e p t k in
    record {
      filed =
          λ x found h. ground (arith, lookup-put id x job' q.jobs, v.filed x found, v.filed id job);
      distinct = v.distinct;
      tracked = Tracked-put q.jobs id job' q.queue v.tracked;
      ordered = subst (λ le. IsSorted le q.queue) (sym le_same) v.ordered;
    }

-- The outcomes of an update: it raises, or it puts the updated job, whose status may follow.
pub update_cases :
    (now : ℕ) (id : String) (new : JobStatus) (message : Option String) (q : JobQueue)
    → (after q (first_of_pair (update_job_status now id new message q)) ≡ q)
      ⊎ ((job : Job) × (lookup id q.jobs ≡ some job)
          × (validate_status_transition job.status new ≡ ok tt)
          × (after q (first_of_pair (update_job_status now id new message q)) ≡ record q {
            jobs = put id (updated now new message job) q.jobs;
            storage = stored (save_job (updated now new message job)) q.storage;
          }))
unfolding update_job_status
update_cases now id new message q = elim (Option-cases (lookup id q.jobs)) [
  | inl e ↦ inl (rw (e, update_job_status))
  | inr (job, e) ↦ elim (Result-cases (validate_status_transition job.status new)) [
    | inl (tt, o) ↦ inr (job, e, o, rw (e, update_job_status, o))
    | inr (err, o) ↦ inl (rw (e, update_job_status, o))
  ]
]

pub update-IsValid :
    (now : ℕ) (id : String) (new : JobStatus) (message : Option String) (q : JobQueue)
    → IsValid q
    → IsValid (after q (first_of_pair (update_job_status now id new message q)))
update-IsValid now id new message q v = elim (update_cases now id new message q) [
  | inl e ↦ subst IsValid (sym e) v
  | inr (job, e, o, done) ↦
      let (p, t, i, s) = updated_key now new message job in
      subst IsValid (sym done) (put-IsValid q id job _ _ v e p t i)
]

pub step-IsValid : (c : ℕ × Call) (q : JobQueue) → IsValid q → IsValid (step c q)
unfolding step
step-IsValid (now, enqueues job) q v = enqueue-IsValid job q v
step-IsValid (now, dequeues) q v = dequeue-IsValid q v
step-IsValid (now, removes id) q v = remove-IsValid id q v
step-IsValid (now, updates id new message) q v = update-IsValid now id new message q v

pub run-IsValid : (cs : List (ℕ × Call)) (q : JobQueue) → IsValid q → IsValid (run cs q)
unfolding run
run-IsValid [] q v = v
run-IsValid (c ∷ cs) q v = run-IsValid cs (step c q) (step-IsValid c q v)

-- After any calls on a new queue, failing ones included: every job is tracked under its own id, an
-- id is queued at most once and only while it is tracked, and the queue is in the order of
-- priority, the earlier submission first among equals.
pub run-new_queue-IsValid :
    (c : Option ℕ) (s : Option (Dict Job)) (cs : List (ℕ × Call)) → IsValid (run cs (new_queue c s))
run-new_queue-IsValid c s cs = run-IsValid cs (new_queue c s) (new_queue-IsValid c s)

-- No queued entry may stand before this one, unless it is an equal.
abbrev pub Leads : JobQueue → String → Type 0
Leads q id = All (λ other. queued_in q.jobs other ≡ true → le_id q.jobs id other ≡ true) q.queue

le_id_refl : (jobs : Dict Job) (a : String) → le_id jobs a a ≡ true
le_id_refl jobs a = ground arith

leads_of_first :
    (jobs : Dict Job) (ids others : List String) (found : String)
    → IsSorted (le_id jobs) ids
    → pop_queued jobs ids ≡ some (found, others)
    → All (λ other. queued_in jobs other ≡ true → le_id jobs found other ≡ true) ids
unfolding pop_queued
leads_of_first jobs [] others found s h = cc
leads_of_first jobs (id ∷ ids) others found s h = elim (Bool-cases (queued_in jobs id)) [
  | inl b ↦
      let h' : ◌≡◌ {A = Option (String × List String)} (some (id, ids)) (some (found, others)) =
        rw (b, pop_queued) at h in
      let e : id ≡ found = ground arith in
      subst (λ x. All (λ other. queued_in jobs other ≡ true → le_id jobs x other ≡ true) (id ∷ ids))
        e (λ _. le_id_refl jobs id, All-map (λ y. le_id jobs id y ≡ true) _ (λ y l _. l) ids s.0)
  | inr b ↦ elim (Option-cases (pop_queued jobs ids)) [
    | inl e ↦ cc (rw (b, e, pop_queued) at h)
    | inr ((f, rest), e) ↦
        let h' : ◌≡◌ {A = Option (String × List String)} (some (f, id ∷ rest))
            (some (found, others)) =
          rw (b, e, pop_queued) at h in
        let same : f ≡ found = ground arith in
        subst
          (λ x. All (λ other. queued_in jobs other ≡ true → le_id jobs x other ≡ true) (id ∷ ids))
          same (λ q. cc, leads_of_first jobs ids rest f s.1 e)
  ]
]

nothing_queued :
    (jobs : Dict Job) (ids : List String)
    → pop_queued jobs ids ≡ none
    → All (λ id. queued_in jobs id ≡ false) ids
unfolding pop_queued
nothing_queued jobs [] h = tt
nothing_queued jobs (id ∷ ids) h = elim (Bool-cases (queued_in jobs id)) [
  | inl b ↦ cc (rw (b, pop_queued) at h)
  | inr b ↦ elim (Option-cases (pop_queued jobs ids)) [
    | inl e ↦ (b, nothing_queued jobs ids e)
    | inr ((f, rest), e) ↦ cc (rw (b, e, pop_queued) at h)
  ]
]

-- What a call of `dequeue` on `q` may do, with the queue and the result that it leaves.
abbrev pub IsDequeued : JobQueue → JobQueue → Option Job → Type 0
IsDequeued q q' none = (q' ≡ q) × All (λ id. queued_in q.jobs id ≡ false) q.queue
IsDequeued q q' (some job) =
    (job.status ≡ JobStatus.queued)
    × (lookup job.job_id q.jobs ≡ some job)
    × (contains q.queue job.job_id ≡ true)
    × Leads q job.job_id
    × (q' ≡ record q { queue = drop_id job.job_id q.queue })

queued_job :
    (jobs : Dict Job) (id : String)
    → queued_in jobs id ≡ true
    → (job : Job) × (lookup id jobs ≡ some job) × (job.status ≡ JobStatus.queued)
queued_job jobs id h = elim (Option-cases (lookup id jobs)) [
  | inl e ↦ ground arith
  | inr (job, e) ↦ (job, e, ground arith)
]

-- On a well-formed queue `dequeue` returns a queued job that no queued job has to precede, by
-- priority and then by submission time, and takes its entry out of the queue and nothing else; it
-- returns nothing, and changes nothing, only if no entry is queued.
pub dequeue-IsDequeued : (q : JobQueue) → IsValid q → IsDequeued q (dequeue q).0 (dequeue q).1
unfolding dequeue
dequeue-IsDequeued q v = elim (Option-cases (pop_queued q.jobs q.queue)) [
  | inl e ↦ rw (e, dequeue) (refl, nothing_queued q.jobs q.queue e)
  | inr ((id, others), e) ↦
      let (b, rest, m) = pop_queued-some q.jobs q.queue others id e in
      let (job, found, status) = queued_job q.jobs id b in
      let same : id ≡ job.job_id = sym (v.filed id job found) in
      let leads = leads_of_first q.jobs q.queue others id v.ordered e in
      rw (e, dequeue, found)
        (
          status,
          subst (λ x. lookup x q.jobs ≡ some job) same found,
          subst (λ x. contains q.queue x ≡ true) same m,
          subst (Leads q) same leads,
          rw rest (ap (λ x. record q { queue = drop_id x q.queue }) same),
        )
]
