-- ===== src/Examples/Queueing.antt =====
-- The queue on a short history.
use drigs.Prelude.{ℕ, ◌≡◌, refl, List, [], ◌∷◌, none, some, dec_text, texts_differ}
use drigs.Prelude.Sort.{sort}
use drigs.Dict.{lookup, put}
use drigs.Models.{Job, JobStatus, JobStatus-discrete}
use drigs.Queue.{
  JobQueue, new_queue, load_from_storage, size, Call, enqueues, dequeues, removes, updates, step,
  run, dequeue, enqueue, accept, sort_queue, update_job_status, validate_status_transition,
}
use drigs.Queue.Invariant.{IsValid}
use drigs.Queue.Durable.Restart.{IsRestarted, run-IsRestarted}
use drigs.Queue.Calls.{run-new_queue-IsValid, dequeue-IsDequeued, IsDequeued}
use drigs.Queue.Lifecycle.{Evolves, run-Evolves, run_final}
use drigs.Examples.Data.{job, requires}

abbrev first : Job
first = job "j1" 0 10 (requires 2 10 2 100)

abbrev urgent : Job
urgent = job "j2" 5 20 (requires 1 0 4 100)

abbrev history : List (ℕ × Call)
history = (1, enqueues first) ∷ (2, enqueues urgent) ∷ (3, updates "j2" JobStatus.failed none) ∷ []

abbrev filled : JobQueue
filled = run history (new_queue (some 4) (some []))

run-new_queue-IsValid_example : IsValid filled
run-new_queue-IsValid_example = run-new_queue-IsValid (some 4) (some []) history

dequeue-IsDequeued_example : IsDequeued filled (dequeue filled).0 (dequeue filled).1
dequeue-IsDequeued_example = dequeue-IsDequeued filled run-new_queue-IsValid_example

abbrev later : List (ℕ × Call)
later =
    (4, dequeues)
    ∷ (5, updates "j1" JobStatus.scheduled none)
    ∷ (6, removes "j2")
    ∷ (7, updates "j2" JobStatus.running none)
    ∷ []

abbrev first_queued : Job
first_queued = record first { status = JobStatus.queued }

abbrev started : JobQueue
started = run ((1, enqueues first) ∷ []) (new_queue none none)

started_has : lookup "j1" started.jobs ≡ some first_queued
unfolding run step enqueue accept sort_queue sort lookup put dec_text JobStatus-discrete
started_has = refl

run-Evolves_example : Evolves (run later started) "j1" first_queued
run-Evolves_example =
    run-Evolves "j1" later started first_queued started_has
      (tt, (tt, (texts_differ "j2" "j1" refl, (tt, tt))))

abbrev cancelled : JobQueue
cancelled = run ((2, updates "j1" JobStatus.cancelled none) ∷ []) started

abbrev first_cancelled : Job
first_cancelled = record first {
  status = JobStatus.cancelled;
  started_at = some 2;
  completed_at = some 2;
}

cancelled_has : lookup "j1" cancelled.jobs ≡ some first_cancelled
unfolding run step enqueue accept sort_queue sort lookup put dec_text JobStatus-discrete
    update_job_status validate_status_transition
cancelled_has = refl

run_final_example :
    (job' : Job) × (lookup "j1" (run later cancelled).jobs ≡ some job')
    × (job'.status ≡ JobStatus.cancelled)
run_final_example =
    run_final "j1" later cancelled first_cancelled cancelled_has refl
      (tt, (tt, (texts_differ "j2" "j1" refl, (tt, tt))))

run-IsRestarted_example :
    let q = filled in
    let (q', count) = load_from_storage (new_queue none q.storage) in
    IsRestarted q q' × (count ≡ size q)
run-IsRestarted_example = run-IsRestarted (some 4) none history
