-- ===== src/Queue.antt =====
-- drigs/core/queue.py: the transition table, and JobQueue. `_queue` and `_jobs` hold the same
-- mutable Job objects; here `_jobs` holds them and `_queue` names them by job_id. The lock makes
-- each method one step. The time of a call is an argument.
pub mod Invariant
pub mod Calls
pub mod Lifecycle
pub mod Updates
pub mod Durable
pub mod Loading
use drigs.Prelude.{
  ℕ, suc, String, ◌≡◌, Bool, true, false, not, ◌&&◌, ◌||◌, Option, none, some, List, [], ◌∷◌, ◌++◌,
  map, ite, ltb, leb, ◌==◌, length, contains, dec_text, if◌then◌else◌,
}
use drigs.Prelude.Sort.{sort}
use drigs.Dict.{Dict, lookup, put, remove, has, values}
use drigs.Models.{Job, JobStatus, JobStatus-discrete}
use drigs.Models.JobStatus.{
  pending, queued, scheduled, running, completed, failed, cancelled, recovering,
}
use drigs.Result.{
  Result, ok, raise, ◌>>=◌, ◌>>◌, admission_error, capacity_exceeded, already_present,
  invalid_transition, job_not_found, after,
}
use drigs.Storage.{save_job, delete_job, load_all_jobs, le_job}

-- VALID_TRANSITIONS
abbrev pub valid_transitions : JobStatus → List JobStatus
valid_transitions pending = queued ∷ cancelled ∷ failed ∷ []
valid_transitions queued = scheduled ∷ cancelled ∷ failed ∷ []
valid_transitions scheduled = running ∷ cancelled ∷ failed ∷ []
valid_transitions running = completed ∷ failed ∷ cancelled ∷ recovering ∷ []
valid_transitions recovering = queued ∷ scheduled ∷ running ∷ failed ∷ cancelled ∷ []
valid_transitions completed = []
valid_transitions failed = []
valid_transitions cancelled = []

abbrev pub allowed : JobStatus → List JobStatus → Bool
allowed s [] = false
allowed s (t ∷ ts) = let rest = allowed s ts in ite (JobStatus-discrete s t) true rest

unfoldable pub validate_status_transition : JobStatus → JobStatus → Result (Unit {0})
unfolding JobStatus-discrete
validate_status_transition current new = ite (JobStatus-discrete current new) (ok tt) (
    if allowed new (valid_transitions current)
    then ok tt
    else raise (invalid_transition current new))

pub record JobQueue : Type 0 where
  pub max_capacity : Option ℕ
  -- The jobs table of the storage backend, if there is one.
  pub storage : Option (Dict Job)
  pub queue : List String
  pub jobs : Dict Job

abbrev pub new_queue : Option ℕ → Option (Dict Job) → JobQueue
new_queue capacity storage = record {
  max_capacity = capacity;
  storage = storage;
  queue = [];
  jobs = [];
}

-- The order of `_sort_queue` on the objects that two ids name. (Every id in `_queue` names one:
-- Queue/Invariant.)
abbrev pub le_id : Dict Job → String → String → Bool
le_id jobs a b = elim (lookup a jobs) [
  | none ↦ true
  | some j ↦ elim (lookup b jobs) [ none ↦ false | some k ↦ le_job j k ]
]

unfoldable pub sort_queue : JobQueue → JobQueue
sort_queue q = record q { queue = sort (le_id q.jobs) q.queue }

abbrev pub is_queued : Job → Bool
is_queued job = ite (JobStatus-discrete job.status queued) true false

-- `if self.storage_backend:` around a call of it
abbrev pub stored : (Dict Job → Dict Job) → Option (Dict Job) → Option (Dict Job)
stored f none = none
stored f (some table) = some (f table)

-- One row: the job is tracked, and queued if it was.
pub load_row : Job → JobQueue → JobQueue
load_row job q = record q {
  jobs = put job.job_id job q.jobs;
  queue =
      if is_queued job && not (contains q.queue job.job_id)
      then q.queue ++ job.job_id ∷ []
      else q.queue;
}

pub load_rows : List Job → JobQueue → JobQueue
unfolding load_row
load_rows [] q = q
load_rows (job ∷ rows) q = load_rows rows (load_row job q)

-- The backend is read into a queue in which no job waits, as LocalController's constructor does: a
-- loaded job is then among the waiting ones just if its id is.
unfoldable pub load_from_storage : JobQueue → JobQueue × ℕ
unfolding load_rows
load_from_storage q = elim q.storage [
  | none ↦ (q, 0)
  | some table ↦ (sort_queue (load_rows (load_all_jobs table) q), length (load_all_jobs table))
]

-- `self.max_capacity is not None and len(self._queue) >= self.max_capacity`
abbrev pub is_full : JobQueue → Bool
is_full q = elim q.max_capacity [ none ↦ false | some capacity ↦ leb capacity (length q.queue) ]

abbrev pub as_queued : Job → Job
as_queued job = ite (JobStatus-discrete job.status pending) (record job { status = queued }) job

-- What `enqueue` does with a job that passes its two tests.
unfoldable pub accept : Job → JobQueue → JobQueue
accept job q =
    let q' =
      sort_queue
        (record q { jobs = put job.job_id job q.jobs; queue = q.queue ++ job.job_id ∷ [] }) in
    record q' { storage = stored (save_job job) q'.storage }

unfoldable pub enqueue : Job → JobQueue → Result JobQueue
unfolding accept
enqueue job q =
    if is_full q
    then raise (admission_error capacity_exceeded)
    else if has job.job_id q.jobs
    then raise (admission_error already_present)
    else ok (accept (as_queued job) q)

abbrev pub queued_in : Dict Job → String → Bool
queued_in jobs id = elim (lookup id jobs) [ none ↦ false | some job ↦ is_queued job ]

-- The first queued entry, and the entries without it.
unfoldable pub pop_queued : Dict Job → List String → Option (String × List String)
pop_queued jobs [] = none
pop_queued jobs (id ∷ ids) =
    let rest = pop_queued jobs ids in
    if queued_in jobs id
    then some (id, ids)
    else elim rest [ none ↦ none | some (found, others) ↦ some (found, id ∷ others) ]

unfoldable pub dequeue : JobQueue → JobQueue × Option Job
dequeue q = elim (pop_queued q.jobs q.queue) [
  | none ↦ (q, none)
  | some (id, others) ↦ (record q { queue = others }, lookup id q.jobs)
]

unfoldable pub peek : JobQueue → Option Job
peek q = elim (pop_queued q.jobs q.queue) [ none ↦ none | some (id, others) ↦ lookup id q.jobs ]

pending_of : Dict Job → List String → List Job
pending_of jobs [] = []
pending_of jobs (id ∷ ids) =
    let rest = pending_of jobs ids in
    elim (lookup id jobs) [ none ↦ rest | some job ↦ if is_queued job then job ∷ rest else rest ]

unfoldable pub get_pending_jobs : JobQueue → List Job
unfolding pending_of
get_pending_jobs q = pending_of q.jobs q.queue

abbrev pub get_job : String → JobQueue → Option Job
get_job id q = lookup id q.jobs

-- list.remove
unfoldable pub drop_id : String → List String → List String
drop_id id [] = []
drop_id id (x ∷ xs) = let rest = drop_id id xs in ite (dec_text x id) xs (x ∷ rest)

unfoldable pub remove_job : String → JobQueue → JobQueue × Option Job
remove_job id q = elim (lookup id q.jobs) [
  | none ↦ (q, none)
  | some job ↦ (
    record q {
      jobs = remove id q.jobs;
      queue = drop_id id q.queue;
      storage = stored (delete_job id) q.storage;
    },
    some job,
  )
]

abbrev pub is_terminal : JobStatus → Bool
is_terminal completed = true
is_terminal failed = true
is_terminal cancelled = true
is_terminal _ = false

abbrev pub or_now : ℕ → Option ℕ → Option ℕ
or_now now none = some now
or_now now (some t) = some t

-- `started_at` and `completed_at` on entering a status
abbrev pub with_times : ℕ → JobStatus → Job → Job
with_times now new job =
    ite (JobStatus-discrete new running) (record job { started_at = or_now now job.started_at })
      (if is_terminal new
        then record job { started_at = or_now now job.started_at; completed_at = some now }
        else job)

abbrev pub with_message : Option String → Job → Job
with_message none job = job
with_message (some e) job = record job { error_message = some e }

abbrev pub updated : ℕ → JobStatus → Option String → Job → Job
updated now new message job =
    with_message message (with_times now new (record job { status = new }))

unfoldable pub update_job_status :
    ℕ → String → JobStatus → Option String → JobQueue → Result (JobQueue × Job)
update_job_status now id new message q = elim (lookup id q.jobs) [
  | none ↦ raise (job_not_found id)
  | some job ↦ do
    validate_status_transition job.status new
    let job' = updated now new message job
    ok (record q { jobs = put id job' q.jobs; storage = stored (save_job job') q.storage }, job')
]

-- len(self._jobs)
abbrev pub size : JobQueue → ℕ
size q = length q.jobs

count_queued : List Job → ℕ
count_queued [] = 0
count_queued (job ∷ js) = let rest = count_queued js in if is_queued job then suc rest else rest

unfoldable pub queued_count : JobQueue → ℕ
unfolding count_queued
queued_count q = count_queued (values q.jobs)

-- The calls that change a queue, each with the time at which it is made.
pub data Call : Type 0 where
  enqueues : Job → Call
  dequeues : Call
  removes : String → Call
  updates : String → JobStatus → Option String → Call

abbrev pub first_of_pair : {A B : Type 0} → Result (A × B) → Result A
first_of_pair (ok p) = ok p.0
first_of_pair (raise e) = raise e

unfoldable pub step : ℕ × Call → JobQueue → JobQueue
step (now, enqueues job) q = after q (enqueue job q)
step (now, dequeues) q = (dequeue q).0
step (now, removes id) q = (remove_job id q).0
step (now, updates id new message) q =
    after q (first_of_pair (update_job_status now id new message q))

unfoldable pub run : List (ℕ × Call) → JobQueue → JobQueue
run [] q = q
run (c ∷ cs) q = run cs (step c q)
