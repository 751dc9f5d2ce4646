-- ===== src/Controller.antt =====
-- drigs/core/controller.py, LocalController: submission, the orchestration pass and cancelling.
-- The controller's lock makes each method one step. The job that the source holds on to is the
-- queue's own object, so it is read from the queue again after each call.
pub mod Pass
pub mod Invariant
pub mod Cancel
use drigs.Prelude.{
  ℕ, String, Bool, true, false, Option, none, some, List, [], ◌∷◌, ◌&&◌, ◌||◌, not, length,
  is_empty, if◌then◌else◌, ite, dec_text,
}
use drigs.Dict.{Dict, lookup, put, remove, has, keys}
use drigs.Models.{ClusterState, Job, JobStatus, ResourceAllocation, WorkloadSpec}
use drigs.Models.JobStatus.{pending, queued, scheduled, running, completed, failed, cancelled}
use drigs.Result.{Result, ok, raise, Error, ◌>>=◌}
use drigs.Admission.{AdmissionController, admit_job}
use drigs.Queue.{JobQueue, enqueue, get_pending_jobs, update_job_status, is_terminal}
use drigs.Queue
use drigs.Resources.{
  ResourceManager, Request, allocate_resources, deallocate_resources, get_cluster_state,
}
use drigs.Resources

-- What the controller calls: a scheduler, an execution backend whose handles are `H`, and the
-- sources of ids and times, as they answer in one step. A new id may depend on those in use.
pub record World (H : Type 0) : Type 0 where
  pub plan : List Job → ClusterState → List ResourceAllocation
  pub launch : Job → ResourceAllocation → Result H
  pub get_status : H → Result JobStatus
  pub stop : H → Result Bool
  pub uuid : Dict ResourceAllocation → String
  -- the time of an allocation, and of a change of a job's status
  pub allocated_at : String → ℕ
  pub changed_at : String → JobStatus → ℕ
  -- str(err)
  pub message : Error → String

pub record LocalController (H : Type 0) : Type 0 where
  pub admission_controller : AdmissionController
  pub job_queue : JobQueue
  pub resource_manager : ResourceManager
  pub handles : Dict H
  pub allocations : Dict ResourceAllocation

abbrev pub is_active : JobStatus → Bool
is_active pending = true
is_active queued = true
is_active scheduled = true
is_active running = true
is_active _ = false

-- The job is new: `job_id` and `now` are the defaults of its id and its time. A specification that
-- is a text or a dictionary has been parsed.
abbrev pub new_job : String → ℕ → ℕ → String → WorkloadSpec → Job
new_job job_id now priority name spec = record {
  job_id = job_id;
  name = name;
  status = pending;
  priority = priority;
  spec = spec;
  submitted_at = now;
  started_at = none;
  completed_at = none;
  allocation = none;
  error_message = none;
}

-- `job_name or spec.name`
abbrev pub name_of : Option String → WorkloadSpec → String
name_of none spec = spec.name
name_of (some name) spec = ite (dec_text name "") spec.name name

abbrev pub request_for : Job → ResourceAllocation → Request
request_for job alloc = record {
  job_id = job.job_id;
  worker_id = alloc.worker_id;
  device_ids = alloc.assigned_device_ids;
  cpus = job.spec.resources.cpus;
  memory_bytes = job.spec.resources.memory_bytes;
  gpu_memory_bytes = job.spec.resources.gpu_memory_bytes;
}

module _ {H : Type 0} where
  -- The manager is read before the queue.
  unfoldable pub load_persisted_state :
      (uuid : ℕ → String) → LocalController H → LocalController H × ℕ × ℕ
  load_persisted_state uuid c =
      let (manager, workers) = Resources.load_from_storage uuid c.resource_manager in
      let (queue, jobs) = Queue.load_from_storage c.job_queue in
      (record c { resource_manager = manager; job_queue = queue }, jobs, workers)

  unfoldable pub submit_job :
      String
      → ℕ
      → WorkloadSpec
      → ℕ
      → Option String
      → LocalController H
      → Result (LocalController H × Job)
  submit_job job_id now spec priority job_name c = do
    job ←
        admit_job c.admission_controller (new_job job_id now priority (name_of job_name spec) spec)
    queue ← enqueue job c.job_queue
    ok (record c { job_queue = queue }, job)

  -- `self.job_queue.update_job_status`, which changes nothing if it raises
  unfoldable pub set_status :
      World H
      → String
      → JobStatus
      → Option String
      → LocalController H
      → LocalController H × Option Error
  set_status w id new message c =
      elim (update_job_status (w.changed_at id new) id new message c.job_queue) [
        | ok (queue, job) ↦ (record c { job_queue = queue }, none)
        | raise e ↦ (c, some e)
      ]

  -- `job.allocation = real_alloc` on the queue's object
  unfoldable pub assign : String → ResourceAllocation → LocalController H → LocalController H
  assign id real c = elim (lookup id c.job_queue.jobs) [
    | none ↦ c
    | some job ↦
        let queue = c.job_queue in
        record c {
          job_queue = record queue {
            jobs = put id (record job { allocation = some real }) queue.jobs;
          };
        }
  ]

  abbrev free : String → LocalController H → LocalController H
  free id c = record c { resource_manager = (deallocate_resources id c.resource_manager).0 }

  -- The rest of the `try` block once the resources are held. (The queue still tracks the job.)
  unfoldable pub start_job :
      World H → Job → ResourceAllocation → LocalController H → LocalController H × Option Error
  unfolding set_status
  start_job w job real c = elim (lookup job.job_id c.job_queue.jobs) [
    | none ↦ (c, none)
    | some current ↦ elim (w.launch current real) [
      | raise e ↦ (c, some e)
      | ok handle ↦ set_status w job.job_id running none (record c {
        handles = put job.job_id handle c.handles;
        allocations = put job.job_id real c.allocations;
      })
    ]
  ]

  -- The reservation of the resources for a job that is SCHEDULED.
  unfoldable pub reserve_job :
      World H → Job → ResourceAllocation → LocalController H → LocalController H × Option Error
  unfolding start_job assign
  reserve_job w job alloc c =
      let manager = c.resource_manager in
      let (manager', answer) =
        allocate_resources (w.uuid manager.allocations) (w.allocated_at job.job_id)
          (request_for job alloc) manager in
      elim answer [
        | raise e ↦ (record c { resource_manager = manager' }, some e)
        | ok real ↦
            start_job w job real (assign job.job_id real (record c { resource_manager = manager' }))
      ]

  -- The `try` block for one proposed allocation: what it leaves, and what it raises.
  unfoldable pub try_place :
      World H → Job → ResourceAllocation → LocalController H → LocalController H × Option Error
  unfolding reserve_job set_status
  try_place w job alloc c =
      let (c', failure) = set_status w job.job_id scheduled none c in
      elim failure [ some e ↦ (c', some e) | none ↦ reserve_job w job alloc c' ]

  -- The `except` block, which may raise out of the pass.
  unfoldable pub fail_job :
      World H → Job → Error → LocalController H → LocalController H × Option Error
  unfolding set_status
  fail_job w job e c =
      let (c', failure) = set_status w job.job_id failed (some (w.message e)) c in
      elim failure [ some e' ↦ (c', some e') | none ↦ (free job.job_id c', none) ]

  unfoldable pub place_one :
      World H → ResourceAllocation → LocalController H → LocalController H × Option Error
  unfolding try_place fail_job
  place_one w alloc c = elim (lookup alloc.job_id c.job_queue.jobs) [
    | none ↦ (c, none)
    | some job ↦
        let (c', failure) = try_place w job alloc c in
        elim failure [ none ↦ (c', none) | some e ↦ fail_job w job e c' ]
  ]

  unfoldable pub place_all :
      World H → List ResourceAllocation → LocalController H → LocalController H × Option Error
  unfolding place_one
  place_all w [] c = (c, none)
  place_all w (alloc ∷ more) c =
      let (c', failure) = place_one w alloc c in
      let rest = place_all w more c' in elim failure [ some e ↦ (c', some e) | none ↦ rest ]

  -- A job whose workload has ended; an update that raises is caught, and nothing more is done.
  unfoldable pub finish : World H → String → JobStatus → LocalController H → LocalController H
  unfolding set_status
  finish w id status c =
      let (c', failure) = set_status w id status none c in
      elim failure [
        | some e ↦ c'
        | none ↦
            let freed = free id c' in
            record freed {
              handles = remove id freed.handles;
              allocations = remove id freed.allocations;
            }
      ]

  -- The ids are the keys of the handles.
  unfoldable pub poll : World H → List String → LocalController H → LocalController H
  unfolding finish
  poll w [] c = c
  poll w (id ∷ ids) c = elim (lookup id c.handles) [
    | none ↦ poll w ids c
    | some handle ↦ elim (w.get_status handle) [
      | raise e ↦ poll w ids c
      | ok status ↦ poll w ids (if is_terminal status then finish w id status c else c)
    ]
  ]

  unfoldable pub step : World H → LocalController H → LocalController H × Result ℕ
  unfolding place_all poll
  step w c =
      let jobs = get_pending_jobs c.job_queue in
      let state = get_cluster_state c.resource_manager in
      let proposed = if is_empty jobs || is_empty state.workers then [] else w.plan jobs state in
      let (c', failure) = place_all w proposed c in
      elim failure [
        | some e ↦ (c', raise e)
        | none ↦ let c'' = poll w (keys c'.handles) c' in (c'', ok (length c''.handles))
      ]

  -- The handle is given up before the backend is told, so it is gone even if `stop` raises.
  unfoldable pub release : World H → String → LocalController H → LocalController H × Option Error
  release w id c = elim (lookup id c.handles) [
    | none ↦ (c, none)
    | some handle ↦
        let popped = record c { handles = remove id c.handles } in
        elim (w.stop handle) [
          | raise e ↦ (popped, some e)
          | ok done ↦ (record (free id popped) { allocations = remove id c.allocations }, none)
        ]
  ]

  unfoldable pub cancel_job : World H → String → LocalController H → LocalController H × Result Bool
  unfolding release set_status
  cancel_job w id c = elim (lookup id c.job_queue.jobs) [
    | none ↦ (c, ok false)
    | some job ↦
        let (c', failure) = release w id c in
        elim failure [
          | some e ↦ (c', raise e)
          | none ↦
              if is_active job.status
              then (let (c'', refused) = set_status w id cancelled none c' in
                  elim refused [ some e ↦ (c'', raise e) | none ↦ (c'', ok true) ])
              else (c', ok false)
        ]
  ]
