-- ===== src/Examples/Controlling.antt =====
-- A controller that starts one job and cancels it.
use drigs.Prelude.{refl, none, some, true, List, [], ◌∷◌, ◌≡◌, dec_text, ℕ}
use drigs.Dict.{lookup, put}
use drigs.Models.{Job, JobStatus}
use drigs.Result.{ok}
use drigs.Queue.{new_queue}
use drigs.Queue.Invariant.{new_queue-IsValid}
use drigs.Resources.{new_manager, register_all, add_keys, key}
use drigs.Resources.Loading.{IsFreshEvent}
use drigs.Resources.Loading
use drigs.Storage.{load_rows_from, save_worker}
use drigs.Examples.Managing.{stored}
use drigs.Resources.Exclusive.{new_manager-IsExclusive}
use drigs.Resources
use drigs.Controller.{World, LocalController, cancel_job}
use drigs.Controller.Pass.{IsSound}
use drigs.Controller.Invariant.{
  Call, submits, steps, cancels, loads, perform_all, perform_all-IsSound,
}
use drigs.Controller.Cancel.{cancel_job-IsCancelled, IsCancelled}
use drigs.Scheduler.Policies.{schedule, fifo}
use drigs.Examples.Data.{whole, big, spec, job, requires, draws}
use drigs.Examples.Fresh.{new_id, new_id-fresh}

abbrev world : World ℕ
world = record {
  plan = λ jobs state. schedule whole fifo draws 30 jobs state;
  launch = λ job alloc. ok 7;
  get_status = λ h. ok JobStatus.running;
  stop = λ h. ok true;
  uuid = new_id;
  allocated_at = λ id. 5;
  changed_at = λ id s. 6;
  message = λ e. "error";
}

abbrev fresh_controller : LocalController ℕ
fresh_controller = record {
  admission_controller = record { max_gpu_limit = none; max_cpu_limit = none };
  job_queue = new_queue none none;
  resource_manager = Resources.register_worker big (new_manager none);
  handles = [];
  allocations = [];
}

abbrev running_job : Job
running_job = record (job "j1" 0 10 (requires 2 10 2 100)) { status = JobStatus.running }

abbrev calls : List (Call ℕ)
calls =
    loads (λ n. "r")
    ∷ submits "j1" 1 (spec "train" (requires 2 10 2 100)) 0 none
    ∷ steps world
    ∷ cancels world "j1"
    ∷ []

-- A controller over a database with a worker, an allocation and no jobs.
abbrev stored_controller : LocalController ℕ
stored_controller = record fresh_controller {
  job_queue = new_queue none (some []);
  resource_manager = new_manager (some stored);
}

stored-IsSound : IsSound stored_controller
stored-IsSound = record {
  queue = new_queue-IsValid none (some []);
  manager = new_manager-IsExclusive (some stored);
  noted = λ id h. unfold lookup in cc;
}

stored_loads : IsFreshEvent (Loading.loads (λ n. "r")) (new_manager (some stored))
unfolding IsFreshEvent load_rows_from register_all Resources.register_worker add_keys key lookup put
    save_worker
stored_loads = (refl, (λ j k c e. cc), tt)

perform_all-IsSound_example : IsSound (perform_all calls stored_controller)
perform_all-IsSound_example =
    perform_all-IsSound calls stored_controller
      ((refl, stored_loads), (tt, (new_id-fresh, (tt, tt)))) stored-IsSound

-- One job is tracked, and its workload has the handle 7.
abbrev busy_controller : LocalController ℕ
busy_controller = record fresh_controller {
  job_queue = record {
    max_capacity = none;
    storage = none;
    queue = "j1" ∷ [];
    jobs = ("j1", running_job) ∷ [];
  };
  handles = ("j1", 7) ∷ [];
}

cancel_job-IsCancelled_example :
    ((cancel_job world "j1" busy_controller).1 ≡ ok true)
    × IsCancelled world "j1" busy_controller (cancel_job world "j1" busy_controller).0 running_job
cancel_job-IsCancelled_example =
    cancel_job-IsCancelled world "j1" busy_controller running_job (unfold lookup dec_text in refl)
      refl (λ handle e. (true, refl))
