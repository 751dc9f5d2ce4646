-- ===== src/Storage.antt =====
-- drigs/core/storage.py, SQLiteStore, as its tables. Writing a row as text and reading it back is
-- taken to give the value again; a call that raises (a database error) is not modelled.
use drigs.Prelude.{
  ℕ, suc, String, Bool, true, ◌&&◌, none, some, List, [], ◌∷◌, ltb, leb, ◌==◌, if◌then◌else◌,
}
use drigs.Prelude.Sort.{sort}
use drigs.Dict.{Dict, lookup, put, remove, values}
use drigs.Models.{Job, WorkerInfo, ResourceAllocation}

-- INSERT … ON CONFLICT(job_id) DO UPDATE: of an old row only these five columns change.
abbrev pub upsert_row : Job → Job → Job
upsert_row new old = record old {
  status = new.status;
  started_at = new.started_at;
  completed_at = new.completed_at;
  error_message = new.error_message;
  allocation = new.allocation;
}

unfoldable pub save_job : Job → Dict Job → Dict Job
save_job job table = elim (lookup job.job_id table) [
  | none ↦ put job.job_id job table
  | some old ↦ put job.job_id (upsert_row job old) table
]

unfoldable pub delete_job : String → Dict Job → Dict Job
delete_job id table = remove id table

-- Highest priority first, then the earliest.
abbrev pub le_job : Job → Job → Bool
le_job j k =
    if ltb k.priority j.priority
    then true
    else j.priority == k.priority && leb j.submitted_at k.submitted_at

-- SELECT * FROM jobs ORDER BY priority DESC, submitted_at ASC
unfoldable pub load_all_jobs : Dict Job → List Job
load_all_jobs table = sort le_job (values table)

-- The tables of workers and allocations.
pub record Cluster : Type 0 where
  pub workers : Dict WorkerInfo
  pub allocations : Dict ResourceAllocation

unfoldable pub save_worker : WorkerInfo → Cluster → Cluster
save_worker w c = record c { workers = put w.worker_id w c.workers }

unfoldable pub delete_worker : String → Cluster → Cluster
delete_worker id c = record c { workers = remove id c.workers }

-- The table is keyed by the job and has no column for the allocation_id.
unfoldable pub save_allocation : ResourceAllocation → Cluster → Cluster
save_allocation a c = record c { allocations = put a.job_id a c.allocations }

unfoldable pub delete_allocation : String → Cluster → Cluster
delete_allocation id c = record c { allocations = remove id c.allocations }

abbrev pub load_all_workers : Cluster → List WorkerInfo
load_all_workers c = values c.workers

-- A loaded row gets a new allocation_id from the model's default: the n-th one of `uuid`.
unfoldable pub load_rows_from :
    (uuid : ℕ → String) → ℕ → List ResourceAllocation → List ResourceAllocation
load_rows_from uuid n [] = []
load_rows_from uuid n (a ∷ rows) =
    record a { allocation_id = uuid n } ∷ load_rows_from uuid (suc n) rows

abbrev pub load_all_allocations : (uuid : ℕ → String) → Cluster → List ResourceAllocation
load_all_allocations uuid c = load_rows_from uuid 0 (values c.allocations)
