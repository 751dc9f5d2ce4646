-- ===== src/Queue/Loading.antt =====
-- load_from_storage in drigs/core/queue.py, on a queue that may track jobs already.
use drigs.Prelude.{
  ℕ, String, ◌≡◌, true, none, some, Option, List, [], ◌∷◌, length, arith, ite, subst, contains,
  dec_text,
}
use drigs.Prelude.Sort.{All-sort}
use drigs.Dict.{Dict, lookup, has, lookup-put}
use drigs.Models.{Job}
use drigs.Storage.{load_all_jobs}
use drigs.Queue.{JobQueue, load_row, load_rows, load_from_storage, sort_queue, le_id}
use drigs.Queue.Durable.Restart.{contains-load_row, contains-Tracked, Distinct-load_rows}
use drigs.Queue.Invariant.{IsValid, Tracked, queue-IsSorted, sort-Distinct}

abbrev Filed : JobQueue → Type 0
Filed q = (id : String) (job : Job) → lookup id q.jobs ≡ some job → job.job_id ≡ id

-- Whatever waits is tracked.
abbrev Waits : JobQueue → Type 0
Waits q = (id : String) → contains q.queue id ≡ true → has id q.jobs ≡ true

load_row-Filed : (j : Job) (q : JobQueue) → Filed q → Filed (load_row j q)
unfolding load_row
load_row-Filed j q k id job e = ground (arith, lookup-put j.job_id id j q.jobs, e, k id job)

load_row-jobs :
    (j : Job) (q : JobQueue) (id : String)
    → lookup id (load_row j q).jobs ≡ ite (dec_text j.job_id id) (some j) (lookup id q.jobs)
unfolding load_row
load_row-jobs j q id = lookup-put j.job_id id j q.jobs

load_row-Waits : (j : Job) (q : JobQueue) → Waits q → Waits (load_row j q)
load_row-Waits j q k id c = ground (arith, c, contains-load_row id j q, load_row-jobs j q id, k id)

load_rows-Filed : (rows : List Job) (q : JobQueue) → Filed q → Filed (load_rows rows q)
unfolding load_rows
load_rows-Filed [] q k = k
load_rows-Filed (j ∷ rows) q k = load_rows-Filed rows (load_row j q) (load_row-Filed j q k)

load_rows-Waits : (rows : List Job) (q : JobQueue) → Waits q → Waits (load_rows rows q)
unfolding load_rows
load_rows-Waits [] q k = k
load_rows-Waits (j ∷ rows) q k = load_rows-Waits rows (load_row j q) (load_row-Waits j q k)

Tracked-Waits :
    (jobs : Dict Job) (ids : List String)
    → Tracked jobs ids
    → (id : String) → contains ids id ≡ true
    → has id jobs ≡ true
unfolding contains
Tracked-Waits jobs [] t id c = cc
Tracked-Waits jobs (x ∷ ids) t id c = elim (dec_text x id) [
  | yes p ↦ subst (λ (y : String). has y jobs ≡ true) p t.0
  | no n ↦ Tracked-Waits jobs ids t.1 id (ground (arith, c, n))
]

rows-IsValid :
    (rows : List Job) (q : JobQueue) → IsValid q → IsValid (sort_queue (load_rows rows q))
unfolding sort_queue
rows-IsValid rows q v =
    let m = load_rows rows q in
    record {
      filed = load_rows-Filed rows q v.filed;
      distinct = sort-Distinct (le_id m.jobs) m.queue (Distinct-load_rows rows q v.distinct);
      tracked =
          All-sort (le_id m.jobs) (λ id. has id m.jobs ≡ true) m.queue
            (contains-Tracked m.jobs m.queue
              (load_rows-Waits rows q (Tracked-Waits q.jobs q.queue v.tracked)));
      ordered = queue-IsSorted m.jobs m.queue;
    }

read_table : Option (Dict Job) → JobQueue → JobQueue × ℕ
read_table storage q = elim storage [
  | none ↦ (q, 0)
  | some table ↦ (sort_queue (load_rows (load_all_jobs table) q), length (load_all_jobs table))
]

read_table-IsValid :
    (storage : Option (Dict Job)) (q : JobQueue) → IsValid q → IsValid (read_table storage q).0
unfolding read_table
read_table-IsValid none q v = v
read_table-IsValid (some table) q v = rows-IsValid (load_all_jobs table) q v

-- Reading the table keeps a queue well-formed.
pub load-IsValid : (q : JobQueue) → IsValid q → IsValid (load_from_storage q).0
unfolding load_from_storage read_table
load-IsValid q v = read_table-IsValid q.storage q v
