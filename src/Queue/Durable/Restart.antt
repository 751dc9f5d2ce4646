-- ===== src/Queue/Durable/Restart.antt =====
-- drigs/core/queue.py, `load_from_storage`: a queue that is read from the table of another one.
use drigs.Prelude.{
  ℕ, String, ◌≡◌, refl, sym, ap, subst, ◌∙◌, Bool, true, false, not, ◌&&◌, ◌||◌, Option, none, some,
  List, [], ◌∷◌, map, arith, inl, inr, Bool-cases, Option-cases, contains, Distinct, Among,
  All-intro, All-Among, ite, dec_text, contains-append, Distinct-append, if_neg, length-map,
}
use drigs.Prelude.Sort.{sort, length-sort, All-sort, All-of_sort, Distinct-sort, contains-sort}
use drigs.Dict.{
  Dict, lookup, has, keys, values, lookup-put, contains-keys, Among-values, key_of_value,
}
use drigs.Models.{Job}
use drigs.Storage.{le_job, load_all_jobs}
use drigs.Queue.{
  JobQueue, new_queue, load_row, load_rows, load_from_storage, is_queued, queued_in, sort_queue,
  le_id, size, Call, run,
}
use drigs.Queue.Calls.{run-new_queue-IsValid}
use drigs.Queue.Durable.{run-Mirrors, run-Distinct}
use drigs.Queue.Invariant.{
  new_queue-IsValid, IsValid, Tracked, queue-IsSorted, sort-Distinct, map_self,
}

-- The job with this id in a list.
unfoldable find : String → List Job → Option Job
find id [] = none
find id (j ∷ rows) = let rest = find id rows in ite (dec_text j.job_id id) (some j) rest

abbrev row_ids : List Job → List String
row_ids = map (λ (j : Job). j.job_id)

find-absent :
    (id : String) (rows : List Job) → contains (row_ids rows) id ≡ false → find id rows ≡ none
unfolding find contains
find-absent id [] c = refl
find-absent id (j ∷ rows) c = ground (arith, find-absent id rows)

find-Among :
    (job : Job) (rows : List Job)
    → Distinct (row_ids rows)
    → Among job rows
    → find job.job_id rows ≡ some job
unfolding find
find-Among job [] d m = absurd m
find-Among job (j ∷ rows) d (inl e) = ground arith
find-Among job (j ∷ rows) d (inr m) = elim (dec_text j.job_id job.job_id) [
  | yes p ↦
      let gone =
        find-absent job.job_id rows (subst (λ k. contains (row_ids rows) k ≡ false) p d.0) in
      let there = find-Among job rows d.1 m in cc
  | no n ↦ rw (if_neg _ n) (find-Among job rows d.1 m)
]

Among-find :
    (id : String) (job : Job) (rows : List Job)
    → find id rows ≡ some job
    → Among job rows × (job.job_id ≡ id)
unfolding find
Among-find id job [] e = cc
Among-find id job (j ∷ rows) e = elim (dec_text j.job_id id) [
  | yes p ↦ (inl (ground arith), ground arith)
  | no n ↦ let (m, same) = Among-find id job rows (ground arith) in (inr m, same)
]

-- What the rows put into the two collections.
abbrev over : Option Job → Option Job → Option Job
over none old = old
over (some j) old = some j

lookup-load_rows :
    (id : String) (rows : List Job) (q : JobQueue)
    → Distinct (row_ids rows)
    → lookup id (load_rows rows q).jobs ≡ over (find id rows) (lookup id q.jobs)
unfolding load_rows find
lookup-load_rows id [] q d = refl
lookup-load_rows id (j ∷ rows) q d = ground (
  arith,
  lookup-load_rows id rows (load_row j q) d.1,
  lookup-put j.job_id id j q.jobs,
  find-absent id rows,
  d.0,
)

abbrev is_waiting : Option Job → Bool
is_waiting none = false
is_waiting (some j) = is_queued j

pub contains-load_row :
    (id : String) (j : Job) (q : JobQueue)
    → contains (load_row j q).queue id
      ≡ (contains q.queue id || ite (dec_text j.job_id id) (is_queued j) false)
unfolding load_row contains
contains-load_row id j q = elim (Bool-cases (is_queued j && not (contains q.queue j.job_id))) [
  | inl b ↦ rw b (ground (arith, b, contains-append q.queue (j.job_id ∷ []) id))
  | inr b ↦ rw b (ground (arith, b))
]

contains-load_rows :
    (id : String) (rows : List Job) (q : JobQueue)
    → Distinct (row_ids rows)
    → contains (load_rows rows q).queue id ≡ (contains q.queue id || is_waiting (find id rows))
unfolding load_rows find contains
contains-load_rows id [] q d = ground arith
contains-load_rows id (j ∷ rows) q d = elim (dec_text j.job_id id) [
  | yes p ↦
      let gone = find-absent id rows (subst (λ k. contains (row_ids rows) k ≡ false) p d.0) in
      ground
        (arith, contains-load_rows id rows (load_row j q) d.1, contains-load_row id j q, gone, p)
  | no n ↦
      ground (arith, contains-load_rows id rows (load_row j q) d.1, contains-load_row id j q, n)
]

pub Distinct-load_rows :
    (rows : List Job) (q : JobQueue) → Distinct q.queue → Distinct (load_rows rows q).queue
unfolding load_rows load_row
Distinct-load_rows [] q d = d
Distinct-load_rows (j ∷ rows) q d =
    Distinct-load_rows rows (load_row j q)
      (elim (Bool-cases (is_queued j && not (contains q.queue j.job_id))) [
        | inl b ↦ rw b (
            Distinct-append q.queue (j.job_id ∷ []) d (unfold contains in (refl, tt))
              (ground arith, tt))
        | inr b ↦ rw b d
      ])

-- Each job of a table stands under its own id.
abbrev Filed : Dict Job → Type 0
Filed table = (id : String) (job : Job) → lookup id table ≡ some job → job.job_id ≡ id

row_ids-values :
    (table : Dict Job) → Distinct (keys table) → Filed table → row_ids (values table) ≡ keys table
unfolding lookup
row_ids-values [] d own = refl
row_ids-values ((k, v) ∷ m) d own = rw (own k v (ground arith)) (
    ap (◌∷◌ k)
      (row_ids-values m d.1 (λ id job e. own id job (ground (arith, d.0, e, contains-keys k m)))))

module _ (table : Dict Job) (d : Distinct (keys table)) (own : Filed table) where
  abbrev rows : List Job
  rows = load_all_jobs table

  load_all_jobs-Distinct : Distinct (row_ids rows)
  unfolding load_all_jobs
  load_all_jobs-Distinct =
      Distinct-sort le_job (λ j. j.job_id) (values table)
        (subst Distinct (sym (row_ids-values table d own)) d)

  row_of_value : (job : Job) → Among job (values table) → Among job rows
  unfolding load_all_jobs
  row_of_value job m =
      All-Among (λ j. Among j rows) (values table) job
        (All-of_sort le_job (λ j. Among j rows) (values table) (All-intro _ rows (λ j h. h))) m

  value_of_row : (job : Job) → Among job rows → Among job (values table)
  unfolding load_all_jobs
  value_of_row job m =
      All-Among (λ j. Among j (values table)) rows job
        (All-sort le_job (λ j. Among j (values table)) (values table)
          (All-intro _ (values table) (λ j h. h)))
        m

  find_row : (id : String) → find id rows ≡ lookup id table
  find_row id = elim (Option-cases (lookup id table)) [
    | inr (job, e) ↦
        let same = own id job e in
        subst (λ k. find k rows ≡ lookup id table) same
          (find-Among job rows load_all_jobs-Distinct
              (row_of_value job (Among-values id job table e))
            ∙ sym e)
    | inl e ↦ elim (Option-cases (find id rows)) [
      | inl f ↦ f ∙ sym e
      | inr (job, f) ↦
          let (m, same) = Among-find id job rows f in
          let (k, found) = key_of_value job table d (value_of_row job m) in
          let key : k ≡ id = sym (own k job found) ∙ same in
          cc (subst (λ x. lookup x table ≡ some job) key found)
    ]
  ]

-- `q'` is the queue `q` after a restart: the same jobs are tracked, and exactly those that are
-- QUEUED wait, in a well-formed queue over the same table.
pub record IsRestarted (q q' : JobQueue) : Type 0 where
  pub jobs : (id : String) → lookup id q'.jobs ≡ lookup id q.jobs
  pub waiting : (id : String) → contains q'.queue id ≡ queued_in q.jobs id
  pub valid : IsValid q'
  pub storage : q'.storage ≡ q.storage

contains-sort_ids :
    (le : String → String → Bool) (ids : List String) (id : String)
    → contains (sort le ids) id ≡ contains ids id
contains-sort_ids le ids id =
    subst (λ xs. contains xs id ≡ contains ids id) (map_self (sort le ids))
      (contains-sort le (λ x. x) ids id ∙ ap (λ xs. contains xs id) (map_self ids))

pub contains-Tracked :
    (jobs : Dict Job) (ids : List String)
    → ((id : String) → contains ids id ≡ true → has id jobs ≡ true)
    → Tracked jobs ids
unfolding contains
contains-Tracked jobs [] h = tt
contains-Tracked jobs (x ∷ ids) h =
    (h x (ground arith), contains-Tracked jobs ids (λ id c. h id (ground (arith, c))))

storage-load_rows : (rows : List Job) (q : JobQueue) → (load_rows rows q).storage ≡ q.storage
unfolding load_rows load_row
storage-load_rows [] q = refl
storage-load_rows (j ∷ rows) q = storage-load_rows rows (load_row j q)

module _ (capacity : Option ℕ) (q : JobQueue) (v : IsValid q) (d : Distinct (keys q.jobs)) where
  abbrev empty : JobQueue
  empty = new_queue capacity (some q.jobs)

  abbrev loaded : JobQueue
  loaded = load_rows (load_all_jobs q.jobs) empty

  loaded_jobs : (id : String) → lookup id loaded.jobs ≡ lookup id q.jobs
  unfolding lookup
  loaded_jobs id = ground (
    arith,
    lookup-load_rows id (load_all_jobs q.jobs) empty (load_all_jobs-Distinct q.jobs d v.filed),
    find_row q.jobs d v.filed id,
  )

  loaded_waiting : (id : String) → contains loaded.queue id ≡ queued_in q.jobs id
  unfolding contains
  loaded_waiting id = ground (
    arith,
    contains-load_rows id (load_all_jobs q.jobs) empty (load_all_jobs-Distinct q.jobs d v.filed),
    find_row q.jobs d v.filed id,
  )

  loaded-IsRestarted : (some q.jobs ≡ q.storage) → IsRestarted q (sort_queue loaded)
  unfolding sort_queue
  loaded-IsRestarted m = record {
    jobs = loaded_jobs;
    waiting = λ id. contains-sort_ids (le_id loaded.jobs) loaded.queue id ∙ loaded_waiting id;
    valid = record {
      filed = λ id job e. v.filed id job (sym (loaded_jobs id) ∙ e);
      distinct =
          sort-Distinct (le_id loaded.jobs) loaded.queue
            (Distinct-load_rows (load_all_jobs q.jobs) empty tt);
      tracked =
          All-sort (le_id loaded.jobs) (λ id. has id loaded.jobs ≡ true) loaded.queue
            (contains-Tracked loaded.jobs loaded.queue
              (λ id c. ground (arith, c, loaded_waiting id, loaded_jobs id)));
      ordered = queue-IsSorted loaded.jobs loaded.queue;
    };
    storage = storage-load_rows (load_all_jobs q.jobs) empty ∙ m;
  }

-- After any calls on a new queue over an empty table, failing calls included, reading the table
-- into another new queue restores it: it answers the number of tracked jobs, every job is tracked
-- as it was, and exactly the QUEUED ones wait, in a well-formed queue over the same table.
pub run-IsRestarted :
    (capacity capacity' : Option ℕ) (cs : List (ℕ × Call))
    → let q = run cs (new_queue capacity (some [])) in
      let (q', count) = load_from_storage (new_queue capacity' q.storage) in
      IsRestarted q q' × (count ≡ size q)
unfolding load_from_storage load_all_jobs
run-IsRestarted capacity capacity' cs =
    let start = new_queue capacity (some []) in
    let q = run cs start in
    let v = run-new_queue-IsValid capacity (some []) cs in
    let d = run-Distinct cs start tt in
    let m : q.storage ≡ some q.jobs =
      run-Mirrors cs start (new_queue-IsValid capacity (some [])) refl in
    subst
      (λ (s : Option (Dict Job)).
        let (q', count) = load_from_storage (new_queue capacity' s) in
        IsRestarted q q' × (count ≡ size q))
      (sym m)
      (
        loaded-IsRestarted capacity' q v d (sym m),
        length-sort le_job (values q.jobs) ∙ length-map (λ e. e.1) q.jobs,
      )
