-- ===== src/Queue/Invariant.antt =====
-- The well-formedness of a JobQueue, which every call keeps.
use drigs.Prelude.{
  ℕ, String, ◌≡◌, ◌≢◌, refl, sym, ap, subst, Bool, true, false, Option, some, List, [], ◌∷◌, ◌++◌,
  map, arith, if_pos, if_neg, dec_text, contains, All, All-append, Distinct, Distinct-append, inl,
  inr, Bool-cases,
}
use drigs.Prelude.Sort.{sort, IsSorted, sort-IsSorted, All-sort, Distinct-sort}
use drigs.Dict.{Dict, lookup, put, has, lookup-put}
use drigs.Models.{Job}
use drigs.Result.{after}
use drigs.Storage.{le_job}
use drigs.Queue.{
  JobQueue, new_queue, le_id, sort_queue, enqueue, drop_id, as_queued, accept, is_full,
}

-- The order of the queue is total and transitive on jobs.
le_job_total : (j k : Job) → le_job j k ≡ false → le_job k j ≡ true
le_job_total j k h = ground arith

le_job_trans : (i j k : Job) → le_job i j ≡ true → le_job j k ≡ true → le_job i k ≡ true
le_job_trans i j k g h = ground arith

-- Every entry of `_queue` is a tracked job.
abbrev pub Tracked : Dict Job → List String → Type 0
Tracked jobs = All (λ id. has id jobs ≡ true)

pub record IsValid (q : JobQueue) : Type 0 where
  -- a job is tracked under its own id
  pub filed : (id : String) (job : Job) → lookup id q.jobs ≡ some job → job.job_id ≡ id
  pub distinct : Distinct q.queue
  pub tracked : Tracked q.jobs q.queue
  -- highest priority first, and among equals the earliest
  pub ordered : IsSorted (le_id q.jobs) q.queue

pub new_queue-IsValid : (c : Option ℕ) (s : Option (Dict Job)) → IsValid (new_queue c s)
unfolding lookup
new_queue-IsValid c s = record { filed = λ id job e. cc; distinct = tt; tracked = tt; ordered = tt }

module _ (jobs : Dict Job) where
  le_id_total : (a b : String) → le_id jobs a b ≡ false → le_id jobs b a ≡ true
  le_id_total a b h = ground arith

  le_id_trans :
      (a b c : String) → le_id jobs a b ≡ true → le_id jobs b c ≡ true → le_id jobs a c ≡ true
  le_id_trans a b c g h = ground arith

  pub queue-IsSorted : (ids : List String) → IsSorted (le_id jobs) (sort (le_id jobs) ids)
  queue-IsSorted = sort-IsSorted (le_id jobs) le_id_total le_id_trans

pub map_self : (xs : List String) → map (λ x. x) xs ≡ xs
map_self [] = refl
map_self (x ∷ xs) = ap (◌∷◌ x) (map_self xs)

pub sort-Distinct :
    (le : String → String → Bool) (xs : List String) → Distinct xs → Distinct (sort le xs)
sort-Distinct le xs d =
    subst Distinct (map_self (sort le xs))
      (Distinct-sort le (λ x. x) xs (subst Distinct (sym (map_self xs)) d))

-- An untracked id is not in the queue.
absent_of_untracked :
    (jobs : Dict Job) (ids : List String) (id : String)
    → Tracked jobs ids
    → has id jobs ≡ false
    → contains ids id ≡ false
unfolding contains
absent_of_untracked jobs [] id t h = refl
absent_of_untracked jobs (x ∷ ids) id t h = ground (arith, absent_of_untracked jobs ids id t.1 h)

pub Tracked-put :
    (jobs : Dict Job) (k : String) (job : Job) (ids : List String)
    → Tracked jobs ids
    → Tracked (put k job jobs) ids
Tracked-put jobs k job [] t = tt
Tracked-put jobs k job (x ∷ ids) t =
    (ground (arith, lookup-put k x job jobs), Tracked-put jobs k job ids t.1)

accept-IsValid :
    (job : Job) (q : JobQueue) → IsValid q → has job.job_id q.jobs ≡ false → IsValid (accept job q)
unfolding accept sort_queue contains
accept-IsValid job q v new =
    let jobs = put job.job_id job q.jobs in
    let ids = q.queue ++ job.job_id ∷ [] in
    record {
      filed = λ id found e. ground (arith, lookup-put job.job_id id job q.jobs, v.filed id found);
      distinct = sort-Distinct (le_id jobs) ids (
          Distinct-append q.queue (job.job_id ∷ []) v.distinct (refl, tt)
            (absent_of_untracked q.jobs q.queue job.job_id v.tracked new, tt));
      tracked =
          All-sort (le_id jobs) (λ id. has id jobs ≡ true) ids
            (All-append _ q.queue (job.job_id ∷ [])
              (Tracked-put q.jobs job.job_id job q.queue v.tracked)
              (ground (arith, lookup-put job.job_id job.job_id job q.jobs), tt));
      ordered = queue-IsSorted jobs ids;
    }

pub as_queued_id : (job : Job) → (as_queued job).job_id ≡ job.job_id
as_queued_id job = ground arith

pub enqueue-IsValid : (job : Job) (q : JobQueue) → IsValid q → IsValid (after q (enqueue job q))
unfolding enqueue
enqueue-IsValid job q v = elim (Bool-cases (is_full q)) [
  | inl b ↦ rw (b, enqueue) v
  | inr b ↦ elim (Bool-cases (has job.job_id q.jobs)) [
    | inl c ↦ rw (b, enqueue, c) v
    | inr c ↦
        rw (b, enqueue, c)
          (accept-IsValid (as_queued job) q v
            (subst (λ id. has id q.jobs ≡ false) (sym (as_queued_id job)) c))
  ]
]

pub absent-All : (id : String) (ids : List String) → contains ids id ≡ false → All (λ x. x ≢ id) ids
unfolding contains
absent-All id [] h = tt
absent-All id (x ∷ ids) h = (λ e. ground arith, absent-All id ids (ground arith))

-- What is left of a valid queue after `drop_id`.
pub contains-drop_id :
    (id x : String) (ids : List String)
    → contains ids x ≡ false
    → contains (drop_id id ids) x ≡ false
unfolding drop_id contains
contains-drop_id id x [] h = refl
contains-drop_id id x (y ∷ ids) h = ground (arith, contains-drop_id id x ids)

pub All-drop_id {κ} :
    (P : String → Type κ) (id : String) (ids : List String) → All P ids → All P (drop_id id ids)
unfolding drop_id
All-drop_id P id [] h = tt
All-drop_id P id (x ∷ ids) h = elim (dec_text x id) [
  | yes e ↦ rw (if_pos _ e) h.1
  | no n ↦ rw (if_neg _ n) (h.0, All-drop_id P id ids h.1)
]

pub Distinct-drop_id : (id : String) (ids : List String) → Distinct ids → Distinct (drop_id id ids)
unfolding drop_id
Distinct-drop_id id [] d = tt
Distinct-drop_id id (x ∷ ids) d = elim (dec_text x id) [
  | yes e ↦ rw (if_pos _ e) d.1
  | no n ↦ rw (if_neg _ n) (contains-drop_id id x ids d.0, Distinct-drop_id id ids d.1)
]

pub IsSorted-drop_id :
    (le : String → String → Bool) (id : String) (ids : List String)
    → IsSorted le ids
    → IsSorted le (drop_id id ids)
unfolding drop_id
IsSorted-drop_id le id [] s = tt
IsSorted-drop_id le id (x ∷ ids) s = elim (dec_text x id) [
  | yes e ↦ rw (if_pos _ e) s.1
  | no n ↦
      rw (if_neg _ n) (All-drop_id (λ y. le x y ≡ true) id ids s.0, IsSorted-drop_id le id ids s.1)
]

-- The other entries are still there, and the dropped one is not.
pub others_of_drop_id :
    (id : String) (ids : List String) → Distinct ids → All (λ x. x ≢ id) (drop_id id ids)
unfolding drop_id contains
others_of_drop_id id [] d = tt
others_of_drop_id id (x ∷ ids) d = elim (dec_text x id) [
  | yes e ↦ rw (if_pos _ e) (absent-All id ids (subst (λ y. contains ids y ≡ false) e d.0))
  | no n ↦ rw (if_neg _ n) (n, others_of_drop_id id ids d.1)
]
