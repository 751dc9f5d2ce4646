-- ===== src/Execution/Native/Accounts.antt =====
-- NativeProcessBackend in drigs/execution/native.py: what one call does to the records of processes.
use drigs.Prelude.{
  String, ◌≡◌, ◌≢◌, refl, sym, subst, ap, Option, none, some, List, [], ◌∷◌, arith, dec_text,
  Option-cases, inl, inr, ◌⊎◌,
}
use drigs.Dict.{Dict, lookup, put, lookup-put, lookup-put_other}
use drigs.Prelude.Int.{ℤ}
use drigs.Models.{Job, JobStatus, ResourceAllocation}
use drigs.Models.JobStatus.{cancelled}
use drigs.Result.{Result, ok, raise, Gives, Gives-bind}
use drigs.Execution.Text.{Text}
use drigs.Execution.Process.{ExecutionHandle, ProcessRecord, Poll, command, completed as settle}
use drigs.Execution.Native.{
  NativeBackend, Launching, drawn_id, as_launch_failure, start_process, launch, left_by, get_status,
  stop, Call, launches, polls, stops,
}

-- The status is settled because the job was stopped, or because its process has ended.
unfoldable pub Accounted : Poll → ProcessRecord → Option JobStatus → Type 0
Accounted poll r none = Unit
Accounted poll r (some s) = (s ≡ cancelled) ⊎ ((code : ℤ) × (poll r.popen ≡ some code))

unfoldable pub IsAccounted : Poll → NativeBackend → Type 0
unfolding Accounted
IsAccounted poll b =
    (id : String) (r : ProcessRecord)
    → lookup id b.processes ≡ some r
    → Accounted poll r r.completed_status

-- What a launch leaves: nothing new, or one running process under the id that it draws.
unfoldable pub IsLaunched : Launching → Job → NativeBackend → NativeBackend → Type 0
IsLaunched os job b b' =
    (r : ProcessRecord) × ((r.completed_status ≡ none)
      × (b'.processes ≡ put (drawn_id os job) r b.processes))

start_process-IsLaunched :
    (t : Text) (os : Launching) (job : Job) (a : ResourceAllocation) (b : NativeBackend)
    (cmd : List String)
    → Gives (λ p. IsLaunched os job b p.0) (start_process t os job a b cmd)
unfolding start_process IsLaunched
start_process-IsLaunched t os job a b [] = tt
start_process-IsLaunched t os job a b (word ∷ more) = Gives-bind _ (os.make_dir _) _ λ _.
    Gives-bind _ (os.open_log _) _
      λ _. Gives-bind _ (as_launch_failure (os.spawn _ _ _)) _ λ pid. (_, (refl, refl))

pub launch-IsLaunched :
    (t : Text) (os : Launching) (job : Job) (a : ResourceAllocation) (b : NativeBackend)
    → Gives (λ p. IsLaunched os job b p.0) (launch t os job a b)
unfolding launch
launch-IsLaunched t os job a b =
    Gives-bind _ (command t job.spec.execution) _ λ cmd. start_process-IsLaunched t os job a b cmd

-- What holds of the backend before a launch and of each one that it may leave.
pub left_by-both :
    (Q : NativeBackend → Type 0) (b : NativeBackend) (r : Result (NativeBackend × ExecutionHandle))
    → Q b
    → Gives (λ p. Q p.0) r
    → Q (left_by b r)
left_by-both Q b (ok p) q h = h
left_by-both Q b (raise e) q h = q

-- The record of a handle has this status settled.
abbrev pub IsSettled : String → JobStatus → Dict ProcessRecord → Type 0
IsSettled id s m = (r : ProcessRecord) × ((lookup id m ≡ some r) × (r.completed_status ≡ some s))

-- No launch draws this id.
abbrev pub NotDrawn : String → List Call → Type 0
NotDrawn id [] = Unit
NotDrawn id (launches os job a ∷ cs) = (drawn_id os job ≢ id) × NotDrawn id cs
NotDrawn id (_ ∷ cs) = NotDrawn id cs

put-IsAccounted :
    (poll : Poll) (b b' : NativeBackend) (k : String) (r : ProcessRecord)
    → IsAccounted poll b
    → Accounted poll r r.completed_status
    → b'.processes ≡ put k r b.processes
    → IsAccounted poll b'
unfolding IsAccounted
put-IsAccounted poll b b' k r v h e id x found = elim (dec_text k id) [
  | yes p ↦
      let same : r ≡ x = ground (arith, e, p, found, lookup-put k id r b.processes) in
      subst (λ y. Accounted poll y y.completed_status) same h
  | no n ↦ v id x (ground (arith, e, n, found, lookup-put k id r b.processes))
]

lookup-put_at :
    (k id : String) (x : ProcessRecord) (m : Dict ProcessRecord)
    → k ≡ id
    → lookup id (put k x m) ≡ some x
lookup-put_at k id x m e = ground (arith, e, lookup-put k id x m)

pub put_other-IsSettled :
    (m : Dict ProcessRecord) (k id : String) (x : ProcessRecord) (s : JobStatus)
    → k ≢ id
    → IsSettled id s m
    → IsSettled id s (put k x m)
put_other-IsSettled m k id x s n (r, (found, done)) =
    (r, (ground (arith, found, lookup-put_other k id x m n), done))

pub put-IsAccounted_new :
    (poll : Poll) (b b' : NativeBackend) (k : String) (r : ProcessRecord)
    → IsAccounted poll b
    → r.completed_status ≡ none
    → b'.processes ≡ put k r b.processes
    → IsAccounted poll b'
unfolding Accounted
put-IsAccounted_new poll b b' k r v fresh e =
    put-IsAccounted poll b b' k r v (subst (Accounted poll r) (sym fresh) tt) e

pub NotDrawn-split :
    (id : String) (c : Call) (cs : List Call)
    → NotDrawn id (c ∷ cs)
    → NotDrawn id (c ∷ []) × NotDrawn id cs
NotDrawn-split id (launches os job a) cs h = ((h.0, tt), h.1)
NotDrawn-split id (polls g) cs h = (tt, h)
NotDrawn-split id (stops g) cs h = (tt, h)

module _ (poll : Poll) (h : ExecutionHandle) (b : NativeBackend) where
  pub get_status-IsAccounted : IsAccounted poll b → IsAccounted poll (get_status poll h b).0
  unfolding get_status Accounted
  get_status-IsAccounted v = elim (Option-cases (lookup h.handle_id b.processes)) [
    | inl e ↦ rw (get_status, e) v
    | inr (r, e) ↦ elim (Option-cases r.completed_status) [
      | inr (s, c) ↦ rw (get_status, e, c) v
      | inl c ↦ elim (Option-cases (poll r.popen)) [
        | inl p ↦ rw (get_status, e, c, p) v
        | inr (code, p) ↦
            rw (get_status, e, c, p) (put-IsAccounted poll b _ h.handle_id _ v (inr (code, p)) refl)
      ]
    ]
  ]

  pub stop-IsAccounted : IsAccounted poll b → IsAccounted poll (stop poll h b).0
  unfolding stop Accounted
  stop-IsAccounted v = elim (Option-cases (lookup h.handle_id b.processes)) [
    | inl e ↦ rw (stop, e) v
    | inr (r, e) ↦ elim (Option-cases (poll r.popen)) [
      | inl p ↦ rw (stop, e, p) (put-IsAccounted poll b _ h.handle_id _ v (inl refl) refl)
      | inr (code, p) ↦ rw (stop, e, p) (get_status-IsAccounted v)
    ]
  ]

  pub get_status-IsSettled :
      (id : String) (s : JobStatus)
      → IsSettled id s b.processes
      → IsSettled id s (get_status poll h b).0.processes
  unfolding get_status
  get_status-IsSettled id s (r, (found, done)) =
      elim (Option-cases (lookup h.handle_id b.processes)) [
        | inl e ↦ rw (get_status, e) (r, (found, done))
        | inr (x, e) ↦ elim (Option-cases x.completed_status) [
          | inr (s', c) ↦ rw (get_status, e, c) (r, (found, done))
          | inl c ↦ elim (Option-cases (poll x.popen)) [
            | inl p ↦ rw (get_status, e, c, p) (r, (found, done))
            | inr (code, p) ↦
                rw (get_status, e, c, p)
                  (put_other-IsSettled b.processes h.handle_id id _ s
                    (λ same. ground (arith, same, found, done, e, c)) (r, (found, done)))
          ]
        ]
      ]

  -- A stop does not change a settled status, since the process has ended or was stopped before.
  pub stop-IsSettled :
      (id : String) (s : JobStatus)
      → IsAccounted poll b
      → IsSettled id s b.processes
      → IsSettled id s (stop poll h b).0.processes
  unfolding stop Accounted IsAccounted
  stop-IsSettled id s v (r, (found, done)) = elim (Option-cases (lookup h.handle_id b.processes)) [
    | inl e ↦ rw (stop, e) (r, (found, done))
    | inr (x, e) ↦ elim (Option-cases (poll x.popen)) [
      | inr (code, p) ↦ rw (stop, e, p) (get_status-IsSettled id s (r, (found, done)))
      | inl p ↦ elim (dec_text h.handle_id id) [
        | no n ↦
            rw (stop, e, p)
              (put_other-IsSettled b.processes h.handle_id id _ s n (r, (found, done)))
        | yes same ↦
            let was : x.completed_status ≡ some s = ground (arith, same, found, done, e) in
            elim (subst (Accounted poll x) was (v h.handle_id x e)) [
              | inl c ↦
                  rw (stop, e, p)
                    (
                      settle cancelled x,
                      (
                        lookup-put_at h.handle_id id (settle cancelled x) b.processes same,
                        ap some (sym c),
                      ),
                    )
              | inr (code, ended) ↦ cc
            ]
      ]
    ]
  ]
