-- ===== src/Execution/Native/Settled.antt =====
-- NativeProcessBackend in drigs/execution/native.py over a history of calls: a status that has been
-- settled stays.
use drigs.Prelude.{
  ℕ, suc, ◌+◌, String, ◌≡◌, refl, sym, subst, Option, none, some, List, [], ◌∷◌, length, arith, inl,
  inr,
}
use drigs.Dict.{lookup}
use drigs.Prelude.Int.{ℤ}
use drigs.Models.{JobStatus}
use drigs.Result.{Gives-map}
use drigs.Execution.Text.{Text}
use drigs.Execution.Process.{ExecutionHandle, ProcessRecord, Poll}
use drigs.Execution.Native.{
  NativeBackend, new_native, drawn_id, launch, get_status, Call, launches, polls, stops, step, run,
}
use drigs.Execution.Native.Accounts.{
  Accounted, IsAccounted, IsLaunched, IsSettled, NotDrawn, launch-IsLaunched, left_by-both,
  put_other-IsSettled, put-IsAccounted_new, NotDrawn-split, get_status-IsAccounted,
  stop-IsAccounted, get_status-IsSettled, stop-IsSettled,
}

-- A process that has ended keeps its exit code.
abbrev pub Persistent : (ℕ → Poll) → Type 0
Persistent poll = (n pid : ℕ) (code : ℤ) → poll n pid ≡ some code → poll (suc n) pid ≡ some code

-- A call at time n keeps the records accounted for, and keeps a settled status.
module _ (t : Text) (poll : ℕ → Poll) (keeps : Persistent poll) where
  later :
      (n : ℕ) (r : ProcessRecord) (o : Option JobStatus)
      → Accounted (poll n) r o
      → Accounted (poll (suc n)) r o
  unfolding Accounted
  later n r none h = tt
  later n r (some s) (inl e) = inl e
  later n r (some s) (inr (code, p)) = inr (code, keeps n r.popen code p)

  step-IsAccounted :
      (n : ℕ) (c : Call) (b : NativeBackend)
      → IsAccounted (poll n) b
      → IsAccounted (poll n) (step t (poll n) c b)
  unfolding step IsLaunched Accounted
  step-IsAccounted n (launches os job a) b v =
      left_by-both (IsAccounted (poll n)) b (launch t os job a b) v (
        Gives-map _ _ (launch t os job a b)
          (λ p l. put-IsAccounted_new (poll n) b p.0 (drawn_id os job) l.0 v l.1.0 l.1.1)
          (launch-IsLaunched t os job a b))
  step-IsAccounted n (polls h) b v = get_status-IsAccounted (poll n) h b v
  step-IsAccounted n (stops h) b v = stop-IsAccounted (poll n) h b v

  step-IsSettled :
      (n : ℕ) (c : Call) (b : NativeBackend) (id : String) (s : JobStatus)
      → NotDrawn id (c ∷ [])
      → IsAccounted (poll n) b
      → IsSettled id s b.processes
      → IsSettled id s (step t (poll n) c b).processes
  unfolding step IsLaunched
  step-IsSettled n (launches os job a) b id s (other, _) v h =
      left_by-both (λ x. IsSettled id s x.processes) b (launch t os job a b) h
        (Gives-map _ _ (launch t os job a b)
          (λ p l.
            subst (IsSettled id s) (sym l.1.1)
              (put_other-IsSettled b.processes (drawn_id os job) id l.0 s other h))
          (launch-IsLaunched t os job a b))
  step-IsSettled n (polls h) b id s other v d = get_status-IsSettled (poll n) h b id s d
  step-IsSettled n (stops h) b id s other v d = stop-IsSettled (poll n) h b id s v d

  run-IsAccounted :
      (n : ℕ) (cs : List Call) (b : NativeBackend)
      → IsAccounted (poll n) b
      → IsAccounted (poll (length cs + n)) (run t poll n cs b)
  unfolding run IsAccounted
  run-IsAccounted n [] b v = subst (λ k. IsAccounted (poll k) b) (omega arith) v
  run-IsAccounted n (c ∷ cs) b v =
      let b' = step t (poll n) c b in
      subst (λ k. IsAccounted (poll k) (run t poll (suc n) cs b')) (omega arith)
        (run-IsAccounted (suc n) cs b'
          (λ id r e. later n r r.completed_status (step-IsAccounted n c b v id r e)))

  run-IsSettled :
      (n : ℕ) (cs : List Call) (b : NativeBackend) (id : String) (s : JobStatus)
      → NotDrawn id cs
      → IsAccounted (poll n) b
      → IsSettled id s b.processes
      → IsSettled id s (run t poll n cs b).processes
  unfolding run IsAccounted
  run-IsSettled n [] b id s other v d = d
  run-IsSettled n (c ∷ cs) b id s other v d =
      let (here, rest) = NotDrawn-split id c cs other in
      run-IsSettled (suc n) cs (step t (poll n) c b) id s rest
        (λ k r e. later n r r.completed_status (step-IsAccounted n c b v k r e))
        (step-IsSettled n c b id s here v d)

  -- If a process that has ended keeps its exit code: once the status of a handle has been settled,
  -- in whatever history on a new backend, every later get_status answers it, whatever calls come
  -- between, unless a launch draws the handle's id again.
  pub settled_stays :
      (log_dir : String) (before after : List Call) (h : ExecutionHandle) (s : JobStatus)
      → let b = run t poll 0 before (new_native log_dir) in
        IsSettled h.handle_id s b.processes
        → NotDrawn h.handle_id after
        → (q : Poll) → (get_status q h (run t poll (length before) after b)).1 ≡ s
  unfolding get_status IsAccounted lookup
  settled_stays log_dir before after h s d other q =
      let b = run t poll 0 before (new_native log_dir) in
      let v : IsAccounted (poll (length before)) b =
        subst (λ k. IsAccounted (poll k) b) (omega arith)
          (run-IsAccounted 0 before (new_native log_dir) (λ id r e. cc)) in
      let (r, (found, done)) = run-IsSettled (length before) after b h.handle_id s other v d in
      rw (get_status, found, done) refl
