-- ===== src/Execution/Distributed/Status.antt =====
-- DistributedBackend.get_status in drigs/execution/distributed.py: what the exit codes of the ranks
-- come to.
use drigs.Prelude.{
  ℕ, zero, suc, String, ◌≡◌, ◌≢◌, refl, sym, ◌∙◌, true, none, some, List, [], ◌∷◌, All, All-Among,
  Among, arith, Bool-cases, Option-cases, inl, inr, ◌↔◌, subst,
}
use mathlib.Core.Bool.{false≢true}
use drigs.Prelude.Int.{ℤ, pos, negsuc}
use drigs.Dict.{lookup, lookup-put_self, lookup-put_other}
use drigs.Models.{JobStatus}
use drigs.Models.JobStatus.{running, completed, failed}
use drigs.Execution.Process.{ExecutionHandle, Poll}
use drigs.Execution.Distributed.{
  DistributedProcessRecord, DistributedBackend, poll_all, all_zero, ranks_status, get_status,
  after_poll,
}

-- A rank that has ended with another code than 0.
abbrev pub Broken : Poll → ℕ → Type 0
Broken poll pid = (code : ℤ) × ((poll pid ≡ some code) × (code ≢ pos 0))

abbrev pub Done : Poll → ℕ → Type 0
Done poll pid = poll pid ≡ some (pos 0)

-- The status that belongs to the ranks: FAILED if one of them broke, COMPLETED if all of them are
-- done, and RUNNING if none broke and one is not done.
pub record IsVerdict (poll : Poll) (pids : List ℕ) (s : JobStatus) : Type 0 where
  pub broken : (s ≡ failed) ↔ ((pid : ℕ) × (Among pid pids × Broken poll pid))
  pub done : (s ≡ completed) ↔ All (Done poll) pids
  pub other : s ≢ failed → s ≢ completed → s ≡ running

BrokenAmong : Poll → List ℕ → Type 0
BrokenAmong poll pids = (pid : ℕ) × (Among pid pids × Broken poll pid)

further :
    (poll : Poll) (pid : ℕ) (pids : List ℕ) → BrokenAmong poll pids → BrokenAmong poll (pid ∷ pids)
unfolding BrokenAmong
further poll pid pids (p, (m, b)) = (p, (inr m, b))

skip :
    (poll : Poll) (pid : ℕ) (pids : List ℕ)
    → ¬ Broken poll pid
    → BrokenAmong poll (pid ∷ pids)
    → BrokenAmong poll pids
unfolding BrokenAmong
skip poll pid pids n (p, (inl e, b)) = absurd (n (subst (Broken poll) e b))
skip poll pid pids n (p, (inr m, b)) = (p, (m, b))

-- The flag of the loop is set just if a rank broke.
flag_broken :
    (poll : Poll) (pids : List ℕ) → ((poll_all poll pids).1 ≡ true) ↔ BrokenAmong poll pids
unfolding poll_all BrokenAmong
flag_broken poll [] = (λ e. cc, λ h. absurd h.1.0)
flag_broken poll (pid ∷ pids) =
    let (into, from) = flag_broken poll pids in
    elim (Option-cases (poll pid)) [
      | inl e ↦
          rw (poll_all, e)
            (
              λ h. further poll pid pids (into h),
              λ h. from (skip poll pid pids (λ b. ground (arith, e, b.1.0)) h),
            )
      | inr (pos zero, e) ↦
          rw (poll_all, e)
            (
              λ h. further poll pid pids (into h),
              λ h. from (skip poll pid pids (λ b. b.1.1 (ground (arith, e, b.1.0))) h),
            )
      | inr (pos (suc n), e) ↦
          rw (poll_all, e)
            (λ h. (pid, (inl refl, (pos (suc n), (e, λ z. ground (arith, z))))), λ h. refl)
      | inr (negsuc n, e) ↦
          rw (poll_all, e) (λ h. (pid, (inl refl, (negsuc n, (e, λ z. cc)))), λ h. refl)
    ]

codes_zero :
    (poll : Poll) (pids : List ℕ) → (all_zero (poll_all poll pids).0 ≡ true) ↔ All (Done poll) pids
unfolding poll_all all_zero
codes_zero poll [] = (λ e. tt, λ h. refl)
codes_zero poll (pid ∷ pids) =
    let (into, from) = codes_zero poll pids in
    elim (Option-cases (poll pid)) [
      | inl e ↦ ground (arith, e, into, from)
      | inr (pos zero, e) ↦ ground (arith, e, into, from)
      | inr (pos (suc n), e) ↦ ground (arith, e, into, from)
      | inr (negsuc n, e) ↦ ground (arith, e, into, from)
    ]

not_both : (poll : Poll) (pids : List ℕ) → BrokenAmong poll pids → All (Done poll) pids → ⊥
unfolding BrokenAmong
not_both poll pids (p, (m, (code, (q, z)))) h =
    let done : Done poll p = All-Among (Done poll) pids p h m in z (ground (arith, done, q))

ranks_status-IsVerdict :
    (poll : Poll) (pids : List ℕ) → IsVerdict poll pids (ranks_status poll pids)
unfolding ranks_status BrokenAmong
ranks_status-IsVerdict poll pids =
    let (broke, flag) = flag_broken poll pids in
    let (all, codes) = codes_zero poll pids in
    elim (Bool-cases (poll_all poll pids).1) [
      | inl f ↦
          rw (ranks_status, f)
            (record {
              broken = (λ e. broke f, λ h. refl);
              done = (λ e. cc, λ h. absurd (not_both poll pids (broke f) h));
              other = λ n m. absurd (n refl);
            })
      | inr f ↦ elim (Bool-cases (all_zero (poll_all poll pids).0)) [
        | inl z ↦
            rw (ranks_status, f, z)
              (record {
                broken = (λ e. cc, λ h. absurd (not_both poll pids h (all z)));
                done = (λ e. all z, λ h. refl);
                other = λ n m. absurd (m refl);
              })
        | inr z ↦
            rw (ranks_status, f, z)
              (record {
                broken = (λ e. cc, λ h. absurd (false≢true (sym f ∙ flag h)));
                done = (λ e. cc, λ h. absurd (false≢true (sym z ∙ codes h)));
                other = λ n m. refl;
              })
      ]
    ]

completed_status-after_poll :
    (s : JobStatus) (r : DistributedProcessRecord)
    → s ≢ running
    → (after_poll s r).completed_status ≡ some s
completed_status-after_poll running r n = absurd (n refl)
completed_status-after_poll _ r n = refl

-- The backend after calls of get_status, each with what the processes say at the time.
unfoldable pub poll_times : List (Poll × ExecutionHandle) → DistributedBackend → DistributedBackend
poll_times [] b = b
poll_times ((poll, h) ∷ more) b = poll_times more (get_status poll h b).0

-- The status `s` is settled for the handle.
IsSettled : JobStatus → String → DistributedBackend → Type 0
IsSettled s id b =
    (r : DistributedProcessRecord) × ((lookup id b.records ≡ some r)
      × (r.completed_status ≡ some s))

get_status-IsSettled :
    (s : JobStatus) (id : String) (poll : Poll) (h : ExecutionHandle) (b : DistributedBackend)
    → IsSettled s id b
    → IsSettled s id (get_status poll h b).0
unfolding get_status IsSettled
get_status-IsSettled s id poll h b (r, (l, c)) =
    elim (Option-cases (lookup h.handle_id b.records)) [
      | inl e ↦ rw (get_status, e) (r, (l, c))
      | inr (q, e) ↦ elim (Option-cases q.completed_status) [
        | inr (u, d) ↦ rw (get_status, e, d) (r, (l, c))
        | inl d ↦
            rw (get_status, e, d)
              (
                r,
                (
                  lookup-put_other h.handle_id id _ b.records (λ p. ground (arith, l, c, e, d, p))
                      ∙ l,
                  c,
                ),
              )
      ]
    ]

poll_times-IsSettled :
    (s : JobStatus) (id : String) (more : List (Poll × ExecutionHandle)) (b : DistributedBackend)
    → IsSettled s id b
    → IsSettled s id (poll_times more b)
unfolding poll_times
poll_times-IsSettled s id [] b k = k
poll_times-IsSettled s id ((poll, h) ∷ more) b k =
    poll_times-IsSettled s id more (get_status poll h b).0 (get_status-IsSettled s id poll h b k)

settled_answer :
    (s : JobStatus) (poll : Poll) (h : ExecutionHandle) (b : DistributedBackend)
    → IsSettled s h.handle_id b
    → (get_status poll h b).1 ≡ s
unfolding get_status IsSettled
settled_answer s poll h b (r, (l, c)) = rw (get_status, l, c) refl

module _ (poll : Poll) (h : ExecutionHandle) (b : DistributedBackend) (r : DistributedProcessRecord)
    (e : lookup h.handle_id b.records ≡ some r) (c : r.completed_status ≡ none) where
  first_answer : (get_status poll h b).1 ≡ ranks_status poll r.processes
  unfolding get_status
  first_answer = rw (get_status, e, c) refl

  get_status-settles :
      (get_status poll h b).1 ≢ running
      → IsSettled (get_status poll h b).1 h.handle_id (get_status poll h b).0
  unfolding get_status IsSettled
  get_status-settles =
      rw (get_status, e, c)
        (λ n. (
          after_poll (ranks_status poll r.processes) r,
          (
            lookup-put_self h.handle_id (after_poll (ranks_status poll r.processes) r) b.records,
            completed_status-after_poll (ranks_status poll r.processes) r n,
          ),
        ))

-- While no status has been settled for a handle, get_status answers the verdict on its ranks,
-- whatever their order: FAILED if one has ended with another code than 0, else COMPLETED if all
-- have ended, else RUNNING. A verdict of FAILED or COMPLETED is settled: after any number of
-- further calls of get_status, of this handle and of others, and with nothing else called in
-- between, get_status answers it again, whatever the processes say.
pub get_status-IsVerdict :
    (poll later : Poll) (more : List (Poll × ExecutionHandle)) (h : ExecutionHandle)
    (b : DistributedBackend) (r : DistributedProcessRecord)
    → lookup h.handle_id b.records ≡ some r
    → r.completed_status ≡ none
    → let (b', s) = get_status poll h b in
      IsVerdict poll r.processes s × (s ≢ running → (get_status later h (poll_times more b')).1 ≡ s)
get_status-IsVerdict poll later more h b r e c = (
  subst (IsVerdict poll r.processes) (sym (first_answer poll h b r e c))
      (ranks_status-IsVerdict poll r.processes),
  λ n. settled_answer (get_status poll h b).1 later h (poll_times more (get_status poll h b).0) (
      poll_times-IsSettled (get_status poll h b).1 h.handle_id more (get_status poll h b).0
        (get_status-settles poll h b r e c n)),
)
