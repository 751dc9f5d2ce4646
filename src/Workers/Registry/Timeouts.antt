-- ===== src/Workers/Registry/Timeouts.antt =====
-- drigs/workers/registry.py, `check_timeouts`: which workers it marks OFFLINE.
use drigs.Prelude.{
  ℕ, String, ◌≡◌, refl, sym, subst, ◌∙◌, Bool, true, false, Option, none, some, List, [], ◌∷◌,
  arith, dec_text, contains, Distinct, if◌then◌else◌, Bool-cases, Option-cases, inl, inr,
}
use drigs.Dict.{Dict, lookup, put, keys, has, lookup-put, contains-keys}
use drigs.Models.{DeviceState, WorkerInfo}
use drigs.Float.{Float}
use drigs.Workers.Registry.{
  WorkerRegistry, is_active, is_offline, is_late, timed_out, scan, check_timeouts,
}

module _ (f : Float) where
  open f use {F}

  -- A worker after a check.
  abbrev pub settle : F → ℕ → WorkerInfo → WorkerInfo
  settle timeout now w =
      if timed_out f timeout now w then record w { status = DeviceState.offline } else w

  scanned : F → ℕ → Option WorkerInfo → Option WorkerInfo → Option WorkerInfo
  scanned timeout now none old = old
  scanned timeout now (some w) old =
      if timed_out f timeout now w then some (record w { status = DeviceState.offline }) else old

  reported : F → ℕ → Option WorkerInfo → Bool
  reported timeout now none = false
  reported timeout now (some w) = timed_out f timeout now w

  -- The key of the first item is not among the others.
  alone :
      (k id : String) (items : Dict WorkerInfo)
      → contains (keys items) id ≡ false
      → id ≡ k
      → lookup k items ≡ none
  alone k id items c p = ground (arith, c, p, contains-keys k items)

  lookup-scan :
      (timeout : F) (now : ℕ) (k : String) (items : Dict WorkerInfo) (workers : Dict WorkerInfo)
      → Distinct (keys items)
      → lookup k (scan f timeout now items workers).0
        ≡ scanned timeout now (lookup k items) (lookup k workers)
  unfolding scan scanned lookup
  lookup-scan timeout now k [] workers d = refl
  lookup-scan timeout now k ((id, w) ∷ items) workers d =
      let offline = record w { status = DeviceState.offline } in
      let workers' = if timed_out f timeout now w then put id offline workers else workers in
      let rest = lookup-scan timeout now k items workers' d.1 in
      let law = lookup-put id k offline workers in
      elim (dec_text id k) [
        | yes p ↦ ground (arith, rest, law, p, alone k id items d.0 p)
        | no n ↦ ground (arith, rest, law, n)
      ]

  contains-scan :
      (timeout : F) (now : ℕ) (k : String) (items : Dict WorkerInfo) (workers : Dict WorkerInfo)
      → Distinct (keys items)
      → contains (scan f timeout now items workers).1 k ≡ reported timeout now (lookup k items)
  unfolding scan reported lookup contains
  contains-scan timeout now k [] workers d = refl
  contains-scan timeout now k ((id, w) ∷ items) workers d =
      let offline = record w { status = DeviceState.offline } in
      let workers' = if timed_out f timeout now w then put id offline workers else workers in
      let rest = contains-scan timeout now k items workers' d.1 in
      elim (dec_text id k) [
        | yes p ↦ ground (arith, rest, p, alone k id items d.0 p)
        | no n ↦ ground (arith, rest, n)
      ]

  -- What a check leaves of each worker, and what it answers.
  pub record IsSettled (now : ℕ) (r r' : WorkerRegistry F) (ids : List String) : Type 0 where
    -- no worker is added
    pub absent : (id : String) → lookup id r.workers ≡ none → lookup id r'.workers ≡ none
    -- a late worker is OFFLINE, and no other worker changes
    pub settled :
        (id : String) (w : WorkerInfo)
        → lookup id r.workers ≡ some w
        → lookup id r'.workers ≡ some (settle r.timeout_seconds now w)
    -- the answer is the workers that became OFFLINE
    pub answered :
        (id : String) (w : WorkerInfo)
        → lookup id r.workers ≡ some w
        → contains ids id ≡ timed_out f r.timeout_seconds now w
    pub known : (id : String) → contains ids id ≡ true → has id r.workers ≡ true
    -- a worker that is left HEALTHY or DEGRADED is not late
    pub alive :
        (id : String) (w : WorkerInfo)
        → lookup id r'.workers ≡ some w
        → is_active w.status ≡ true
        → is_late f r.timeout_seconds now w ≡ false

  active_not_offline : (s : DeviceState) → is_active s ≡ true → is_offline s ≡ false
  active_not_offline DeviceState.offline a = sym a
  active_not_offline _ a = refl

  settle_alive :
      (timeout : F) (now : ℕ) (w : WorkerInfo)
      → is_active (settle timeout now w).status ≡ true
      → is_late f timeout now (settle timeout now w) ≡ false
  settle_alive timeout now w a = elim (Bool-cases (is_late f timeout now w)) [
    | inr l ↦ ground (arith, l)
    | inl l ↦ elim (Bool-cases (is_offline w.status)) [
      | inl o ↦ absurd (ground (arith, l, o, a, active_not_offline w.status))
      | inr o ↦ absurd (ground (arith, l, o, a))
    ]
  ]

  -- In a registry whose workers have distinct ids, as a dictionary's keys are, a check marks exactly
  -- the late workers OFFLINE, changes nothing else of any worker, and answers those that were not
  -- OFFLINE before; a worker that is left HEALTHY or DEGRADED is not late.
  pub check_timeouts-IsSettled :
      (now : ℕ) (r : WorkerRegistry F)
      → Distinct (keys r.workers)
      → IsSettled now r (check_timeouts f now r).0 (check_timeouts f now r).1
  unfolding check_timeouts scanned reported
  check_timeouts-IsSettled now r d = record {
    absent = λ id e. ground (arith, e, laws id);
    settled = λ id w e. after_check id w e;
    answered = λ id w e. ground (arith, e, answers id);
    known = λ id c. ground (arith, c, answers id);
    alive = λ id w e a. elim (Option-cases (lookup id r.workers)) [
      | inl gone ↦ absurd (ground (arith, gone, e, laws id))
      | inr (old, had) ↦
          let same : settle r.timeout_seconds now old ≡ w = cc (sym (after_check id old had) ∙ e) in
          subst (λ x. is_late f r.timeout_seconds now x ≡ false) same
            (settle_alive r.timeout_seconds now old
              (subst (λ x. is_active x.status ≡ true) (sym same) a))
    ];
  }
    where
      laws :
          (k : String)
          → lookup k (scan f r.timeout_seconds now r.workers r.workers).0
            ≡ scanned r.timeout_seconds now (lookup k r.workers) (lookup k r.workers)
      laws k = lookup-scan r.timeout_seconds now k r.workers r.workers d

      after_check :
          (id : String) (w : WorkerInfo)
          → lookup id r.workers ≡ some w
          → lookup id (scan f r.timeout_seconds now r.workers r.workers).0
            ≡ some (settle r.timeout_seconds now w)
      after_check id w e = ground (arith, e, laws id)

      answers :
          (k : String)
          → contains (scan f r.timeout_seconds now r.workers r.workers).1 k
            ≡ reported r.timeout_seconds now (lookup k r.workers)
      answers k = contains-scan r.timeout_seconds now k r.workers r.workers d
