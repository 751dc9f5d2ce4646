-- ===== src/Scheduler/Best.antt =====
-- drigs/scheduler/fit.py, binpack.py and memory_aware.py: the loop that keeps the best worker.
use drigs.Prelude.{
  String, ◌≡◌, ◌≢◌, refl, sym, ap, subst, ◌∙◌, Bool, true, false, Option, none, some, List, [], ◌∷◌,
  All, Bool-cases, Option-cases, inl, inr,
}
use drigs.Scheduler.Placement.{Placement}
use drigs.Scheduler.Policies.{improve, best_worker, best_placement}

module _ {ℓ} {F : Type ℓ} (better : F → F → Bool) (score : String → Option (F × List String))
    (irrefl : (x : F) → better x x ≡ false)
    (trans : (x y z : F) → better x y ≡ true → better y z ≡ true → better x z ≡ true) where
  -- No worker of the list has a better score.
  abbrev pub NoneBetter : F → List String → Type ℓ
  NoneBetter s =
      All (λ id. (s' : F) (gpus : List String) → score id ≡ some (s', gpus) → better s' s ≡ false)

  -- The end of the loop that starts with the score `s0`.
  record Wins (s0 : F) (p0 : Placement) (ids : List String) : Type ℓ where
    s : F
    p : Placement
    result : best_worker better score (some (s0, p0)) ids ≡ some (s, p)
    keeps : (x : F) → better x s0 ≡ false → better x s ≡ false
    all : NoneBetter s ids
    own : score p0.worker ≡ some (s0, p0.gpus) → score p.worker ≡ some (s, p.gpus)

  not_better : (x s1 s0 : F) → better s1 s0 ≡ true → better x s0 ≡ false → better x s1 ≡ false
  not_better x s1 s0 b n = elim (Bool-cases (better x s1)) [
    | inl t ↦ cc (trans x s1 s0 t b)
    | inr h ↦ h
  ]

  -- The branches of one round.
  skips :
      (best : Option (F × Placement)) (id : String)
      → score id ≡ none
      → improve better score best id ≡ best
  skips best id e = rw (improve, e)

  starts :
      (id : String) (s : F) (gpus : List String)
      → score id ≡ some (s, gpus)
      → improve better score none id ≡ some (s, record { worker = id; gpus = gpus })
  starts id s gpus e = rw (improve, e)

  beats :
      (id : String) (s0 s : F) (p0 : Placement) (gpus : List String)
      → score id ≡ some (s, gpus)
      → better s s0 ≡ true
      → improve better score (some (s0, p0)) id ≡ some (s, record { worker = id; gpus = gpus })
  beats id s0 s p0 gpus e b = rw (improve, e, b)

  stays :
      (id : String) (s0 s : F) (p0 : Placement) (gpus : List String)
      → score id ≡ some (s, gpus)
      → better s s0 ≡ false
      → improve better score (some (s0, p0)) id ≡ some (s0, p0)
  stays id s0 s p0 gpus e b = rw (improve, e, b)

  best_worker-Wins : (s0 : F) (p0 : Placement) (ids : List String) → Wins s0 p0 ids
  unfolding best_worker
  best_worker-Wins s0 p0 [] = record {
    s = s0;
    p = p0;
    result = refl;
    keeps = λ x n. n;
    all = tt;
    own = λ e. e;
  }
  best_worker-Wins s0 p0 (id ∷ more) = elim (Option-cases (score id)) [
    | inl e ↦
        let w = best_worker-Wins s0 p0 more in
        record {
          s = w.s;
          p = w.p;
          result =
              ap (λ b. best_worker better score b more) (skips (some (s0, p0)) id e) ∙ w.result;
          keeps = w.keeps;
          all = (λ s' gpus f. cc, w.all);
          own = w.own;
        }
    | inr ((s1, gpus1), e) ↦ elim (Bool-cases (better s1 s0)) [
      | inl b ↦
          let p1 : Placement = record { worker = id; gpus = gpus1 } in
          let w = best_worker-Wins s1 p1 more in
          record {
            s = w.s;
            p = w.p;
            result =
                ap (λ b. best_worker better score b more) (beats id s0 s1 p0 gpus1 e b) ∙ w.result;
            keeps = λ x n. w.keeps x (not_better x s1 s0 b n);
            all = (λ s' gpus f. w.keeps s' (same s1 s' gpus1 gpus (sym e ∙ f) (irrefl s1)), w.all);
            own = λ f. w.own e;
          }
      | inr b ↦
          let w = best_worker-Wins s0 p0 more in
          record {
            s = w.s;
            p = w.p;
            result =
                ap (λ b. best_worker better score b more) (stays id s0 s1 p0 gpus1 e b) ∙ w.result;
            keeps = w.keeps;
            all = (λ s' gpus f. w.keeps s' (below s1 s' gpus1 gpus (sym e ∙ f) b), w.all);
            own = w.own;
          }
    ]
  ]
    where
      same :
          (a b : F) (g h : List String)
          → ◌≡◌ {A = Option (F × List String)} (some (a, g)) (some (b, h))
          → better a a ≡ false
          → better b a ≡ false
      same a b g h e n = cc

      below :
          (a b : F) (g h : List String)
          → ◌≡◌ {A = Option (F × List String)} (some (a, g)) (some (b, h))
          → better a s0 ≡ false
          → better b s0 ≡ false
      below a b g h e n = cc

  chosen_of :
      (ids : List String) (s : F) (p : Placement)
      → best_worker better score none ids ≡ some (s, p)
      → best_placement better score ids ≡ some p
  unfolding best_placement
  chosen_of ids s p e = rw (best_placement, e)

  start_none :
      (id : String) (more : List String)
      → score id ≡ none
      → best_placement better score (id ∷ more) ≡ best_placement better score more
  unfolding best_placement best_worker
  start_none id more e =
      ap (λ b. elim (best_worker better score b more) [ none ↦ none | some (s, p) ↦ some p ])
        (skips none id e)

  start_some :
      (id : String) (more : List String) (s : F) (gpus : List String)
      → score id ≡ some (s, gpus)
      → best_worker better score none (id ∷ more)
        ≡ best_worker better score (some (s, record { worker = id; gpus = gpus })) more
  unfolding best_worker
  start_some id more s gpus e = ap (λ b. best_worker better score b more) (starts id s gpus e)

  nothing : (p : Placement) → best_placement better score [] ≢ some p
  unfolding best_placement best_worker
  nothing p h = cc

  -- If `better` is a strict order, then the placement that the loop over the workers settles on has
  -- the score of its worker and that worker's GPUs, and no worker of the list has a better score.
  pub best_placement-NoneBetter :
      (ids : List String) (p : Placement)
      → best_placement better score ids ≡ some p
      → (s : F) × (score p.worker ≡ some (s, p.gpus)) × NoneBetter s ids
  best_placement-NoneBetter [] p h = absurd (nothing p h)
  best_placement-NoneBetter (id ∷ more) p h = elim (Option-cases (score id)) [
    | inl e ↦
        let (s, own, all) = best_placement-NoneBetter more p (sym (start_none id more e) ∙ h) in
        (s, own, (λ s' gpus f. cc, all))
    | inr ((s1, gpus1), e) ↦
        let p1 : Placement = record { worker = id; gpus = gpus1 } in
        let w = best_worker-Wins s1 p1 more in
        let found = chosen_of (id ∷ more) w.s w.p (start_some id more s1 gpus1 e ∙ w.result) in
        let same : w.p ≡ p = cc (sym found ∙ h) in
        (
          w.s,
          subst (λ (x : Placement). score x.worker ≡ some (w.s, x.gpus)) same (w.own e),
          (λ s' gpus f. w.keeps s' (best_first s1 s' gpus1 gpus (sym e ∙ f)), w.all),
        )
  ]
    where
      best_first :
          (a b : F) (g k : List String)
          → ◌≡◌ {A = Option (F × List String)} (some (a, g)) (some (b, k))
          → better b a ≡ false
      best_first a b g k e = let n = irrefl a in cc
