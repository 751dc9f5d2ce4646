-- ===== src/Hardware/Topology/Clique.antt =====
-- What `find_best_clique` returns: a group of the size that is asked for, out of the devices that
-- are available, and with the best score.
use drigs.Prelude.{
  ℕ, zero, suc, ◌≤◌, String, ◌≡◌, refl, ap, sym, true, false, List, [], ◌∷◌, ◌++◌, map, subst,
  arith, ltb, length, contains, All, All-append, All-map, Distinct, Bool-cases, inl, inr, ◌⊎◌,
}
use drigs.Float.{Float, HasNonneg, IsOrder}
use drigs.Hardware.Topology.{
  TopologyMatrix, combinations, get_group_topology_score, best_combination, find_best_clique,
  pair_score, add_scores, average_score,
}

-- `c` takes `k` of the entries of `xs`, each at most once, if they are distinct.
pub record IsChoice {κ} (P : String → Type κ) (k : ℕ) (xs c : List String) : Type κ where
  pub sized : length c ≡ k
  pub each : All P xs → All P c
  pub absent : (x : String) → contains xs x ≡ false → contains c x ≡ false
  pub distinct : Distinct xs → Distinct c

module _ {κ} (P : String → Type κ) where
  All-with :
      (k : ℕ) (x : String) (xs : List String) (cs : List (List String))
      → All (IsChoice P k xs) cs
      → All (IsChoice P (suc k) (x ∷ xs)) (map (◌∷◌ x) cs)
  unfolding contains
  All-with k x xs [] h = tt
  All-with k x xs (c ∷ cs) h = (
    record {
      sized = ap suc h.0.sized;
      each = λ a. (a.0, h.0.each a.1);
      absent = λ y e. ground (arith, h.0.absent y);
      distinct = λ d. (h.0.absent x d.0, h.0.distinct d.1);
    },
    All-with k x xs cs h.1,
  )

  All-without :
      (k : ℕ) (x : String) (xs : List String) (cs : List (List String))
      → All (IsChoice P k xs) cs
      → All (IsChoice P k (x ∷ xs)) cs
  unfolding contains
  All-without k x xs [] h = tt
  All-without k x xs (c ∷ cs) h = (
    record {
      sized = h.0.sized;
      each = λ a. h.0.each a.1;
      absent = λ y e. ground (arith, h.0.absent y);
      distinct = λ d. h.0.distinct d.1;
    },
    All-without k x xs cs h.1,
  )

  pub combinations-IsChoice : (k : ℕ) (xs : List String) → All (IsChoice P k xs) (combinations k xs)
  unfolding combinations contains
  combinations-IsChoice zero xs =
      (record { sized = refl; each = λ a. tt; absent = λ x e. refl; distinct = λ d. tt }, tt)
  combinations-IsChoice (suc k) [] = tt
  combinations-IsChoice (suc k) (x ∷ xs) =
      All-append _ (map (◌∷◌ x) (combinations k xs)) (combinations (suc k) xs)
        (All-with k x xs (combinations k xs) (combinations-IsChoice k xs))
        (All-without (suc k) x xs (combinations (suc k) xs) (combinations-IsChoice (suc k) xs))

-- There is a choice of `k` entries if there are as many.
combinations-nonempty :
    (k : ℕ) (xs : List String)
    → k ≤ length xs
    → (c : List String) × (cs : List (List String)) × (combinations k xs ≡ c ∷ cs)
unfolding combinations
combinations-nonempty zero xs h = ([], [], refl)
combinations-nonempty (suc k) [] h = absurd (omega arith)
combinations-nonempty (suc k) (x ∷ xs) h =
    let (c, cs, e) = combinations-nonempty k xs (omega arith) in
    (x ∷ c, map (◌∷◌ x) cs ++ combinations (suc k) xs, rw e)

module _ (f : Float) (n : HasNonneg f) (m : TopologyMatrix) where
  open f use {F, of_nat, add, over, minus_one, lt}

  pair_score-Nonneg : (c : List String) → n.Nonneg (pair_score f m c)
  pair_score-Nonneg (a ∷ b ∷ []) = n.of_nat-Nonneg _
  pair_score-Nonneg [] = n.of_nat-Nonneg 0
  pair_score-Nonneg (a ∷ []) = n.of_nat-Nonneg 0
  pair_score-Nonneg (a ∷ b ∷ c ∷ cs) = n.of_nat-Nonneg 0

  add_scores-Nonneg :
      (acc : F) (pairs : List (List String)) → n.Nonneg acc → n.Nonneg (add_scores f m acc pairs)
  add_scores-Nonneg acc [] h = h
  add_scores-Nonneg acc (p ∷ ps) h =
      add_scores-Nonneg (add acc (pair_score f m p)) ps (n.add-Nonneg _ _ h (pair_score-Nonneg p))

  average_score-Nonneg :
      (pairs : List (List String))
      → (c : List String) × (cs : List (List String)) × (pairs ≡ c ∷ cs)
      → n.Nonneg (average_score f m pairs)
  average_score-Nonneg pairs (c, cs, e) =
      subst (λ ps. n.Nonneg (average_score f m ps)) (sym e)
        (n.over-Nonneg (add_scores f m (of_nat 0) (c ∷ cs)) (length cs)
          (add_scores-Nonneg (of_nat 0) (c ∷ cs) (n.of_nat-Nonneg 0)))

  -- The score of a group of two or more exceeds -1.0, the initial best.
  pub score_above :
      (c : List String) → 2 ≤ length c → lt minus_one (get_group_topology_score f c m) ≡ true
  unfolding get_group_topology_score
  score_above [] h = absurd (omega arith)
  score_above (a ∷ []) h = absurd (omega arith)
  score_above (a ∷ b ∷ ids) h = n.above_minus_one _ (
      average_score-Nonneg (combinations 2 (a ∷ b ∷ ids))
        (combinations-nonempty 2 (a ∷ b ∷ ids) (omega arith)))

  pub score_above_any :
      (c : List String) → 1 ≤ length c → lt minus_one (get_group_topology_score f c m) ≡ true
  unfolding get_group_topology_score
  score_above_any [] h = absurd (omega arith)
  score_above_any (a ∷ []) h = n.above_minus_one _ (n.of_nat-Nonneg 100)
  score_above_any (a ∷ b ∷ ids) h = score_above (a ∷ b ∷ ids) (omega arith)

module _ (f : Float) (m : TopologyMatrix) where
  open f use {F, minus_one, lt}

  abbrev score : List String → F
  score c = get_group_topology_score f c m

  -- The result of the loop is the best so far, or an entry of the list.
  best_combination-All {κ} :
      (Q : List String → Type κ) (bs : F) (best : List String) (cs : List (List String))
      → Q best
      → All Q cs
      → Q (best_combination f m bs best cs)
  unfolding best_combination
  best_combination-All Q bs best [] q h = q
  best_combination-All Q bs best (c ∷ cs) q h = elim (Bool-cases (lt bs (score c))) [
    | inl e ↦ rw e (best_combination-All Q (score c) c cs h.0 h.1)
    | inr e ↦ rw e (best_combination-All Q bs best cs q h.1)
  ]

  module _ (bs : F) (best c : List String) (cs : List (List String)) where
    step_better :
        lt bs (score c) ≡ true
        → best_combination f m bs best (c ∷ cs) ≡ best_combination f m (score c) c cs
    unfolding best_combination
    step_better e = rw e

    step_worse :
        lt bs (score c) ≡ false
        → best_combination f m bs best (c ∷ cs) ≡ best_combination f m bs best cs
    unfolding best_combination
    step_worse e = rw e

  module _ (o : IsOrder f) where
    -- No entry of the list beats the result.
    abbrev Wins : F → List String → List (List String) → List String → Type 0
    Wins bs best cs r =
        ((r ≡ best) × All (λ c. lt bs (score c) ≡ false) cs)
        ⊎ ((lt bs (score r) ≡ true) × All (λ c. lt (score r) (score c) ≡ false) cs)

    asym : (x y : F) → lt x y ≡ true → lt y x ≡ false
    asym x y h = elim (Bool-cases (lt y x)) [
      | inl e ↦ cc (o.trans x y x h e, o.irrefl x)
      | inr e ↦ e
    ]

    not_between : (x y z : F) → lt x y ≡ true → lt x z ≡ false → lt y z ≡ false
    not_between x y z h k = elim (Bool-cases (lt y z)) [
      | inl e ↦ cc (o.trans x y z h e)
      | inr e ↦ e
    ]

    best_combination-Wins :
        (bs : F) (best : List String) (cs : List (List String))
        → Wins bs best cs (best_combination f m bs best cs)
    unfolding best_combination
    best_combination-Wins bs best [] = inl (refl, tt)
    best_combination-Wins bs best (c ∷ cs) = elim (Bool-cases (lt bs (score c))) [
      | inl e ↦
          subst (Wins bs best (c ∷ cs)) (sym (step_better bs best c cs e))
            (elim (best_combination-Wins (score c) c cs) [
              | inl (r, h) ↦
                  subst (Wins bs best (c ∷ cs)) (sym r) (inr (e, (o.irrefl (score c), h)))
              | inr (l, h) ↦ inr (o.trans _ _ _ e l, (asym _ _ l, h))
            ])
      | inr e ↦
          subst (Wins bs best (c ∷ cs)) (sym (step_worse bs best c cs e))
            (elim (best_combination-Wins bs best cs) [
              | inl (r, h) ↦ inl (r, (e, h))
              | inr (l, h) ↦ inr (l, (not_between _ _ _ l e, h))
            ])
    ]

module _ {κ} (P : String → Type κ) (f : Float) (n : HasNonneg f) (m : TopologyMatrix) where
  open f use {minus_one, lt}

  -- The loop from its start, over choices of two or more, returns one of them.
  from_start :
      (k : ℕ) (ids : List String) (cs : List (List String))
      → 2 ≤ k
      → All (IsChoice P k ids) cs
      → (c : List String) × (rest : List (List String)) × (cs ≡ c ∷ rest)
      → IsChoice P k ids (best_combination f m minus_one [] cs)
  unfolding best_combination
  from_start k ids cs two h (c, rest, e) =
      let h' : All (IsChoice P k ids) (c ∷ rest) = subst (All (IsChoice P k ids)) e h in
      subst (λ l. IsChoice P k ids (best_combination f m minus_one [] l)) (sym e)
        (subst (IsChoice P k ids)
          (sym
            (step_better f m minus_one [] c rest (score_above f n m c (omega (arith, h'.0.sized)))))
          (best_combination-All f m (IsChoice P k ids) (score f m c) c rest h'.0 h'.1))

  -- A group of the size that is asked for, out of the available devices.
  pub find_best_clique-IsChoice :
      (k : ℕ) (ids : List String) → k ≤ length ids → IsChoice P k ids (find_best_clique f k ids m)
  unfolding find_best_clique contains
  find_best_clique-IsChoice zero ids h = record {
    sized = refl;
    each = λ a. tt;
    absent = λ x e. refl;
    distinct = λ d. tt;
  }
  find_best_clique-IsChoice (suc zero) [] h = absurd (omega arith)
  find_best_clique-IsChoice (suc zero) (id ∷ ids) h = record {
    sized = refl;
    each = λ a. (a.0, tt);
    absent = λ x e. ground arith;
    distinct = λ d. (refl, tt);
  }
  find_best_clique-IsChoice (suc (suc k)) ids h =
      let e : ltb (length ids) (suc (suc k)) ≡ false = ground arith in
      rw e (
        from_start (suc (suc k)) ids (combinations (suc (suc k)) ids) (omega arith)
          (combinations-IsChoice P (suc (suc k)) ids) (combinations-nonempty (suc (suc k)) ids h))

-- No group of the list has a better score than `r`.
abbrev pub NoneBeats : (f : Float) → TopologyMatrix → List String → List (List String) → Type 0
NoneBeats f m r =
    All (λ c. f.lt (get_group_topology_score f r m) (get_group_topology_score f c m) ≡ false)

module _ (f : Float) (n : HasNonneg f) (o : IsOrder f) (m : TopologyMatrix) where
  open f use {of_nat, minus_one, lt}

  singleton_score : (c : List String) → length c ≡ 1 → get_group_topology_score f c m ≡ of_nat 100
  unfolding get_group_topology_score
  singleton_score [] h = absurd (omega arith)
  singleton_score (a ∷ []) h = refl
  singleton_score (a ∷ b ∷ c) h = absurd (omega arith)

  singletons :
      (r : List String) (ids : List String) (cs : List (List String))
      → length r ≡ 1
      → All (IsChoice (λ _. Unit {0}) 1 ids) cs
      → NoneBeats f m r cs
  singletons r ids [] e h = tt
  singletons r ids (c ∷ cs) e h = (
    rw (singleton_score r e, singleton_score c h.0.sized) (o.irrefl (of_nat 100)),
    singletons r ids cs e h.1,
  )

  from_start-NoneBeats :
      (cs : List (List String))
      → All (λ c. 2 ≤ length c) cs
      → (c : List String) × (rest : List (List String)) × (cs ≡ c ∷ rest)
      → NoneBeats f m (best_combination f m minus_one [] cs) cs
  from_start-NoneBeats cs h (c, rest, e) =
      let two : All (λ c. 2 ≤ length c) (c ∷ rest) = subst (All (λ c. 2 ≤ length c)) e h in
      subst (λ l. NoneBeats f m (best_combination f m minus_one [] l) l) (sym e)
        (elim (best_combination-Wins f m o minus_one [] (c ∷ rest)) [
          | inl (r, none) ↦ cc (score_above f n m c two.0, none.0)
          | inr (l, all) ↦ all
        ])

  large_clique :
      (k : ℕ) (ids : List String)
      → suc (suc k) ≤ length ids
      → find_best_clique f (suc (suc k)) ids m
        ≡ best_combination f m minus_one [] (combinations (suc (suc k)) ids)
  unfolding find_best_clique
  large_clique k ids h = let e : ltb (length ids) (suc (suc k)) ≡ false = ground arith in rw e

  -- If as many devices are available, no group of the size asked for out of the available devices
  -- has a better score than the one returned, for float arithmetic in which scores are not negative
  -- and less-than is a strict order.
  pub find_best_clique-NoneBeats :
      (k : ℕ) (ids : List String)
      → k ≤ length ids
      → NoneBeats f m (find_best_clique f k ids m) (combinations k ids)
  find_best_clique-NoneBeats zero ids h = unfold find_best_clique combinations in (o.irrefl _, tt)
  find_best_clique-NoneBeats (suc zero) ids h =
      singletons (find_best_clique f 1 ids m) ids (combinations 1 ids)
        (find_best_clique-IsChoice (λ _. Unit {0}) f n m 1 ids h).sized
        (combinations-IsChoice (λ _. Unit {0}) 1 ids)
  find_best_clique-NoneBeats (suc (suc k)) ids h =
      let cs = combinations (suc (suc k)) ids in
      subst (λ r. NoneBeats f m r cs) (sym (large_clique k ids h))
        (from_start-NoneBeats cs
          (All-map (IsChoice (λ _. Unit {0}) (suc (suc k)) ids) (λ c. 2 ≤ length c)
            (λ c i. omega (arith, i.sized)) cs
            (combinations-IsChoice (λ _. Unit {0}) (suc (suc k)) ids))
          (combinations-nonempty (suc (suc k)) ids h))
