-- ===== src/Recovery/Checkpoint/Selection.antt =====
-- CheckpointManager in drigs/recovery/checkpoint.py: which checkpoint is the latest, and which files
-- a cleanup leaves.
use drigs.Prelude.{
  ℕ, suc, ◌-◌, ◌≤◌, String, ◌≡◌, refl, sym, ap, ◌∙◌, subst, Bool, true, false, Option, none, some,
  List, [], ◌∷◌, map, length, take, length-take, leb, leb→le, All, All-intro, All-Among, All-take,
  Among, ◌+◌, zero, dec_text, arith, contains, if◌then◌else◌, Bool-cases, Option-cases, inl, inr,
}
use drigs.Prelude.Sort.{insert, sort, IsSorted, sort-IsSorted, All-sort, All-of_sort, length-sort}
use drigs.Dict.{lookup, remove, has, lookup-remove}
use drigs.Recovery.Checkpoint.{
  Manifest, Files, manifests_in, le_step, list_checkpoints, last, get_latest_checkpoint,
  delete_files, all_but_last, cleanup_checkpoints,
}

-- None if there is no manifest, and else one of them with the greatest step.
unfoldable pub IsLatest : List Manifest → Option Manifest → Type 0
IsLatest ms none = ms ≡ []
IsLatest ms (some m) = Among m ms × All (λ n. n.step ≤ m.step) ms

last-IsLatest : (ms : List Manifest) → IsSorted le_step ms → IsLatest ms (last ms)
unfolding last IsLatest
last-IsLatest [] s = refl
last-IsLatest (m ∷ ms) s = elim (Option-cases (last ms)) [
  | inl e ↦
      let nil : ms ≡ [] = subst (IsLatest ms) e (last-IsLatest ms s.1) in
      rw (last, e) (inl refl, (omega arith, subst (All (λ n. n.step ≤ m.step)) (sym nil) tt))
  | inr (n, e) ↦
      let (among, latest) = subst (IsLatest ms) e (last-IsLatest ms s.1) in
      rw (last, e)
        (
          inr among,
          (leb→le m.step n.step (All-Among (λ k. le_step m k ≡ true) ms n s.0 among), latest),
        )
]

le_step_total : (m n : Manifest) → le_step m n ≡ false → le_step n m ≡ true
le_step_total m n h = ground arith

le_step_trans : (l m n : Manifest) → le_step l m ≡ true → le_step m n ≡ true → le_step l n ≡ true
le_step_trans l m n g h = ground arith

empty_of_length : (ms : List Manifest) → length ms ≡ 0 → ms ≡ []
empty_of_length [] e = refl
empty_of_length (m ∷ ms) e = absurd (omega (arith, e))

Among-sort : (m : Manifest) (ms : List Manifest) → Among m (sort le_step ms) → Among m ms
Among-sort m ms h =
    All-Among (λ n. Among n ms) (sort le_step ms) m
      (All-sort le_step (λ n. Among n ms) ms (All-intro (λ n. Among n ms) ms (λ n a. a))) h

sort-IsLatest :
    (ms : List Manifest) (o : Option Manifest) → IsLatest (sort le_step ms) o → IsLatest ms o
unfolding IsLatest
sort-IsLatest ms none e = empty_of_length ms (sym (length-sort le_step ms) ∙ ap length e)
sort-IsLatest ms (some m) h =
    (Among-sort m ms h.0, All-of_sort le_step (λ n. n.step ≤ m.step) ms h.1)

-- The latest checkpoint is none just if no file of the job is a manifest, and else one of the
-- manifests of the job, none of which has a later step.
pub get_latest_checkpoint-IsLatest :
    (matches : String → Bool) (files : Files)
    → IsLatest (manifests_in matches files) (get_latest_checkpoint matches files)
unfolding get_latest_checkpoint list_checkpoints
get_latest_checkpoint-IsLatest matches files =
    let ms = manifests_in matches files in
    sort-IsLatest ms (last (sort le_step ms))
      (last-IsLatest (sort le_step ms) (sort-IsSorted le_step le_step_total le_step_trans ms))

-- The paths that some manifests name.
abbrev pub paths : List Manifest → List String
paths = map (λ m. m.filepath)

-- The number of the manifests from a step on.
unfoldable pub count_from : ℕ → List Manifest → ℕ
count_from step [] = 0
count_from step (m ∷ ms) =
    let rest = count_from step ms in if leb step m.step then suc rest else rest

module _ (step : ℕ) where
  count_from-insert :
      (m : Manifest) (ms : List Manifest)
      → count_from step (insert le_step m ms) ≡ count_from step (m ∷ ms)
  unfolding count_from insert
  count_from-insert m [] = refl
  count_from-insert m (n ∷ ms) = ground (arith, count_from-insert m ms)

  count_from-sort : (ms : List Manifest) → count_from step (sort le_step ms) ≡ count_from step ms
  unfolding count_from sort
  count_from-sort [] = refl
  count_from-sort (m ∷ ms) =
      ground (arith, count_from-insert m (sort le_step ms), count_from-sort ms)

  -- From the step of the first of some sorted manifests on, all of them count.
  count_from_whole :
      (ms : List Manifest) → All (λ n. leb step n.step ≡ true) ms → count_from step ms ≡ length ms
  unfolding count_from
  count_from_whole [] h = refl
  count_from_whole (m ∷ ms) h = ground (arith, h.0, count_from_whole ms h.1)

take_early :
    (n j : ℕ) (m : Manifest) (ms : List Manifest)
    → IsSorted le_step ms
    → length ms ≡ n + j
    → Among m (take n ms)
    → suc j ≤ count_from m.step ms
unfolding count_from
take_early zero j m ms s e h = absurd h
take_early (suc n) j m [] s e h = absurd h
take_early (suc n) j m (x ∷ xs) s e (inl p) =
    let all : count_from m.step xs ≡ length xs =
      count_from_whole m.step xs (subst (λ y. All (λ n. le_step y n ≡ true) xs) (sym p) s.0) in
    let same : m.step ≡ x.step = ap (λ y. y.step) p in ground (arith, all, e, same)
take_early (suc n) j m (x ∷ xs) s e (inr h) =
    let rest : suc j ≤ count_from m.step xs = take_early n j m xs s.1 (omega (arith, e)) h in
    ground (arith, rest)

Among-take : (n : ℕ) (m : Manifest) (ms : List Manifest) → Among m (take n ms) → Among m ms
Among-take n m ms h =
    All-Among (λ x. Among x ms) (take n ms) m
      (All-take (λ x. Among x ms) n ms (All-intro (λ x. Among x ms) ms (λ x a. a))) h

named_by :
    (path : String) (ms : List Manifest)
    → contains (paths ms) path ≡ true
    → (m : Manifest) × (Among m ms × (m.filepath ≡ path))
unfolding contains
named_by path [] h = cc
named_by path (m ∷ ms) h = elim (dec_text m.filepath path) [
  | yes p ↦ (m, (inl refl, p))
  | no n ↦ let (x, (a, e)) = named_by path ms (ground (arith, h, n)) in (x, (inr a, e))
]

module _ (can_delete : String → Bool) where
  lookup-delete_files :
      (path : String) (ms : List Manifest) (files : Files)
      → contains (paths ms) path ≡ false
      → lookup path (delete_files can_delete ms files).0 ≡ lookup path files
  unfolding delete_files contains
  lookup-delete_files path [] files h = refl
  lookup-delete_files path (m ∷ ms) files h =
      let gone = if has m.filepath files then can_delete m.filepath else false in
      elim (Bool-cases gone) [
        | inl g ↦ rw g (
            ground (
              arith,
              h,
              lookup-delete_files path ms (remove m.filepath files),
              lookup-remove m.filepath path files,
            ))
        | inr g ↦ rw g (lookup-delete_files path ms files (ground (arith, h)))
      ]

  count_le : (ms : List Manifest) (files : Files) → (delete_files can_delete ms files).1 ≤ length ms
  unfolding delete_files
  count_le [] files = omega arith
  count_le (m ∷ ms) files =
      let gone = if has m.filepath files then can_delete m.filepath else false in
      elim (Bool-cases gone) [
        | inl g ↦ rw g (omega (arith, count_le ms (remove m.filepath files)))
        | inr g ↦ rw g (omega (arith, count_le ms files))
      ]

  -- If a cleanup that keeps `suc k` checkpoints changes a file, a manifest of the job names the
  -- file, and at least as many other manifests as are to be kept have no earlier step than it. With
  -- no more manifests than are to be kept nothing is deleted, and else no more files than there are
  -- manifests beyond those.
  pub cleanup_checkpoints_keeps :
      (matches : String → Bool) (k : ℕ) (files : Files)
      → let ms = manifests_in matches files in
        let (files', count) = cleanup_checkpoints matches can_delete (suc k) files in
        ((path : String)
          → ((m : Manifest) → Among m ms → m.filepath ≡ path → count_from m.step ms ≤ suc k)
          → lookup path files' ≡ lookup path files)
        × (count ≤ length ms - suc k)
  unfolding cleanup_checkpoints all_but_last list_checkpoints
  cleanup_checkpoints_keeps matches k files =
      let found = manifests_in matches files in
      let ms = list_checkpoints matches files in
      let old = take (length ms - suc k) ms in
      let same : length ms ≡ length found = length-sort le_step found in
      let sorted = sort-IsSorted le_step le_step_total le_step_trans found in
      elim (Bool-cases (leb (length ms) (suc k))) [
        | inl e ↦ rw (cleanup_checkpoints, e) (λ path h. refl, omega arith)
        | inr e ↦
            let many : length old ≡ length ms - suc k =
              length-take (length ms - suc k) ms (omega arith) in
            rw (cleanup_checkpoints, e)
              (
                λ path h.
                    lookup-delete_files path old files
                      (elim (Bool-cases (contains (paths old) path)) [
                        | inr n ↦ n
                        | inl c ↦
                            let (m, (a, p)) = named_by path old c in
                            let few = h m (Among-sort m found (Among-take _ m ms a)) p in
                            let early =
                              take_early (length ms - suc k) (suc k) m ms sorted (ground (arith, e))
                                a in
                            absurd (omega (arith, few, early, count_from-sort m.step found))
                      ]),
                omega (arith, many, same, count_le old files),
              )
      ]
