-- ===== src/Prelude/Sort.antt =====
-- Python's `sorted` and `list.sort`: a stable sort by a Boolean order. `le x y` says that `x` may
-- stand before `y`; among equals the earlier one stays first.
use Prim.Native.Nat.{suc}
use mathlib.Core.Path.{◌≡◌, refl, ap, ◌∙◌}
use mathlib.Core.Bool.{Bool, true, false}
use mathlib.Core.List.{List, [], ◌∷◌, Perm}
use mathlib.Core.List.Perm
use native.Mathlib.Omega.{arith}
use drigs.Prelude.Tests.{if◌then◌else◌, Bool-cases}
use Prim.Native.String.{String}
use mathlib.Core.List.{map}
use drigs.Prelude.Lists.{length, All, All-map, contains, Distinct}
use mathlib.Core.Logic.{inl, inr}

module _ {ℓ} {A : Type ℓ} (le : A → A → Bool) where
  unfoldable pub insert : A → List A → List A
  insert x [] = x ∷ []
  insert x (y ∷ ys) = let rest = insert x ys in if le x y then x ∷ y ∷ ys else y ∷ rest

  unfoldable pub sort : List A → List A
  unfolding insert
  sort [] = []
  sort (x ∷ xs) = insert x (sort xs)

  insert-perm : (x : A) (ys : List A) → Perm (insert x ys) (x ∷ ys)
  unfolding insert
  insert-perm x [] = Perm.rfl
  insert-perm x (y ∷ ys) = elim (Bool-cases (le x y)) [
    | inl e ↦ rw e Perm.rfl
    | inr e ↦ rw e (Perm.trans (Perm.cons y (insert-perm x ys)) (Perm.swap x y ys))
  ]

  -- Sorting keeps every element, as often as it occurs.
  pub sort-perm : (xs : List A) → Perm (sort xs) xs
  unfolding sort
  sort-perm [] = Perm.rfl
  sort-perm (x ∷ xs) = Perm.trans (insert-perm x (sort xs)) (Perm.cons x (sort-perm xs))

  length-insert : (x : A) (ys : List A) → length (insert x ys) ≡ suc (length ys)
  unfolding insert
  length-insert x [] = refl
  length-insert x (y ∷ ys) = ground (arith, length-insert x ys)

  pub length-sort : (xs : List A) → length (sort xs) ≡ length xs
  unfolding sort
  length-sort [] = refl
  length-sort (x ∷ xs) = length-insert x (sort xs) ∙ ap suc (length-sort xs)

  -- The texts that the elements carry stay distinct.
  module _ (f : A → String) where
    contains-insert :
        (x : A) (ys : List A) (t : String)
        → contains (map f (insert x ys)) t ≡ contains (f x ∷ map f ys) t
    unfolding insert contains
    contains-insert x [] t = refl
    contains-insert x (y ∷ ys) t = ground (arith, contains-insert x ys t)

    pub contains-sort :
        (xs : List A) (t : String) → contains (map f (sort xs)) t ≡ contains (map f xs) t
    unfolding sort contains
    contains-sort [] t = refl
    contains-sort (x ∷ xs) t = ground (arith, contains-insert x (sort xs) t, contains-sort xs t)

    Distinct-insert :
        (x : A) (ys : List A) → Distinct (f x ∷ map f ys) → Distinct (map f (insert x ys))
    unfolding insert contains
    Distinct-insert x [] d = d
    Distinct-insert x (y ∷ ys) d = elim (Bool-cases (le x y)) [
      | inl e ↦ rw e d
      | inr e ↦ rw e (rw contains-insert (ground arith), Distinct-insert x ys (ground arith))
    ]

    pub Distinct-sort : (xs : List A) → Distinct (map f xs) → Distinct (map f (sort xs))
    unfolding sort
    Distinct-sort [] d = tt
    Distinct-sort (x ∷ xs) d =
        Distinct-insert x (sort xs) (rw contains-sort d.0, Distinct-sort xs d.1)

  -- Every element may stand before all that follow it.
  abbrev pub IsSorted : List A → Type 0
  IsSorted [] = Unit
  IsSorted (x ∷ xs) = All (λ y. le x y ≡ true) xs × IsSorted xs

  module _ {κ} (P : A → Type κ) where
    All-insert : (x : A) (ys : List A) → P x → All P ys → All P (insert x ys)
    unfolding insert
    All-insert x [] p h = (p, tt)
    All-insert x (y ∷ ys) p h = elim (Bool-cases (le x y)) [
      | inl e ↦ rw e (p, h)
      | inr e ↦ rw e (h.0, All-insert x ys p h.1)
    ]

    pub All-sort : (xs : List A) → All P xs → All P (sort xs)
    unfolding sort
    All-sort [] h = tt
    All-sort (x ∷ xs) h = All-insert x (sort xs) h.0 (All-sort xs h.1)

  module _ {κ} (P : A → Type κ) where
    All-of_insert : (x : A) (ys : List A) → All P (insert x ys) → P x × All P ys
    unfolding insert
    All-of_insert x [] h = (h.0, tt)
    All-of_insert x (y ∷ ys) h = elim (Bool-cases (le x y)) [
      | inl e ↦ rw e at h
      | inr e ↦
          let h' : P y × All P (insert x ys) = rw e at h in
          let (p, rest) = All-of_insert x ys h'.1 in (p, (h'.0, rest))
    ]

    pub All-of_sort : (xs : List A) → All P (sort xs) → All P xs
    unfolding sort
    All-of_sort [] h = tt
    All-of_sort (x ∷ xs) h = let (p, rest) = All-of_insert x (sort xs) h in (p, All-of_sort xs rest)

  module _ (total : (x y : A) → le x y ≡ false → le y x ≡ true)
      (trans : (x y z : A) → le x y ≡ true → le y z ≡ true → le x z ≡ true) where
    insert-IsSorted : (x : A) (ys : List A) → IsSorted ys → IsSorted (insert x ys)
    unfolding insert
    insert-IsSorted x [] s = (tt, tt)
    insert-IsSorted x (y ∷ ys) s = elim (Bool-cases (le x y)) [
      | inl e ↦ rw e (
        (e, All-map (λ z. le y z ≡ true) (λ z. le x z ≡ true) (λ z h. trans x y z e h) ys s.0),
        s,
      )
      | inr e ↦
          rw e (All-insert (λ z. le y z ≡ true) x ys (total x y e) s.0, insert-IsSorted x ys s.1)
    ]

    pub sort-IsSorted : (xs : List A) → IsSorted (sort xs)
    unfolding sort
    sort-IsSorted [] = tt
    sort-IsSorted (x ∷ xs) = insert-IsSorted x (sort xs) (sort-IsSorted xs)
