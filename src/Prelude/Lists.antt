-- ===== src/Prelude/Lists.antt =====
-- Lists measured and indexed by native numbers, under the library's names, and lists of texts.
use Prim.Native.Nat.{ℕ, zero, suc, ◌+◌, ◌≤◌}
use Prim.Native.String.{String}
use mathlib.Core.Path.{◌≡◌, refl, ap, sym, subst}
use mathlib.Core.Logic.{◌≢◌, ite, ◌⊎◌, inl, inr}
use mathlib.Core.Option.{Option, none, some}
use mathlib.Core.Bool.{Bool, true, false}
use mathlib.Core.List.{List, [], ◌∷◌, ◌++◌, map}
use native.Mathlib.Omega.{arith}
use drigs.Prelude.Tests.{dec_text, if◌then◌else◌}

module _ {ℓ} {A : Type ℓ} where
  abbrev pub length : List A → ℕ
  length [] = 0
  length (x ∷ xs) = suc (length xs)

  abbrev pub take : ℕ → List A → List A
  take zero xs = []
  take (suc n) [] = []
  take (suc n) (x ∷ xs) = x ∷ take n xs

  abbrev pub get_elem? : List A → ℕ → Option A
  get_elem? [] n = none
  get_elem? (x ∷ xs) zero = some x
  get_elem? (x ∷ xs) (suc n) = get_elem? xs n

  -- A predicate of every element. It computes to a tuple, which the tactics read.
  abbrev pub All {κ} : (A → Type κ) → List A → Type κ
  All P [] = Unit
  All P (x ∷ xs) = P x × All P xs

  abbrev pub is_empty : List A → Bool
  is_empty [] = true
  is_empty (x ∷ xs) = false

  pub length-append : (xs ys : List A) → length (xs ++ ys) ≡ length xs + length ys
  length-append [] ys = omega arith
  length-append (x ∷ xs) ys = omega (arith, length-append xs ys)

  pub length-take : (n : ℕ) (xs : List A) → n ≤ length xs → length (take n xs) ≡ n
  length-take zero xs h = refl
  length-take (suc n) [] h = absurd (omega arith)
  length-take (suc n) (x ∷ xs) h = ap suc (length-take n xs (omega arith))

-- `x` stands in the list.
abbrev pub Among : {A : Type 0} → A → List A → Type 0
Among x [] = ⊥
Among x (y ∷ ys) = (x ≡ y) ⊎ Among x ys

module _ {A : Type 0} where
  pub All-intro {κ} : (P : A → Type κ) (xs : List A) → ((x : A) → Among x xs → P x) → All P xs
  All-intro P [] f = tt
  All-intro P (x ∷ xs) f = (f x (inl refl), All-intro P xs (λ y m. f y (inr m)))

  pub All-Among {κ} : (P : A → Type κ) (xs : List A) (x : A) → All P xs → Among x xs → P x
  All-Among P [] x h m = absurd m
  All-Among P (y ∷ ys) x h (inl e) = subst P (sym e) h.0
  All-Among P (y ∷ ys) x h (inr m) = All-Among P ys x h.1 m

module _ {ℓ} {A : Type ℓ} where
  pub All-append {κ} : (P : A → Type κ) (xs ys : List A) → All P xs → All P ys → All P (xs ++ ys)
  All-append P [] ys h k = k
  All-append P (x ∷ xs) ys h k = (h.0, All-append P xs ys h.1 k)

  pub All-take {κ} : (P : A → Type κ) (n : ℕ) (xs : List A) → All P xs → All P (take n xs)
  All-take P zero xs h = tt
  All-take P (suc n) [] h = tt
  All-take P (suc n) (x ∷ xs) h = (h.0, All-take P n xs h.1)

  pub All-map {κ κ'} :
      (P : A → Type κ) (Q : A → Type κ') (f : (x : A) → P x → Q x) (xs : List A)
      → All P xs
      → All Q xs
  All-map P Q f [] h = tt
  All-map P Q f (x ∷ xs) h = (f x h.0, All-map P Q f xs h.1)

  pub All-of_map {κ κ'} :
      {B : Type κ} (P : B → Type κ') (f : A → B) (xs : List A)
      → All P (map f xs)
      → All (λ x. P (f x)) xs
  All-of_map P f [] h = tt
  All-of_map P f (x ∷ xs) h = (h.0, All-of_map P f xs h.1)

  pub All-to_map {κ κ'} :
      {B : Type κ} (P : B → Type κ') (f : A → B) (xs : List A)
      → All (λ x. P (f x)) xs
      → All P (map f xs)
  All-to_map P f [] h = tt
  All-to_map P f (x ∷ xs) h = (h.0, All-to_map P f xs h.1)

  pub length-map {κ} : {B : Type κ} (f : A → B) (xs : List A) → length (map f xs) ≡ length xs
  length-map f [] = refl
  length-map f (x ∷ xs) = ap suc (length-map f xs)

  pub map-take {κ} :
      {B : Type κ} (f : A → B) (n : ℕ) (xs : List A) → map f (take n xs) ≡ take n (map f xs)
  map-take f zero xs = refl
  map-take f (suc n) [] = refl
  map-take f (suc n) (x ∷ xs) = ap (◌∷◌ (f x)) (map-take f n xs)

-- `x in xs` on a list or a set of texts.
unfoldable pub contains : List String → String → Bool
contains [] x = false
contains (y ∷ ys) x = let rest = contains ys x in ite (dec_text y x) true rest

-- No text occurs twice.
abbrev pub Distinct : List String → Type 0
Distinct [] = Unit
Distinct (x ∷ xs) = (contains xs x ≡ false) × Distinct xs

abbrev pub sum : List ℕ → ℕ
sum [] = 0
sum (n ∷ ns) = n + sum ns

-- range(start, start + count)
abbrev pub range_from : ℕ → ℕ → List ℕ
range_from start zero = []
range_from start (suc count) = start ∷ range_from (suc start) count

pub contains-append :
    (xs ys : List String) (x : String)
    → contains (xs ++ ys) x ≡ (if contains xs x then true else contains ys x)
unfolding contains
contains-append [] ys x = refl
contains-append (y ∷ xs) ys x = ground (arith, contains-append xs ys x)

-- Two lists have no text in common.
abbrev pub Apart : List String → List String → Type 0
Apart xs ys = All (λ y. contains xs y ≡ false) ys

pub contains-Apart :
    (xs ys : List String) (x : String) → Apart xs ys → contains xs x ≡ true → contains ys x ≡ false
unfolding contains
contains-Apart xs [] x h e = refl
contains-Apart xs (y ∷ ys) x h e = ground (arith, contains-Apart xs ys x h.1 e)

pub Distinct-append :
    (xs ys : List String) → Distinct xs → Distinct ys → Apart xs ys → Distinct (xs ++ ys)
unfolding contains
Distinct-append [] ys dx dy h = dy
Distinct-append (x ∷ xs) ys dx dy h = (
  rw contains-append (ground (arith, contains-Apart (x ∷ xs) ys x h)),
  Distinct-append xs ys dx.1 dy (
      All-map (λ y. contains (x ∷ xs) y ≡ false) (λ y. contains xs y ≡ false) (λ y e. ground arith)
        ys h),
)

pub contains-take :
    (n : ℕ) (xs : List String) (x : String) → contains xs x ≡ false → contains (take n xs) x ≡ false
unfolding contains
contains-take zero xs x h = refl
contains-take (suc n) [] x h = refl
contains-take (suc n) (y ∷ ys) x h = ground (arith, contains-take n ys x)

pub Distinct-take : (n : ℕ) (xs : List String) → Distinct xs → Distinct (take n xs)
Distinct-take zero xs d = tt
Distinct-take (suc n) [] d = tt
Distinct-take (suc n) (x ∷ xs) d = (contains-take n xs x d.0, Distinct-take n xs d.1)

pub range_from-append :
    (start m n : ℕ) → range_from start m ++ range_from (start + m) n ≡ range_from start (m + n)
range_from-append start zero n = ground arith
range_from-append start (suc m) n =
    let e : start + suc m ≡ suc start + m = omega arith in
    let e' : suc m + n ≡ suc (m + n) = omega arith in
    rw (e, e') (ap (◌∷◌ start) (range_from-append (suc start) m n))

pub length-range_from : (start n : ℕ) → length (range_from start n) ≡ n
length-range_from start zero = refl
length-range_from start (suc n) = ap suc (length-range_from (suc start) n)

drop_one : List String → String → List String
drop_one [] x = []
drop_one (y ∷ ys) x = let rest = drop_one ys x in ite (dec_text y x) ys (y ∷ rest)

length-drop_one :
    (ys : List String) (x : String)
    → contains ys x ≡ true
    → length ys ≡ suc (length (drop_one ys x))
unfolding drop_one contains
length-drop_one [] x h = cc
length-drop_one (y ∷ ys) x h = ground (arith, length-drop_one ys x)

contains-drop_one :
    (ys : List String) (x z : String)
    → x ≢ z
    → contains ys z ≡ true
    → contains (drop_one ys x) z ≡ true
unfolding drop_one contains
contains-drop_one [] x z n h = h
contains-drop_one (y ∷ ys) x z n h = ground (arith, contains-drop_one ys x z n)

-- The other entries are found in what is left.
others_kept :
    (x : String) (xs ys : List String)
    → contains xs x ≡ false
    → All (λ z. contains ys z ≡ true) xs
    → All (λ z. contains (drop_one ys x) z ≡ true) xs
unfolding contains
others_kept x [] ys d h = tt
others_kept x (z ∷ xs) ys d h =
    (contains-drop_one ys x z (λ e. ground arith) h.0, others_kept x xs ys (ground arith) h.1)

-- The pigeonhole principle: distinct entries of a list are no more than the list is long.
pub length-le_of_Distinct :
    (xs ys : List String) → Distinct xs → All (λ x. contains ys x ≡ true) xs → length xs ≤ length ys
length-le_of_Distinct [] ys d h = omega arith
length-le_of_Distinct (x ∷ xs) ys d h = omega (
  arith,
  length-drop_one ys x h.0,
  length-le_of_Distinct xs (drop_one ys x) d.1 (others_kept x xs ys d.0 h.1),
)
