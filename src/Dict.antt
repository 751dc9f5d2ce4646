-- ===== src/Dict.antt =====
-- Python's `dict` with text keys: an association list in the order of insertion. An assignment to
-- a key that is there keeps its place, and a new key goes to the end.
use drigs.Prelude.{
  String, ◌≡◌, refl, Bool, true, false, Option, none, some, List, [], ◌∷◌, map, arith, ite, ◌≢◌,
  dec_text, contains, All, subst, Distinct, Among, if_pos, if_neg, inl, inr,
}

abbrev pub Dict {ℓ} : Type ℓ → Type ℓ
Dict V = List (String × V)

module _ {ℓ} {V : Type ℓ} where
  -- d.get(k)
  unfoldable pub lookup : String → Dict V → Option V
  lookup k [] = none
  lookup k ((j, v) ∷ m) = let rest = lookup k m in ite (dec_text j k) (some v) rest

  -- d[k] = v
  unfoldable pub put : String → V → Dict V → Dict V
  put k v [] = (k, v) ∷ []
  put k v ((j, w) ∷ m) = let rest = put k v m in ite (dec_text j k) ((j, v) ∷ m) ((j, w) ∷ rest)

  -- d.pop(k, None)
  unfoldable pub remove : String → Dict V → Dict V
  remove k [] = []
  remove k ((j, w) ∷ m) = let rest = remove k m in ite (dec_text j k) rest ((j, w) ∷ rest)

  -- list(d)
  abbrev pub keys : Dict V → List String
  keys = map (λ e. e.0)

  -- list(d.values())
  abbrev pub values : Dict V → List V
  values = map (λ e. e.1)

  -- k in d
  abbrev pub has : String → Dict V → Bool
  has k m = elim (lookup k m) [ none ↦ false | some v ↦ true ]

  pub lookup-put :
      (k j : String) (v : V) (m : Dict V)
      → lookup j (put k v m) ≡ ite (dec_text k j) (some v) (lookup j m)
  unfolding lookup put
  lookup-put k j v [] = refl
  lookup-put k j v ((i, w) ∷ m) = ground (arith, lookup-put k j v m)

  pub lookup-remove :
      (k j : String) (m : Dict V) → lookup j (remove k m) ≡ ite (dec_text k j) none (lookup j m)
  unfolding lookup remove
  lookup-remove k j [] = ground arith
  lookup-remove k j ((i, w) ∷ m) = ground (arith, lookup-remove k j m)

  pub lookup-put_self : (k : String) (v : V) (m : Dict V) → lookup k (put k v m) ≡ some v
  lookup-put_self k v m = ground (arith, lookup-put k k v m)

  pub lookup-put_other :
      (k j : String) (v : V) (m : Dict V) → k ≢ j → lookup j (put k v m) ≡ lookup j m
  lookup-put_other k j v m n = ground (arith, n, lookup-put k j v m)

  -- The keys of a dictionary are the texts that `lookup` finds.
  pub contains-keys : (k : String) (m : Dict V) → contains (keys m) k ≡ has k m
  unfolding lookup contains
  contains-keys k [] = refl
  contains-keys k ((j, v) ∷ m) = ground (arith, contains-keys k m)

  -- What holds of every key holds of a key that is found.
  pub All-keys {κ} :
      (P : String → Type κ) (m : Dict V) (k : String) (v : V)
      → All P (keys m)
      → lookup k m ≡ some v
      → P k
  unfolding lookup
  All-keys P [] k v h e = cc
  All-keys P ((j, w) ∷ m) k v h e = elim (dec_text j k) [
    | yes p ↦ subst P p h.0
    | no n ↦ All-keys P m k v h.1 (ground arith)
  ]

  -- What holds of every value holds of a value that is found.
  pub All-values {κ} :
      (P : V → Type κ) (m : Dict V) (k : String) (v : V)
      → All P (values m)
      → lookup k m ≡ some v
      → P v
  unfolding lookup
  All-values P [] k v h e = cc
  All-values P ((j, w) ∷ m) k v h e = elim (dec_text j k) [
    | yes p ↦ subst P (ground arith) h.0
    | no n ↦ All-values P m k v h.1 (ground arith)
  ]

  pub Distinct-put :
      (k : String) (v : V) (m : Dict V) → Distinct (keys m) → Distinct (keys (put k v m))
  unfolding put contains lookup
  Distinct-put k v [] d = (refl, tt)
  Distinct-put k v ((j, w) ∷ m) d = elim (dec_text j k) [
    | yes p ↦ rw (if_pos _ p) d
    | no n ↦ rw (if_neg _ n) (
      ground (arith, d.0, n, contains-keys j m, contains-keys j (put k v m), lookup-put k j v m),
      Distinct-put k v m d.1,
    )
  ]

  pub Distinct-remove : (k : String) (m : Dict V) → Distinct (keys m) → Distinct (keys (remove k m))
  unfolding remove contains lookup
  Distinct-remove k [] d = tt
  Distinct-remove k ((j, w) ∷ m) d = elim (dec_text j k) [
    | yes p ↦ rw (if_pos _ p) (Distinct-remove k m d.1)
    | no n ↦ rw (if_neg _ n) (
      ground (arith, d.0, n, contains-keys j m, contains-keys j (remove k m), lookup-remove k j m),
      Distinct-remove k m d.1,
    )
  ]

module _ {V : Type 0} where
  -- A value that is found stands among the values, and with distinct keys each value is found.
  pub Among-values : (k : String) (v : V) (m : Dict V) → lookup k m ≡ some v → Among v (values m)
  unfolding lookup
  Among-values k v [] e = cc
  Among-values k v ((j, w) ∷ m) e = elim (dec_text j k) [
    | yes p ↦ inl (ground arith)
    | no n ↦ inr (Among-values k v m (ground arith))
  ]

  pub key_of_value :
      (v : V) (m : Dict V)
      → Distinct (keys m)
      → Among v (values m)
      → (k : String) × (lookup k m ≡ some v)
  unfolding lookup
  key_of_value v [] d h = absurd h
  key_of_value v ((j, w) ∷ m) d (inl e) = (j, ground arith)
  key_of_value v ((j, w) ∷ m) d (inr h) =
      let (k, found) = key_of_value v m d.1 h in (k, ground (arith, found, d.0, contains-keys j m))
