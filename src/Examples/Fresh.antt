-- ===== src/Examples/Fresh.antt =====
-- An id that a table does not have: longer than any that it has.
use drigs.Prelude.{
  ℕ, suc, ◌+◌, ◌<◌, String, ◌≡◌, false, some, [], ◌∷◌, arith, ap, dec_text, Option-cases, inl, inr,
}
use drigs.Dict.{Dict, lookup, has}

unfoldable text_length : String → ℕ
text_length String.[] = 0
text_length (String.◌∷◌ c s) = suc (text_length s)

-- As long as both texts together, and one more.
unfoldable pub longer : String → String → String
longer String.[] t = String.◌∷◌ "x" t
longer (String.◌∷◌ c s) t = String.◌∷◌ c (longer s t)

length-longer : (s t : String) → text_length (longer s t) ≡ suc (text_length s + text_length t)
unfolding text_length longer
length-longer String.[] t = omega arith
length-longer (String.◌∷◌ c s) t = omega (arith, length-longer s t)

abbrev pub new_id {ℓ} : {V : Type ℓ} → Dict V → String
new_id [] = "x"
new_id ((k, v) ∷ m) = longer k (new_id m)

length-new_id {ℓ} :
    {V : Type ℓ} (m : Dict V) (k : String) (v : V)
    → lookup k m ≡ some v
    → text_length k < text_length (new_id m)
unfolding lookup
length-new_id [] k v e = cc
length-new_id ((j, u) ∷ m) k v e = elim (dec_text j k) [
  | yes p ↦ ground (arith, ap text_length p, length-longer j (new_id m))
  | no n ↦ omega (arith, length-new_id m k v (ground (arith, e, n)), length-longer j (new_id m))
]

pub new_id-fresh {ℓ} : {V : Type ℓ} (m : Dict V) → has (new_id m) m ≡ false
new_id-fresh m = elim (Option-cases (lookup (new_id m) m)) [
  | inl e ↦ ground (arith, e)
  | inr (v, e) ↦ absurd (omega (arith, length-new_id m (new_id m) v e))
]
