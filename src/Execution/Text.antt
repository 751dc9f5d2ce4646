-- ===== src/Execution/Text.antt =====
-- What the execution backends use of Python's `str`, of its regular expressions and of shlex:
-- parameters of the model, with no laws.
use drigs.Prelude.{ℕ, zero, suc, String, Bool, List, [], ◌∷◌}
use drigs.Result.{Result}
use Prim.Native.String.{◌++◌ as join}

pub record Text : Type 0 where
  -- s.strip()
  pub strip : String → String
  -- s.lower()
  pub lower : String → String
  -- part in s
  pub mentions : String → String → Bool
  -- s.isdigit()
  pub is_digit : String → Bool
  -- s.replace(part, "")
  pub without : String → String → String
  -- shlex.split(s)
  pub split : String → Result (List String)
  -- str(n)
  pub show : ℕ → String
  -- the regular expression of a PCIe address, such as 0000:3b:00.0
  pub is_bus_id : String → Bool

-- s[n:]
unfoldable pub drop : ℕ → String → String
drop zero s = s
drop (suc n) String.[] = ""
drop (suc n) (String.◌∷◌ c s) = drop n s

-- ",".join(parts)
unfoldable pub comma_join : List String → String
comma_join [] = ""
comma_join (s ∷ parts) =
    let rest = comma_join parts in elim parts [ [] ↦ s | _ ∷ _ ↦ join s (join "," rest) ]
