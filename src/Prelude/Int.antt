-- ===== src/Prelude/Int.antt =====
-- Signed integers, where the program only compares them. `negsuc n` is -(n + 1).
use Prim.Native.Nat.{ℕ}
use native.Mathlib.Decide.{ℕ_discrete}

pub data ℤ : Type 0 where
  pos : ℕ → ℤ
  negsuc : ℕ → ℤ

unfoldable pub ℤ-discrete : Discrete ℤ
ℤ-discrete = hlevel ℕ_discrete
