-- ===== src/Float.antt =====
-- Python's `float`. The schedulers and the topology graph compare scores of this type; its
-- arithmetic is a parameter of the model, with the operations that they use. What a theorem needs
-- of the order is a hypothesis of that theorem, in `IsOrder`.
use drigs.Prelude.{ℕ, suc, ◌≡◌, Bool, true, false}

pub record Float : Type 1 where
  pub F : Type 0
  -- an `int` met by float arithmetic
  pub of_nat : ℕ → F
  pub add : F → F → F
  pub mul : F → F → F
  pub over : F → F → F
  -- `int / int`
  pub quotient : ℕ → ℕ → F
  -- `timedelta.total_seconds` of a number of microseconds
  pub seconds : ℕ → F
  -- the seconds from the second of two times to the first, which can be negative
  pub elapsed : ℕ → ℕ → F
  -- the literals `1e9` and `-1.0`
  pub giga : F
  pub minus_one : F
  pub lt : F → F → Bool

-- `<` on floats that are not NaN is a strict order.
pub record IsOrder (f : Float) : Type 0 where
  pub irrefl : (x : f.F) → f.lt x x ≡ false
  pub trans : (x y z : f.F) → f.lt x y ≡ true → f.lt y z ≡ true → f.lt x z ≡ true

-- The scores of the topology graph are averages of numbers that are not negative.
pub record HasNonneg (f : Float) : Type 1 where
  pub Nonneg : f.F → Type 0
  pub of_nat-Nonneg : (n : ℕ) → Nonneg (f.of_nat n)
  pub add-Nonneg : (x y : f.F) → Nonneg x → Nonneg y → Nonneg (f.add x y)
  pub over-Nonneg : (x : f.F) (n : ℕ) → Nonneg x → Nonneg (f.over x (f.of_nat (suc n)))
  pub above_minus_one : (x : f.F) → Nonneg x → f.lt f.minus_one x ≡ true
