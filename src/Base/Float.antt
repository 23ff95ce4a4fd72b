-- ===== src/Base/Float.antt =====
-- Go's float64, as far as the ratios of the circuit breaker and the retry budget use it: a
-- parameter of the model. The code's theorems hold for every such arithmetic; where one needs a law
-- of the order, it is a hypothesis.
use Prim.Native.Nat.{ℕ, ◌+◌, ◌*◌, ◌/◌}
use mathlib.Core.Bool.{Bool}
use golang_basics.Base.Tests.{ltb, leb}
use golang_basics.Base.Int.{ℤ, pos_part}

pub record Float64 : Type 1 where
  pub F : Type 0
  -- float64(n)
  pub of_int : ℤ → F
  -- the constant n / d
  pub quot : ℕ → ℕ → F
  pub add : F → F → F
  pub mul : F → F → F
  -- a < b and a <= b
  pub lt : F → F → Bool
  pub le : F → F → Bool

-- Millionths, rounded down and never negative: an arithmetic to run the definitions with.
abbrev pub micro : Float64
micro = record {
  F = ℕ;
  of_int = λ z. pos_part z * 1000000;
  quot = λ n d. n * 1000000 / d;
  add = λ a b. a + b;
  mul = λ a b. a * b / 1000000;
  lt = ltb;
  le = leb;
}
