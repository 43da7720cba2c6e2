-- ===== src/Prelude/Numbers.antt =====
-- Python's `float` and the numerical functions of the standard library that the program calls, as
-- an interface. Nothing is assumed of them here: a lemma that needs a law of floats takes it as a
-- hypothesis.
use Prim.Native.Nat.{ℕ}
use mathlib.Core.Bool.{Bool}
use mathlib.Core.List.{List}

pub record Floats : Type 1 where
  pub Float : Type 0
  -- The literal p / q, and `float(n)` as `ratio n 1`.
  pub ratio : ℕ → ℕ → Float
  pub inf : Float
  pub add : Float → Float → Float
  pub sub : Float → Float → Float
  pub mul : Float → Float → Float
  pub div : Float → Float → Float
  -- `<`, `<=` and `==`
  pub lt : Float → Float → Bool
  pub le : Float → Float → Bool
  pub feq : Float → Float → Bool
  -- `-x`, `abs(x)`, `round(x, n)`, `math.sqrt`, `math.log`
  pub neg : Float → Float
  pub fabs : Float → Float
  pub round : Float → ℕ → Float
  pub sqrt : Float → Float
  pub log : Float → Float
  -- `statistics.fmean`, `statistics.pstdev`
  pub fmean : List Float → Float
  pub pstdev : List Float → Float
