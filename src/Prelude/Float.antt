-- ===== src/Prelude/Float.antt =====
-- What the program uses of Go's floating-point numbers. No law is assumed of them.
use mathlib.Core.Bool.{Bool}

pub record Float (F : Type 0) : Type 0 where
  pub zero : F
  pub one : F
  pub add : F → F → F
  -- `a < b`
  pub less : F → F → Bool
