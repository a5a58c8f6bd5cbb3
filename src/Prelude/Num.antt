-- ===== src/Prelude/Num.antt =====
-- The number type `f_t` of the templates: the operations that the code uses, with no law, so that
-- what is proved holds of floating point numbers too.
use mathlib.Core.Bool.{Bool, true, false, not, ◌&&◌}
use Prim.Native.Nat.{ℕ, ◌+◌, ◌-◌, ◌*◌, ◌/◌}
use nvcuopt.Prelude.Tests.{ltb, ◌==◌}

pub record Num (F : Type 0) : Type 0 where
  pub nought : F
  pub one : F
  pub add : F → F → F
  pub sub : F → F → F
  pub mul : F → F → F
  pub div : F → F → F
  pub lt : F → F → Bool
  pub eq : F → F → Bool

-- Small numbers for the tests.
instance abbrev pub nat_num : Num ℕ
nat_num = record {
  nought = 0;
  one = 1;
  add = λ a b. a + b;
  sub = λ a b. a - b;
  mul = λ a b. a * b;
  div = λ a b. a / b;
  lt = ltb;
  eq = λ a b. a == b;
}

-- The numbers modulo 2, a field for the tests.
abbrev pub xor : Bool → Bool → Bool
xor true b = not b
xor false b = b

instance abbrev pub mod_two : Num Bool
mod_two = record {
  nought = false;
  one = true;
  add = xor;
  sub = xor;
  mul = λ a b. a && b;
  div = λ a b. a;
  lt = λ a b. not a && b;
  eq = λ a b. not (xor a b);
}
