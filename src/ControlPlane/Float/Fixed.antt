-- ===== src/ControlPlane/Float/Fixed.antt =====
-- Fixed-point numbers in thousandths, in place of `f64` in the tests.
use Prim.Native.Nat.{compare}
use rust_proxy.Base.{ℕ, ◌+◌, ◌-◌, ◌*◌, ◌/◌, min, max, some, leb}
use rust_proxy.ControlPlane.Float.{Float}

abbrev pub fixed : Float
fixed = record {
  F = ℕ;
  of_int = λ n. n * 1000;
  zero_point = 0;
  half = 500;
  one = 1000;
  hundred = 100000;
  add = λ a b. a + b;
  sub = λ a b. a - b;
  mul = λ a b. a * b / 1000;
  div = λ a b. a * 1000 / b;
  min = λ a b. min a b;
  max = λ a b. max a b;
  clamp = λ x lo hi. min hi (max lo x);
  ge = λ a b. leb b a;
  partial_cmp = λ a b. some (compare a b);
}
