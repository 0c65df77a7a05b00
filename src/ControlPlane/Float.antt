-- ===== src/ControlPlane/Float.antt =====
-- The operations of `f64` that the crate uses, as an interface: there are no floats in the logic.
-- What a theorem needs of them stands in its hypotheses.
pub mod Fixed
use Prim.Native.Nat.{Ordering}
use rust_proxy.Base.{ℕ, Bool, Option}

pub record Float : Type 1 where
  pub F : Type 0
  -- `n as f64`
  pub of_int : ℕ → F
  -- the literals 0.0, 0.5, 1.0 and 100.0
  pub zero_point : F
  pub half : F
  pub one : F
  pub hundred : F
  pub add : F → F → F
  pub sub : F → F → F
  pub mul : F → F → F
  pub div : F → F → F
  -- `a.min(b)` and `a.max(b)`
  pub min : F → F → F
  pub max : F → F → F
  -- `x.clamp(lo, hi)`
  pub clamp : F → F → F → F
  -- `a >= b`
  pub ge : F → F → Bool
  pub partial_cmp : F → F → Option Ordering
