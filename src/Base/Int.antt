-- ===== src/Base/Int.antt =====
-- Integers over the native numbers, and the casts between machine integers.
use Prim.Native.Nat.{ℕ, ◌+◌, ◌-◌, ◌%◌, ◌^◌, ◌<◌}
use mathlib.Core.Path.{◌≡◌}
use mathlib.Core.Logic.{inl, inr}
use native.Mathlib.Omega.{arith}
use rust_proxy.Base.Tests.{ltb, if◌then◌else◌, Bool-cases}

pub data ℤ : Type 0 where
  pos : ℕ → ℤ
  negsuc : ℕ → ℤ

-- `n as i64`, for an unsigned `n` of at most 64 bits
abbrev pub as_i64 : ℕ → ℤ
as_i64 n = if ltb n (2 ^ 63) then pos n else negsuc (2 ^ 64 - n - 1)

-- `z as u64`, `z as u32`, for an `i64`
abbrev pub as_u64 : ℤ → ℕ
as_u64 (pos n) = n % 2 ^ 64
as_u64 (negsuc n) = (2 ^ 64 - (n + 1) % 2 ^ 64) % 2 ^ 64

abbrev pub as_u32 : ℤ → ℕ
as_u32 (pos n) = n % 2 ^ 32
as_u32 (negsuc n) = (2 ^ 32 - (n + 1) % 2 ^ 32) % 2 ^ 32

pub as_u64-as_i64 : (n : ℕ) → n < 2 ^ 64 → as_u64 (as_i64 n) ≡ n
as_u64-as_i64 n h = elim (Bool-cases (ltb n (2 ^ 63))) [
  | inl e ↦ rw e (omega arith)
  | inr e ↦ rw e (omega arith)
]

pub as_u32-as_i64 : (n : ℕ) → n < 2 ^ 32 → as_u32 (as_i64 n) ≡ n
as_u32-as_i64 n h = elim (Bool-cases (ltb n (2 ^ 63))) [
  | inl e ↦ rw e (omega arith)
  | inr e ↦ absurd (ground arith)
]
