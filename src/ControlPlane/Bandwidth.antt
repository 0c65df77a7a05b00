-- ===== src/ControlPlane/Bandwidth.antt =====
-- crates/control-plane/src/bandwidth.rs: the bandwidth allocator, one call at a time here and call
-- by call interleaved in Threads. `reserved` is the content of the shared `AtomicU64`.
pub mod Threads
pub mod Reservations
pub mod Limiter
use rust_proxy.Base.{ℕ, ◌+◌, ◌-◌, ◌%◌, ◌^◌, Bool, Option, none, some, ◌==◌, ltb, if◌then◌else◌}
use rust_proxy.ControlPlane.Float.{Float}

abbrev pub u64_mod : ℕ
u64_mod = 2 ^ 64

pub record BandwidthAllocator : Type 0 where
  pub limit : ℕ
  pub reserved : ℕ

pub record BandwidthGuard : Type 0 where
  pub rate : ℕ

unfoldable pub new : ℕ → BandwidthAllocator
new limit_bytes_per_sec = record { limit = limit_bytes_per_sec; reserved = 0 }

abbrev pub checked_add : ℕ → ℕ → Option ℕ
checked_add a b = if ltb (a + b) u64_mod then some (a + b) else none

-- `fetch_sub` wraps around.
abbrev pub wrapping_sub : ℕ → ℕ → ℕ
wrapping_sub a b = (a + u64_mod - b) % u64_mod

-- What one pass of the loop of `try_reserve` would store, given the counter that it loaded.
abbrev pub next_reserved : ℕ → ℕ → ℕ → Option ℕ
next_reserved limit current rate = elim (checked_add current rate) [
  | none ↦ none
  | some next ↦ if ltb limit next then none else some next
]

-- `try_reserve` where no other thread writes the counter between the load and the exchange and the
-- weak exchange does not fail by itself, with the counter after it. Threads has the other cases.
unfoldable pub try_reserve : BandwidthAllocator → ℕ → Option (BandwidthAllocator × BandwidthGuard)
try_reserve a rate = elim (next_reserved a.limit a.reserved rate) [
  | none ↦ none
  | some next ↦ some (record { limit = a.limit; reserved = next }, record { rate = rate })
]

-- `Drop for BandwidthGuard`
unfoldable pub drop_guard : BandwidthGuard → BandwidthAllocator → BandwidthAllocator
drop_guard g a = record { limit = a.limit; reserved = wrapping_sub a.reserved g.rate }

-- `saturating_sub`
unfoldable pub available : BandwidthAllocator → ℕ
available a = a.limit - a.reserved

module _ (float : Float) where
  open float use {F, of_int, zero_point, one, div, clamp}

  unfoldable pub utilization : BandwidthAllocator → F
  utilization a =
      if a.limit == 0 then one else clamp (div (of_int a.reserved) (of_int a.limit)) zero_point one
