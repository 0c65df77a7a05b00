-- ===== src/ControlPlane/Bandwidth/Limiter.antt =====
-- crates/control-plane/src/bandwidth.rs: the rate limiter. Instants are nanoseconds, and
-- `as_secs_f64`, the clock and the panic of `from_secs_f64` are not code of the repository.
mod Tests
pub mod Tokens
use rust_proxy.Base.{ℕ, ◌-◌, Bool, true, false, List, [], ◌∷◌, if◌then◌else◌}
use rust_proxy.ControlPlane.Float.{Float}

pub record RateLimiter (F : Type 0) : Type 0 where
  pub rate : F
  pub capacity : F
  pub tokens : F
  pub last : ℕ

-- How a call of `acquire` stands after the readings of the clock given: it took its tokens after
-- these waits, it still waits, or `from_secs_f64` panicked.
pub data Acquired (F : Type 0) : Type 0 where
  took : (waits : List F) → Acquired F
  asleep : Acquired F
  panicked : Acquired F

abbrev pub after_wait : {F : Type 0} → F → Acquired F → Acquired F
after_wait w (took ws) = took (w ∷ ws)
after_wait w asleep = asleep
after_wait w panicked = panicked

module _ (float : Float) (as_secs : ℕ → float.F) where
  open float use {F, of_int, add, sub, mul, div, ge}

  unfoldable pub new : ℕ → ℕ → ℕ → RateLimiter F
  new rate_bytes_per_sec capacity_bytes now = record {
    rate = of_int rate_bytes_per_sec;
    capacity = of_int capacity_bytes;
    tokens = of_int capacity_bytes;
    last = now;
  }

  -- `duration_since` is 0 where the clock goes back.
  unfoldable pub refill : ℕ → RateLimiter F → RateLimiter F
  refill now r = record r {
    last = now;
    tokens = float.min (add r.tokens (mul (as_secs (now - r.last)) r.rate)) r.capacity;
  }

  unfoldable pub available : RateLimiter F → F
  available r = r.tokens

  -- The test after the refill.
  abbrev pub take_tokens : RateLimiter F → ℕ → RateLimiter F × Bool
  take_tokens r n =
      if ge r.tokens (of_int n)
      then (record r { tokens = sub r.tokens (of_int n) }, true)
      else (r, false)

  unfoldable pub try_take : ℕ → RateLimiter F → ℕ → RateLimiter F × Bool
  unfolding refill
  try_take now r n = take_tokens (refill now r) n

  -- `wait.max(0.001)`, with the literal as a parameter.
  abbrev pub wait_for : F → RateLimiter F → ℕ → F
  wait_for milli r n = float.max (div (sub (of_int n) r.tokens) r.rate) milli

  -- The loop of `acquire`, over the readings of the clock, one for each try; `is_duration` says what
  -- `from_secs_f64` accepts.
  unfoldable pub acquire :
      (is_duration : F → Bool) → F → List ℕ → RateLimiter F → ℕ → RateLimiter F × Acquired F
  unfolding try_take
  acquire is_duration milli [] r n = (r, asleep)
  acquire is_duration milli (now ∷ clock) r n =
      let (r', taken) = try_take now r n in
      let w : F = wait_for milli r' n in
      let (r'', later) = acquire is_duration milli clock r' n in
      if taken
      then (r', took [])
      else if is_duration w
      then (r'', after_wait w later)
      else (r', panicked)
