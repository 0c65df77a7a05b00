-- ===== src/ControlPlane/Bandwidth/Limiter/Tokens.antt =====
-- The tokens of the rate limiter of crates/control-plane/src/bandwidth.rs, against its capacity.
use rust_proxy.Base.{
  true-false, ℕ, ◌≡◌, ◌≢◌, refl, sym, ◌∙◌, Bool, true, false, List, [], ◌∷◌, Bool-cases, inl, inr,
}
use rust_proxy.ControlPlane.Float.{Float}
use rust_proxy.ControlPlane.Bandwidth.Limiter.{
  RateLimiter, Acquired, took, asleep, panicked, after_wait, new, refill, available, take_tokens,
  try_take, acquire, wait_for,
}

-- What IEEE 754 says of the operations, for the numbers that are converted from integers.
pub record Laws (float : Float) : Type 0 where
  pub ge_refl : (n : ℕ) → float.ge (float.of_int n) (float.of_int n) ≡ true
  pub ge_trans : (x y z : float.F) → float.ge x y ≡ true → float.ge y z ≡ true → float.ge x z ≡ true
  pub min_le :
      (x : float.F) (n : ℕ) → float.ge (float.of_int n) (float.min x (float.of_int n)) ≡ true
  pub sub_le :
      (c t : float.F) (n : ℕ)
      → float.ge c t ≡ true
      → float.ge t (float.of_int n) ≡ true
      → float.ge c (float.sub t (float.of_int n)) ≡ true

module _ {F : Type 0} where
  after_wait-eq-took :
      (w : F) (a : Acquired F) (waits : List F)
      → after_wait w a ≡ took waits
      → (ws : List F) × (a ≡ took ws)
  after_wait-eq-took w (took ws) waits e = (ws, refl)
  after_wait-eq-took w asleep waits e = cc
  after_wait-eq-took w panicked waits e = cc

  not_took : (waits : List F) → ◌≢◌ {A = Acquired F} panicked (took waits)
  not_took waits e = cc

module _ (float : Float) (as_secs : ℕ → float.F) (laws : Laws float) (capacity : ℕ) where
  open float use {F, of_int, ge}

  -- The capacity stays, and the tokens are within it.
  abbrev IsCapped : RateLimiter F → Type 0
  IsCapped r = (r.capacity ≡ of_int capacity) × (ge (of_int capacity) r.tokens ≡ true)

  new-IsCapped : (rate now : ℕ) → IsCapped (new float as_secs rate capacity now)
  unfolding new
  new-IsCapped rate now = (refl, laws.ge_refl capacity)

  refill-IsCapped :
      (now : ℕ) (r : RateLimiter F) → IsCapped r → IsCapped (refill float as_secs now r)
  unfolding refill
  refill-IsCapped now r (c, le) = (c, rw c (laws.min_le _ capacity))

  take_tokens-IsCapped :
      (r : RateLimiter F) (n : ℕ) → IsCapped r → IsCapped (take_tokens float as_secs r n).0
  take_tokens-IsCapped r n (c, le) = elim (Bool-cases (ge r.tokens (of_int n))) [
    | inl e ↦ rw e (c, laws.sub_le _ r.tokens n le e)
    | inr e ↦ rw e (c, le)
  ]

  try_take-IsCapped :
      (now : ℕ) (r : RateLimiter F) (n : ℕ)
      → IsCapped r
      → IsCapped (try_take float as_secs now r n).0
  unfolding try_take
  try_take-IsCapped now r n h =
      take_tokens-IsCapped (refill float as_secs now r) n (refill-IsCapped now r h)

  -- What exceeds the capacity exceeds the tokens.
  too_few :
      (r : RateLimiter F) (n : ℕ)
      → IsCapped r
      → ge (of_int capacity) (of_int n) ≡ false
      → ge r.tokens (of_int n) ≡ false
  too_few r n (c, le) over = elim (Bool-cases (ge r.tokens (of_int n))) [
    | inl e ↦ absurd (clash (laws.ge_trans _ r.tokens _ le e))
    | inr e ↦ e
  ]
    where
      clash : ge (of_int capacity) (of_int n) ≢ true
      clash e = true-false (sym e ∙ over)

  try_take-fails :
      (now : ℕ) (r : RateLimiter F) (n : ℕ)
      → IsCapped r
      → ge (of_int capacity) (of_int n) ≡ false
      → (try_take float as_secs now r n).1 ≡ false
  unfolding try_take
  try_take-fails now r n h over =
      rw (too_few (refill float as_secs now r) n (refill-IsCapped now r h) over) refl

  acquire-fails :
      (is_duration : F → Bool) (milli : F) (clock : List ℕ) (r : RateLimiter F) (n : ℕ)
      → IsCapped r
      → ge (of_int capacity) (of_int n) ≡ false
      → (waits : List F) → (acquire float as_secs is_duration milli clock r n).1 ≢ took waits
  unfolding acquire
  acquire-fails is_duration milli [] r n h over waits e = cc
  acquire-fails is_duration milli (now ∷ clock) r n h over waits e =
      let r' : RateLimiter F = (try_take float as_secs now r n).0 in
      let w : F = wait_for float as_secs milli r' n in
      let failed = try_take-fails now r n h over in
      elim (Bool-cases (is_duration w)) [
        | inl d ↦
            (let (ws, e') = after_wait-eq-took w _ waits (rw (failed, d) at e) in
              acquire-fails is_duration milli clock r' n (try_take-IsCapped now r n h) over ws e')
        | inr d ↦ absurd (not_took waits (rw (failed, d) at e))
      ]

  -- `try_take` at one time after another, for so many tokens each.
  abbrev pub taken : List (ℕ × ℕ) → RateLimiter F → RateLimiter F
  taken [] r = r
  taken ((now, n) ∷ calls) r = taken calls (try_take float as_secs now r n).0

  taken-IsCapped :
      (calls : List (ℕ × ℕ)) (r : RateLimiter F) → IsCapped r → IsCapped (taken calls r)
  taken-IsCapped [] r h = h
  taken-IsCapped ((now, n) ∷ calls) r h = taken-IsCapped calls _ (try_take-IsCapped now r n h)

  -- A limiter after any calls of `try_take` has at most as many tokens as its capacity; and where the
  -- capacity is not at least `n`, waiting for `n` tokens does not end with them, however long the clock
  -- is read.
  pub limiter_bounds :
      (rate start n : ℕ) (calls : List (ℕ × ℕ)) (is_duration : F → Bool) (milli : F)
      (clock : List ℕ)
      → ge (of_int capacity) (of_int n) ≡ false
      → let r : RateLimiter F = taken calls (new float as_secs rate capacity start) in
        (ge (of_int capacity) (available float as_secs r) ≡ true)
        × ((waits : List F) → (acquire float as_secs is_duration milli clock r n).1 ≢ took waits)
  unfolding available
  limiter_bounds rate start n calls is_duration milli clock over =
      let h =
        taken-IsCapped calls (new float as_secs rate capacity start) (new-IsCapped rate start) in
      (h.1, acquire-fails is_duration milli clock _ n h over)
