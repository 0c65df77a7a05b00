-- ===== src/ControlPlane/Bandwidth/Reservations.antt =====
-- The guards of crates/control-plane/src/bandwidth.rs that are out, against the limit of the
-- allocator.
use rust_proxy.Base.{
  ℕ, zero, suc, ◌+◌, ◌-◌, ◌≤◌, ◌<◌, ◌≡◌, refl, subst, Bool, true, false, Option, none, some, List,
  [], ◌∷◌, ◌++◌, All, ◌==◌, arith, ap, ltb, ◌∙◌, ltb→lt, Bool-cases, inl, inr, ==_iff,
}
use rust_proxy.ControlPlane.Bandwidth.{
  BandwidthAllocator, BandwidthGuard, try_reserve, drop_guard, available, u64_mod, next_reserved,
  wrapping_sub,
}
use rust_proxy.ControlPlane.Bandwidth.Threads.{
  Thread, idle, looping, loaded, holding, refused, Event, call, load, release, exchange,
  thread_step, System, Step, step, start, Reachable, initially, then_step, held_by, held,
}

-- What the loop computed before the exchange.
abbrev Ready : ℕ → Thread → Type 0
Ready limit (loaded current next rate) = (next ≡ current + rate) × (next ≤ limit)
Ready limit _ = Unit

abbrev Inv : ℕ → System → Type 0
Inv limit s = (s.counter ≡ held s.threads) × (s.counter ≤ limit) × All (Ready limit) s.threads

held-append :
    (before : List Thread) (t : Thread) (after : List Thread)
    → held (before ++ t ∷ after) ≡ held_by t + (held before + held after)
unfolding held
held-append [] t after = omega arith
held-append (b ∷ before) t after = omega (arith, held-append before t after)

All-middle {κ} :
    {A : Type 0} (P : A → Type κ) (before : List A) (t : A) (after : List A)
    → All P (before ++ t ∷ after)
    → P t × ((u : A) → P u → All P (before ++ u ∷ after))
All-middle P [] t after (pt, rest) = (pt, λ u pu. (pu, rest))
All-middle P (b ∷ before) t after (pb, rest) =
    let (pt, put) = All-middle P before t after rest in (pt, λ u pu. (pb, put u pu))

wrapping_sub-minus : (a b : ℕ) → b ≤ a → a < u64_mod → wrapping_sub a b ≡ a - b
wrapping_sub-minus a b h k = omega arith

-- The invariant of one thread among guards of `rest` in all, and of what a step returns.
abbrev Held : ℕ → ℕ → ℕ → Thread → Type 0
Held limit rest counter t = Ready limit t × (counter ≡ held_by t + rest) × (counter ≤ limit)

abbrev HeldAfter : ℕ → ℕ → Option (ℕ × Thread) → Type 0
HeldAfter limit rest none = Unit
HeldAfter limit rest (some (counter, t)) = Held limit rest counter t

load-Held :
    (limit counter rest rate : ℕ) (n : Option ℕ)
    → next_reserved limit counter rate ≡ n
    → counter ≡ rest
    → counter ≤ limit
    → Held limit rest counter
        (elim n [ none ↦ refused rate | some next ↦ loaded counter next rate ])
unfolding held_by
load-Held limit counter rest rate none e eq le = ground arith
load-Held limit counter rest rate (some next) e eq le = ground arith

exchange-Held :
    (limit counter rest current next rate : ℕ) (strong : Bool)
    → next ≡ current + rate
    → next ≤ limit
    → counter ≡ rest
    → counter ≤ limit
    → HeldAfter limit rest (thread_step limit counter (loaded current next rate) (exchange strong))
unfolding thread_step held_by
exchange-Held limit counter rest current next rate false h k eq le = (tt, omega arith, le)
exchange-Held limit counter rest current next rate true h k eq le =
    elim (Bool-cases (counter == current)) [
      | inl e ↦ let same = (==_iff counter current).0 e in rw e (tt, omega arith, k)
      | inr e ↦ rw e (tt, omega arith, le)
    ]

thread_step-Held :
    (limit counter rest : ℕ) (t : Thread) (e : Event)
    → limit < u64_mod
    → Held limit rest counter t
    → HeldAfter limit rest (thread_step limit counter t e)
unfolding thread_step held_by
thread_step-Held limit counter rest idle (call rate) small inv = inv
thread_step-Held limit counter rest (looping rate) load small (r, eq, le) =
    load-Held limit counter rest rate _ refl (omega arith) le
thread_step-Held limit counter rest (loaded c n rate) (exchange s) small ((h, k), eq, le) =
    exchange-Held limit counter rest c n rate s h k (omega arith) le
thread_step-Held limit counter rest (holding rate) release small (r, eq, le) =
    let e = wrapping_sub-minus counter rate (omega arith) (omega arith) in
    (tt, omega arith, omega arith)
thread_step-Held limit counter rest _ _ small inv = tt

Step-Inv :
    (limit : ℕ) (s s' : System) → limit < u64_mod → Step limit s s' → Inv limit s → Inv limit s'
Step-Inv limit s s' small (step c c' before after t t' e h) (eq, le, ready) =
    let (rt, put) = All-middle (Ready limit) before t after ready in
    let total = held-append before t after in
    let total' = held-append before t' after in
    let (rt', eq', le') =
      subst (HeldAfter limit (held before + held after)) h
        (thread_step-Held limit c (held before + held after) t e small (rt, omega arith, le)) in
    (omega arith, le', put t' rt')

start-Inv : (limit n : ℕ) → Inv limit (start n)
unfolding held held_by
start-Inv limit zero = (refl, omega arith, tt)
start-Inv limit (suc n) = let (eq, le, r) = start-Inv limit n in (omega arith, le, (tt, r))

Reachable-Inv : (limit n : ℕ) (s : System) → limit < u64_mod → Reachable limit n s → Inv limit s
Reachable-Inv limit n s small initially = start-Inv limit n
Reachable-Inv limit n s small (then_step r st) =
    Step-Inv limit _ s small st (Reachable-Inv limit n _ small r)

-- However `n` threads that reserve from one allocator and drop their guards interleave, the counter
-- is the sum of the rates of the guards that are out, and it never exceeds the limit, a 64-bit
-- number.
pub reservations_bounded :
    (limit n : ℕ) (s : System)
    → limit < u64_mod
    → Reachable limit n s
    → (s.counter ≡ held s.threads) × (held s.threads ≤ limit)
reservations_bounded limit n s small r =
    let (eq, le, _) = Reachable-Inv limit n s small r in (eq, omega arith)

next_reserved-fits :
    (limit current rate : ℕ)
    → limit < u64_mod
    → current + rate ≤ limit
    → next_reserved limit current rate ≡ some (current + rate)
next_reserved-fits limit current rate small h = ground arith

next_reserved-full :
    (limit current rate : ℕ) → limit < current + rate → next_reserved limit current rate ≡ none
next_reserved-full limit current rate h = ground arith

abbrev with_reserved : BandwidthAllocator → ℕ → BandwidthAllocator
with_reserved a r = record { limit = a.limit; reserved = r }

drop_guard_lem :
    (a : BandwidthAllocator) (rate : ℕ)
    → a.limit < u64_mod
    → a.reserved + rate ≤ a.limit
    → drop_guard (record { rate = rate }) (record { limit = a.limit; reserved = a.reserved + rate })
      ≡ a
unfolding drop_guard
drop_guard_lem a rate small le =
    ap (with_reserved a)
      (wrapping_sub-minus (a.reserved + rate) rate (omega arith) (omega arith) ∙ omega arith)

abbrev Reserved : BandwidthAllocator → ℕ → Option (BandwidthAllocator × BandwidthGuard) → Type 0
Reserved a rate none = Unit
Reserved a rate (some (b, g)) =
    (g.rate ≡ rate)
    × (b.limit ≡ a.limit)
    × (b.reserved ≡ a.reserved + rate)
    × (available b + rate ≡ available a)
    × (b.reserved ≤ b.limit)
    × (drop_guard g b ≡ a)

available_less : (l r q : ℕ) → r + q ≤ l → l - (r + q) + q ≡ l - r
available_less l r q h = omega arith

try_reserve-next_reserved :
    (a : BandwidthAllocator) (rate : ℕ) (n : Option ℕ)
    → next_reserved a.limit a.reserved rate ≡ n
    → try_reserve a rate
      ≡ elim n [ none ↦ none | some next ↦ some (with_reserved a next, record { rate = rate }) ]
unfolding try_reserve
try_reserve-next_reserved a rate n e =
    ap
      (λ m. elim m as (λ _. Option (BandwidthAllocator × BandwidthGuard)) [
        | none ↦ none
        | some next ↦ some (with_reserved a next, record { rate = rate })
      ])
      e

-- A call that meets no other thread is refused only if the rate does not fit under the limit, a
-- 64-bit number. If it succeeds, the guard has the rate, the limit is the same, the counter grew by the
-- rate and is within the limit, what is available shrank by the rate, and dropping the guard gives
-- the allocator back as it was.
pub try_reserve-fits :
    (a : BandwidthAllocator) (rate : ℕ)
    → a.limit < u64_mod
    → a.reserved ≤ a.limit
    → (try_reserve a rate ≡ none → a.limit < a.reserved + rate)
      × ((b : BandwidthAllocator) (g : BandwidthGuard)
          → try_reserve a rate ≡ some (b, g)
          → (g.rate ≡ rate)
            × (b.limit ≡ a.limit)
            × (b.reserved ≡ a.reserved + rate)
            × (available b + rate ≡ available a)
            × (b.reserved ≤ b.limit)
            × (drop_guard g b ≡ a))
unfolding available
try_reserve-fits a rate small le = elim (Bool-cases (ltb a.limit (a.reserved + rate))) [
  | inl e ↦
      rw
        (try_reserve-next_reserved a rate none
          (next_reserved-full a.limit a.reserved rate (ltb→lt _ _ e)))
        (λ _. ltb→lt _ _ e, λ b g h. cc)
  | inr e ↦
      rw
        (try_reserve-next_reserved a rate (some (a.reserved + rate))
          (next_reserved-fits a.limit a.reserved rate small (ground arith)))
        (
          λ h. cc,
          λ b g h. subst (Reserved a rate) h (
            refl,
            refl,
            refl,
            available_less a.limit a.reserved rate (ground arith),
            ground arith,
            drop_guard_lem a rate small (ground arith),
          ),
        )
]
