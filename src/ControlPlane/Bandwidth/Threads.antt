-- ===== src/ControlPlane/Bandwidth/Threads.antt =====
-- Any number of threads that call `try_reserve` on one allocator and drop the guards, interleaved
-- between the atomic operations on the shared counter.
use rust_proxy.Base.{
  ℕ, ◌+◌, ◌≡◌, Bool, ◌&&◌, Option, none, some, List, [], ◌∷◌, ◌++◌, replicate, ◌==◌, if◌then◌else◌,
}
use rust_proxy.ControlPlane.Bandwidth.{next_reserved, wrapping_sub}

-- Where a thread stands in a call: before it, at the top of the loop, between the load and the
-- exchange, returned with a guard, returned without one.
pub data Thread : Type 0 where
  idle : Thread
  looping : (rate : ℕ) → Thread
  loaded : (current next rate : ℕ) → Thread
  holding : (rate : ℕ) → Thread
  refused : (rate : ℕ) → Thread

-- `exchange true` is an exchange that succeeds if it can; `exchange false` is one that fails by
-- itself, which the weak exchange may.
pub data Event : Type 0 where
  call : (rate : ℕ) → Event
  load release : Event
  exchange : (strong : Bool) → Event

-- The counter and the thread after its next atomic operation.
unfoldable pub thread_step : ℕ → ℕ → Thread → Event → Option (ℕ × Thread)
thread_step limit counter idle (call rate) = some (counter, looping rate)
thread_step limit counter (looping rate) load = some (
  counter,
  elim (next_reserved limit counter rate) [
    | none ↦ refused rate
    | some next ↦ loaded counter next rate
  ],
)
thread_step limit counter (loaded current next rate) (exchange strong) =
    if strong && (counter == current)
    then some (next, holding rate)
    else some (counter, looping rate)
thread_step limit counter (holding rate) release = some (wrapping_sub counter rate, idle)
thread_step limit counter t e = none

-- The shared counter and the threads.
pub record System : Type 0 where
  pub counter : ℕ
  pub threads : List Thread

pub data Step (limit : ℕ) : System → System → Type 0 where
  step :
      (counter counter' : ℕ) (before after : List Thread) (t t' : Thread) (e : Event)
      → thread_step limit counter t e ≡ some (counter', t')
      → Step limit
          (record { counter = counter; threads = before ++ t ∷ after })
          (record { counter = counter'; threads = before ++ t' ∷ after })

abbrev pub start : ℕ → System
start n = record { counter = 0; threads = replicate n idle }

pub data Reachable (limit n : ℕ) : System → Type 0 where
  initially : Reachable limit n (start n)
  then_step : {s s' : System} → Reachable limit n s → Step limit s s' → Reachable limit n s'

-- The rate of the guard that the thread holds, and of all guards.
unfoldable pub held_by : Thread → ℕ
held_by (holding rate) = rate
held_by _ = 0

unfoldable pub held : List Thread → ℕ
unfolding held_by
held [] = 0
held (t ∷ ts) = held_by t + held ts
