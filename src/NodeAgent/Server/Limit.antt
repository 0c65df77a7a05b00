-- ===== src/NodeAgent/Server/Limit.antt =====
-- The connections that a node serves, against its limit, and what its heartbeats say.
use rust_proxy.Base.{
  true, false, ◌↔◌, total, total-append, total_le, ℕ, ◌+◌, ◌≤◌, ◌<◌, ◌≡◌, refl, subst, Option, none,
  some, List, ◌∷◌, ◌++◌, All, ◌==◌, arith, Bool-cases, inl, inr,
}
use rust_proxy.NodeAgent.Server.{
  drained, u32_mod, HeartbeatPayload, heartbeat, Task, waiting, permitted, admitted, serving,
  served, finished, Shared, task_step, Server, Step, accept, work, cancel, stop_accepting,
  stop_beating, beat, start, Reachable, initially, then_step, holds, active,
}

active-le : (t : Task) → active t ≤ holds t
unfolding active holds
active-le waiting = omega arith
active-le permitted = omega arith
active-le admitted = omega arith
active-le serving = omega arith
active-le served = omega arith
active-le finished = omega arith

-- What a heartbeat says.
abbrev pub IsHonest : ℕ → ℕ → HeartbeatPayload → Type 0
IsHonest max_connections bandwidth_limit hb =
    (hb.active_connections ≤ max_connections)
    × (hb.bytes_up ≡ 0)
    × (hb.bytes_down ≡ 0)
    × (hb.latency_ms ≡ 0)
    × (hb.available_bandwidth ≡ bandwidth_limit)

-- The counters against the tasks: `h` permits held and `n` connections active.
abbrev pub Counted : ℕ → Shared → ℕ → ℕ → Type 0
Counted max_connections shared h n =
    (shared.permits + h ≡ max_connections)
    × (shared.stats.active_connections ≡ n)
    × (shared.stats.bytes_up ≡ 0)
    × (shared.stats.bytes_down ≡ 0)

abbrev pub Inv : ℕ → ℕ → Server → Type 0
Inv max_connections bandwidth_limit s =
    Counted max_connections s.shared (total holds s.tasks) (total active s.tasks)
    × All (IsHonest max_connections bandwidth_limit) s.beats

abbrev CountedAfter : ℕ → ℕ → ℕ → Option (Shared × Task) → Type 0
CountedAfter max_connections h n none = Unit
CountedAfter max_connections h n (some (shared, t)) =
    Counted max_connections shared (holds t + h) (active t + n)

task_step-Counted :
    (max_connections h n : ℕ) (shared : Shared) (t : Task)
    → max_connections < u32_mod
    → n ≤ h
    → Counted max_connections shared (holds t + h) (active t + n)
    → CountedAfter max_connections h n (task_step shared t)
unfolding task_step holds active
task_step-Counted m h n shared waiting small le (p, a, u, d) =
    elim (Bool-cases (shared.permits == 0)) [
      | inl e ↦ rw e tt
      | inr e ↦ rw e (ground arith, a, u, d)
    ]
task_step-Counted m h n shared permitted small le (p, a, u, d) =
    elim (Bool-cases shared.cancelled) [
      | inl e ↦ rw e (omega arith, a, u, d)
      | inr e ↦ rw e (p, a, u, d)
    ]
task_step-Counted m h n shared admitted small le (p, a, u, d) = (p, omega arith, u, d)
task_step-Counted m h n shared serving small le (p, a, u, d) = (p, omega arith, u, d)
task_step-Counted m h n shared served small le (p, a, u, d) = (omega arith, a, u, d)
task_step-Counted m h n shared finished small le c = tt

heartbeat-IsHonest :
    (m bandwidth_limit h n : ℕ) (shared : Shared)
    → n ≤ h
    → Counted m shared h n
    → IsHonest m bandwidth_limit (heartbeat bandwidth_limit shared.stats).0
      × Counted m (record shared { stats = (heartbeat bandwidth_limit shared.stats).1 }) h n
unfolding heartbeat
heartbeat-IsHonest m b h n shared le (p, a, u, d) =
    ((omega arith, u, d, refl, refl), (p, a, refl, refl))

-- The counts with one task taken out, and put back.
around :
    (m : ℕ) (tasks : List Task) (shared : Shared) (before after : List Task) (t : Task)
    → tasks ≡ before ++ t ∷ after
    → Counted m shared (total holds tasks) (total active tasks)
    → Counted m shared
        (holds t + (total holds before + total holds after))
        (active t + (total active before + total active after))
      × (total active before + total active after ≤ total holds before + total holds after)
around m tasks shared before after t split c = (
  (rw (split, total-append holds before t after, total-append active before t after) at c),
  omega (arith, total_le active holds active-le before, total_le active holds active-le after),
)

recount :
    (m : ℕ) (before after : List Task) (t : Task) (shared : Shared)
    → Counted m shared
        (holds t + (total holds before + total holds after))
        (active t + (total active before + total active after))
    → Counted m shared (total holds (before ++ t ∷ after)) (total active (before ++ t ∷ after))
recount m before after t shared c =
    rw (total-append holds before t after, total-append active before t after) c

pub Step-Inv : (m b : ℕ) (s s' : Server) → m < u32_mod → Step b s s' → Inv m b s → Inv m b s'
unfolding total holds active
Step-Inv m b _ _ small (accept s going) ((p, a, u, d), beats) =
    ((omega arith, omega arith, u, d), beats)
Step-Inv m b _ _ small (work s before after t t' shared' split e) (c, beats) =
    let (c', le) = around m s.tasks s.shared before after t split c in
    (
      recount m before after t' shared' (
          subst
            (CountedAfter m (total holds before + total holds after)
              (total active before + total active after))
            e (task_step-Counted m _ _ s.shared t small le c')),
      beats,
    )
Step-Inv m b _ _ small (cancel s) inv = inv
Step-Inv m b _ _ small (stop_accepting s e) inv = inv
Step-Inv m b _ _ small (stop_beating s e) inv = inv
Step-Inv m b _ _ small (beat s e) (c, beats) =
    let (honest, c') =
      heartbeat-IsHonest m b _ _ s.shared (total_le active holds active-le s.tasks) c in
    (c', (honest, beats))

start-Inv : (m b : ℕ) → Inv m b (start m)
unfolding total
start-Inv m b = ((omega arith, refl, refl, refl), tt)

pub Reachable-Inv : (m b : ℕ) (s : Server) → m < u32_mod → Reachable m b s → Inv m b s
Reachable-Inv m b s small initially = start-Inv m b
Reachable-Inv m b s small (then_step r st) = Step-Inv m b _ s small st (Reachable-Inv m b _ small r)

-- However the tasks of the accepted connections, the shutdown and the heartbeats interleave, the
-- connections that are served are at most `max_connections`, a 32-bit number, and the counter is
-- their number. A heartbeat that is taken now reports exactly that number, the configured bandwidth,
-- no latency, and no bytes, whatever was relayed; each heartbeat sent so far reported no more than
-- `max_connections` connections, the configured bandwidth, no latency and no bytes.
pub connections_limited :
    (max_connections bandwidth_limit : ℕ) (s : Server)
    → max_connections < u32_mod
    → Reachable max_connections bandwidth_limit s
    → (s.shared.stats.active_connections ≡ total active s.tasks)
      × (total active s.tasks ≤ max_connections)
      × ((heartbeat bandwidth_limit s.shared.stats).0 ≡ record {
        active_connections = total active s.tasks;
        bytes_up = 0;
        bytes_down = 0;
        latency_ms = 0;
        available_bandwidth = bandwidth_limit;
      })
      × All (IsHonest max_connections bandwidth_limit) s.beats
unfolding heartbeat
connections_limited m b s small r =
    let ((p, a, u, d), beats) = Reachable-Inv m b s small r in
    (a, omega (arith, total_le active holds active-le s.tasks), rw (a, u, d) refl, beats)

-- The wait at the end is over before its deadline exactly when no connection is served; a task that
-- has its permit and is not yet counted does not hold it up.
pub drained-active :
    (max_connections bandwidth_limit : ℕ) (s : Server)
    → max_connections < u32_mod
    → Reachable max_connections bandwidth_limit s
    → (drained false s ≡ true) ↔ (total active s.tasks ≡ 0)
unfolding drained
drained-active m b s small r =
    let ((p, a, u, d), beats) = Reachable-Inv m b s small r in
    (λ h. ground arith, λ h. rw (a, h) refl)
