-- ===== src/NodeAgent/Tests.antt =====
-- A concrete gateway, and the theorems of the node at it.
use rust_proxy.Base.{◌↔◌, total, ℕ, ◌≤◌, ◌≡◌, refl, false, true, none, [], ◌∷◌, ◌++◌, All, arith}
use rust_proxy.Base.Utf8.{is_utf8}
use rust_proxy.Protocol.Handshake.{contains}
use rust_proxy.Protocol.Host.{domain, SocksAddr}
use rust_proxy.Protocol.Command.{connect}
use rust_proxy.Protocol.Request.RoundTrip.{IsSendable, frame}
use rust_proxy.Session.Moves.{clear}
use rust_proxy.Session.Complete.{entry, welcome, IsEntry}
use rust_proxy.NodeAgent.Handler.{unreachable, copied, run_with_ctx}
use rust_proxy.NodeAgent.Outcome.{outcome, run_with_ctx-outcome}
use rust_proxy.NodeAgent.Server.{
  drained, Server, waiting, permitted, admitted, serving, task_step, active, start, accept, work,
  Reachable, initially, then_step, heartbeat,
}
use rust_proxy.NodeAgent.Server.Limit.{drained-active, IsHonest, connections_limited}
use rust_proxy.NodeAgent.Server.Drain.{Works, IsFinished, todo, tasks_drain}

-- `ab:443`
abbrev target : SocksAddr
target = record { host = domain (0x61 ∷ 0x62 ∷ []); port = 443 }

target-IsSendable : IsSendable target
unfolding is_utf8
target-IsSendable = record {
  typed = (refl, (omega arith, (omega arith, tt)));
  encodable = (omega arith, omega arith);
  port_fits = omega arith;
}

open-IsEntry : IsEntry none (0 ∷ [])
unfolding contains
open-IsEntry = (omega arith, omega arith, refl)

run_with_ctx-outcome_example :
    run_with_ctx
      (λ _. unreachable)
      (copied 3 4)
      none
      (clear
        (entry none (0 ∷ []) ++ (frame 0 (record { command = connect; addr = target }) ++ []))
        [])
    ≡ outcome [] (welcome none) target unreachable (copied 3 4)
run_with_ctx-outcome_example =
    run_with_ctx-outcome (λ _. unreachable) (copied 3 4) none (0 ∷ []) [] [] 0 target open-IsEntry
      target-IsSendable

-- A node for one connection, with two accepted: the one that got the permit is served.
abbrev first_served : Server
first_served = record {
  shared = record {
    permits = 0;
    cancelled = false;
    stats = record { bytes_up = 0; bytes_down = 0; active_connections = 1 };
  };
  accepting = true;
  beating = true;
  tasks = waiting ∷ serving ∷ [];
  beats = [];
}

abbrev two_waiting : Server
two_waiting = record (start 1) { tasks = waiting ∷ waiting ∷ [] }

first_served-Reachable : Reachable 1 1000 first_served
unfolding task_step
first_served-Reachable =
    then_step
      (then_step
        (then_step
          (then_step (then_step initially (accept (start 1) refl))
            (accept (record (start 1) { tasks = waiting ∷ [] }) refl))
          (work two_waiting (waiting ∷ []) [] waiting permitted
            (record two_waiting.shared { permits = 0 }) refl refl))
        (work
          (record two_waiting {
            shared = record two_waiting.shared { permits = 0 };
            tasks = waiting ∷ permitted ∷ [];
          })
          (waiting ∷ []) [] permitted admitted (record two_waiting.shared { permits = 0 }) refl
          refl))
      (work
        (record two_waiting {
          shared = record two_waiting.shared { permits = 0 };
          tasks = waiting ∷ admitted ∷ [];
        })
        (waiting ∷ []) [] admitted serving first_served.shared refl refl)

connections_limited_example :
    (1 ≡ total active (waiting ∷ serving ∷ []))
    × (total active (waiting ∷ serving ∷ []) ≤ 1)
    × ((heartbeat 1000 first_served.shared.stats).0 ≡ record {
      active_connections = total active (waiting ∷ serving ∷ []);
      bytes_up = 0;
      bytes_down = 0;
      latency_ms = 0;
      available_bandwidth = 1000;
    })
    × All (IsHonest 1 1000) []
connections_limited_example =
    connections_limited 1 1000 first_served (omega arith) first_served-Reachable

tasks_drain_example :
    ((n : ℕ) × (s' : Server) × Works 1000 n first_served s'
      × All IsFinished s'.tasks
      × (s'.shared.permits ≡ 1))
    × ((n : ℕ) (s' : Server)
        → Works 1000 n first_served s'
        → n ≤ total todo (waiting ∷ serving ∷ []))
tasks_drain_example =
    tasks_drain 1 1000 first_served (omega arith) (omega arith) first_served-Reachable

drained-active_example :
    (drained false first_served ≡ true) ↔ (total active (waiting ∷ serving ∷ []) ≡ 0)
drained-active_example = drained-active 1 1000 first_served (omega arith) first_served-Reachable
