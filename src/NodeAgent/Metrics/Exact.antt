-- ===== src/NodeAgent/Metrics/Exact.antt =====
-- The connections of a node and the metrics that they record, interleaved.
use rust_proxy.Base.{
  ℕ, ◌+◌, ◌≤◌, ◌≡◌, ◌∙◌, String, Option, none, some, List, map, length, total, Result, ok, err,
  arith,
}
use rust_proxy.Metrics.{Call, counts, raises, lowers, is_open, Recorded, Reachable}
use rust_proxy.Metrics.Balance.{Balanced, counted, counted-calls, gauge-calls, total-length}
use rust_proxy.Session.Socket.{Socket}
use rust_proxy.Session.{Credentials}
use rust_proxy.NodeAgent.Handler.{NodeError, Dialled, Copied, Ended, run_with_ctx}
use rust_proxy.Protocol.Host.{SocksAddr}
use rust_proxy.NodeAgent.Metrics.{
  record_connection_opened, record_connection_closed, record_connection_error, record_bytes_up,
  record_bytes_down, relay_calls, result_calls, connection_calls, handle_connection,
}

-- A connection that the node accepts.
pub record Accepted : Type 0 where
  pub dial : SocksAddr → Dialled
  pub copy : Copied
  pub auth : Credentials
  pub gateway : Socket

abbrev pub calls_of : Accepted → List Call
calls_of c = (handle_connection c.dial c.copy c.auth c.gateway).1

abbrev pub ended_of : Accepted → Ended
ended_of c = run_with_ctx c.dial c.copy c.auth c.gateway

-- Whether a connection failed, and the bytes that it recorded up and down.
abbrev pub failed : Result NodeError (Unit {0}) → ℕ
failed (ok _) = 0
failed (err e) = 1

abbrev pub up : Option (ℕ × ℕ) → ℕ
up none = 0
up (some (a, b)) = a

abbrev pub down : Option (ℕ × ℕ) → ℕ
down none = 0
down (some (a, b)) = b

abbrev pub active : String
active = "node_active_connections"

one : 1 ≤ 1
one = omega arith

none_left : 0 ≤ 1
none_left = omega arith

node_calls-Balanced :
    (b : Option (ℕ × ℕ)) (r : Result NodeError (Unit {0})) → Balanced active (connection_calls b r)
unfolding connection_calls relay_calls result_calls record_connection_opened
    record_connection_closed record_connection_error record_bytes_up record_bytes_down raises lowers
    total
node_calls-Balanced (some (a, b)) (ok _) =
    (one, one, (one, one, (none_left, one, (none_left, one, (none_left, one, tt)))))
node_calls-Balanced (some (a, b)) (err e) = (
  one,
  one,
  (one, one, (none_left, one, (none_left, one, (none_left, one, (none_left, one, tt))))),
)
node_calls-Balanced none (ok _) = (one, one, (one, one, (none_left, one, tt)))
node_calls-Balanced none (err e) = (one, one, (one, one, (none_left, one, (none_left, one, tt))))

node_raised_once :
    (b : Option (ℕ × ℕ)) (r : Result NodeError (Unit {0}))
    → total (raises active) (connection_calls b r) ≡ 1
unfolding connection_calls relay_calls result_calls record_connection_opened
    record_connection_closed record_connection_error record_bytes_up record_bytes_down raises lowers
    total
node_raised_once (some (a, b)) (ok _) = omega arith
node_raised_once (some (a, b)) (err e) = omega arith
node_raised_once none (ok _) = omega arith
node_raised_once none (err e) = omega arith

node_lowered_once :
    (b : Option (ℕ × ℕ)) (r : Result NodeError (Unit {0}))
    → total (lowers active) (connection_calls b r) ≡ 1
unfolding connection_calls relay_calls result_calls record_connection_opened
    record_connection_closed record_connection_error record_bytes_up record_bytes_down raises lowers
    total
node_lowered_once (some (a, b)) (ok _) = omega arith
node_lowered_once (some (a, b)) (err e) = omega arith
node_lowered_once none (ok _) = omega arith
node_lowered_once none (err e) = omega arith

node_opened_once :
    (b : Option (ℕ × ℕ)) (r : Result NodeError (Unit {0}))
    → total (counts "node_connections_total") (connection_calls b r) ≡ 1
unfolding connection_calls relay_calls result_calls record_connection_opened
    record_connection_closed record_connection_error record_bytes_up record_bytes_down counts total
node_opened_once (some (a, b)) (ok _) = omega arith
node_opened_once (some (a, b)) (err e) = omega arith
node_opened_once none (ok _) = omega arith
node_opened_once none (err e) = omega arith

node_failure_counted :
    (b : Option (ℕ × ℕ)) (r : Result NodeError (Unit {0}))
    → total (counts "node_connection_errors_total") (connection_calls b r) ≡ failed r
unfolding connection_calls relay_calls result_calls record_connection_opened
    record_connection_closed record_connection_error record_bytes_up record_bytes_down counts total
node_failure_counted (some (a, b)) (ok _) = omega arith
node_failure_counted (some (a, b)) (err e) = omega arith
node_failure_counted none (ok _) = omega arith
node_failure_counted none (err e) = omega arith

node_up_counted :
    (b : Option (ℕ × ℕ)) (r : Result NodeError (Unit {0}))
    → total (counts "node_bytes_up_total") (connection_calls b r) ≡ up b
unfolding connection_calls relay_calls result_calls record_connection_opened
    record_connection_closed record_connection_error record_bytes_up record_bytes_down counts total
node_up_counted (some (a, b)) (ok _) = omega arith
node_up_counted (some (a, b)) (err e) = omega arith
node_up_counted none (ok _) = omega arith
node_up_counted none (err e) = omega arith

node_down_counted :
    (b : Option (ℕ × ℕ)) (r : Result NodeError (Unit {0}))
    → total (counts "node_bytes_down_total") (connection_calls b r) ≡ down b
unfolding connection_calls relay_calls result_calls record_connection_opened
    record_connection_closed record_connection_error record_bytes_up record_bytes_down counts total
node_down_counted (some (a, b)) (ok _) = omega arith
node_down_counted (some (a, b)) (err e) = omega arith
node_down_counted none (ok _) = omega arith
node_down_counted none (err e) = omega arith

-- The gauge is the number of connections that have begun and not ended, and, counted with what the
-- connections have still to add, there are as many connections as were accepted, as many errors as
-- connections that fail, and the bytes of the relays that ended.
pub record IsExact (accepted : List Accepted) (s : Recorded) : Type 0 where
  pub gauge :
      total (raises active) s.made ≡ total (lowers active) s.made + total (is_open active) s.left
  pub connections : counted "node_connections_total" s ≡ length accepted
  pub errors :
      counted "node_connection_errors_total" s ≡ total (λ c. failed (ended_of c).result) accepted
  pub bytes_up : counted "node_bytes_up_total" s ≡ total (λ c. up (ended_of c).recorded) accepted
  pub bytes_down :
      counted "node_bytes_down_total" s ≡ total (λ c. down (ended_of c).recorded) accepted

pub connections-IsExact :
    (accepted : List Accepted) (s : Recorded)
    → Reachable (map calls_of accepted) s
    → IsExact accepted s
unfolding handle_connection
connections-IsExact accepted s r = record {
  gauge =
      gauge-calls calls_of active accepted s
        (λ c. node_calls-Balanced (ended_of c).recorded (ended_of c).result)
        (λ c. node_raised_once (ended_of c).recorded (ended_of c).result)
        (λ c. node_lowered_once (ended_of c).recorded (ended_of c).result) r;
  connections =
      counted-calls calls_of "node_connections_total" (λ _. 1) accepted s
        (λ c. node_opened_once (ended_of c).recorded (ended_of c).result) r
      ∙ total-length accepted;
  errors =
      counted-calls calls_of "node_connection_errors_total" (λ c. failed (ended_of c).result)
        accepted s (λ c. node_failure_counted (ended_of c).recorded (ended_of c).result) r;
  bytes_up =
      counted-calls calls_of "node_bytes_up_total" (λ c. up (ended_of c).recorded) accepted s
        (λ c. node_up_counted (ended_of c).recorded (ended_of c).result) r;
  bytes_down =
      counted-calls calls_of "node_bytes_down_total" (λ c. down (ended_of c).recorded) accepted s
        (λ c. node_down_counted (ended_of c).recorded (ended_of c).result) r;
}
