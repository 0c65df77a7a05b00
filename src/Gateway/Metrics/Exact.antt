-- ===== src/Gateway/Metrics/Exact.antt =====
-- The connections of a gateway and the metrics that they record, interleaved.
use rust_proxy.Base.{
  ℕ, ◌+◌, ◌≤◌, ◌≡◌, ◌∙◌, String, List, map, length, total, Result, ok, err, arith,
}
use rust_proxy.Metrics.{Call, counts, raises, lowers, is_open, Recorded, Reachable}
use rust_proxy.Metrics.Balance.{Balanced, counted, counted-calls, gauge-calls, total-length}
use rust_proxy.Session.Socket.{Socket}
use rust_proxy.Session.{Credentials}
use rust_proxy.Gateway.Handler.{GatewayError, RelayStats, Net, run_with_ctx}
use rust_proxy.Gateway.Metrics.{
  record_connection_opened, record_connection_closed, record_connection_error, record_bytes_up,
  record_bytes_down, result_calls, connection_calls, handle_connection,
}

-- A connection that the gateway accepts.
pub record Accepted : Type 0 where
  pub net : Net
  pub auth : Credentials
  pub client : Socket

abbrev pub calls_of : Accepted → List Call
calls_of c = (handle_connection c.net c.auth c.client).1

abbrev pub result_of : Accepted → Result GatewayError RelayStats
result_of c = (run_with_ctx c.net c.auth c.client).result

-- Whether a connection failed, and the bytes that it relayed up and down if it did not.
abbrev pub failed : Result GatewayError RelayStats → ℕ
failed (ok stats) = 0
failed (err e) = 1

abbrev pub up : Result GatewayError RelayStats → ℕ
up (ok stats) = stats.bytes_up
up (err e) = 0

abbrev pub down : Result GatewayError RelayStats → ℕ
down (ok stats) = stats.bytes_down
down (err e) = 0

abbrev pub active : String
active = "proxy_active_connections"

one : 1 ≤ 1
one = omega arith

none_left : 0 ≤ 1
none_left = omega arith

connection_calls-Balanced :
    (r : Result GatewayError RelayStats) → Balanced active (connection_calls r)
unfolding connection_calls result_calls record_connection_opened record_connection_closed
    record_connection_error record_bytes_up record_bytes_down raises lowers total
connection_calls-Balanced (ok stats) =
    (one, one, (one, one, (none_left, one, (none_left, one, (none_left, one, tt)))))
connection_calls-Balanced (err e) = (one, one, (one, one, (none_left, one, (none_left, one, tt))))

raised_once : (r : Result GatewayError RelayStats) → total (raises active) (connection_calls r) ≡ 1
unfolding connection_calls result_calls record_connection_opened record_connection_closed
    record_connection_error record_bytes_up record_bytes_down raises lowers total
raised_once (ok stats) = omega arith
raised_once (err e) = omega arith

lowered_once : (r : Result GatewayError RelayStats) → total (lowers active) (connection_calls r) ≡ 1
unfolding connection_calls result_calls record_connection_opened record_connection_closed
    record_connection_error record_bytes_up record_bytes_down raises lowers total
lowered_once (ok stats) = omega arith
lowered_once (err e) = omega arith

opened_once :
    (r : Result GatewayError RelayStats)
    → total (counts "proxy_connections_total") (connection_calls r) ≡ 1
unfolding connection_calls result_calls record_connection_opened record_connection_closed
    record_connection_error record_bytes_up record_bytes_down counts total
opened_once (ok stats) = omega arith
opened_once (err e) = omega arith

failure_counted :
    (r : Result GatewayError RelayStats)
    → total (counts "proxy_connection_errors_total") (connection_calls r) ≡ failed r
unfolding connection_calls result_calls record_connection_opened record_connection_closed
    record_connection_error record_bytes_up record_bytes_down counts total
failure_counted (ok stats) = omega arith
failure_counted (err e) = omega arith

up_counted :
    (r : Result GatewayError RelayStats)
    → total (counts "proxy_bytes_up_total") (connection_calls r) ≡ up r
unfolding connection_calls result_calls record_connection_opened record_connection_closed
    record_connection_error record_bytes_up record_bytes_down counts total
up_counted (ok stats) = omega arith
up_counted (err e) = omega arith

down_counted :
    (r : Result GatewayError RelayStats)
    → total (counts "proxy_bytes_down_total") (connection_calls r) ≡ down r
unfolding connection_calls result_calls record_connection_opened record_connection_closed
    record_connection_error record_bytes_up record_bytes_down counts total
down_counted (ok stats) = omega arith
down_counted (err e) = omega arith

-- The gauge is the number of connections that have begun and not ended, and, counted with what the
-- connections have still to add, there are as many connections as were accepted, as many errors as
-- connections that fail, and the bytes of the relays that ended.
pub record IsExact (accepted : List Accepted) (s : Recorded) : Type 0 where
  pub gauge :
      total (raises active) s.made ≡ total (lowers active) s.made + total (is_open active) s.left
  pub connections : counted "proxy_connections_total" s ≡ length accepted
  pub errors :
      counted "proxy_connection_errors_total" s ≡ total (λ c. failed (result_of c)) accepted
  pub bytes_up : counted "proxy_bytes_up_total" s ≡ total (λ c. up (result_of c)) accepted
  pub bytes_down : counted "proxy_bytes_down_total" s ≡ total (λ c. down (result_of c)) accepted

pub connections-IsExact :
    (accepted : List Accepted) (s : Recorded)
    → Reachable (map calls_of accepted) s
    → IsExact accepted s
unfolding handle_connection
connections-IsExact accepted s r = record {
  gauge =
      gauge-calls calls_of active accepted s (λ c. connection_calls-Balanced (result_of c))
        (λ c. raised_once (result_of c)) (λ c. lowered_once (result_of c)) r;
  connections =
      counted-calls calls_of "proxy_connections_total" (λ _. 1) accepted s
        (λ c. opened_once (result_of c)) r
      ∙ total-length accepted;
  errors =
      counted-calls calls_of "proxy_connection_errors_total" (λ c. failed (result_of c)) accepted s
        (λ c. failure_counted (result_of c)) r;
  bytes_up =
      counted-calls calls_of "proxy_bytes_up_total" (λ c. up (result_of c)) accepted s
        (λ c. up_counted (result_of c)) r;
  bytes_down =
      counted-calls calls_of "proxy_bytes_down_total" (λ c. down (result_of c)) accepted s
        (λ c. down_counted (result_of c)) r;
}
