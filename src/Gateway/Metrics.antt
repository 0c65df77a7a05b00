-- ===== src/Gateway/Metrics.antt =====
-- crates/gateway/src/metrics.rs, and what crates/gateway/src/handler.rs records of a connection.
pub mod Exact
use rust_proxy.Base.{ℕ, List, [], ◌∷◌, ◌++◌, Result, ok, err}
use rust_proxy.Metrics.{Call, increment_counter, increment_gauge, decrement_gauge}
use rust_proxy.Session.Socket.{Socket}
use rust_proxy.Session.{Credentials}
use rust_proxy.Gateway.Handler.{GatewayError, RelayStats, Net, Ended, run_with_ctx}

unfoldable pub record_connection_opened : List Call
record_connection_opened =
    increment_counter "proxy_connections_total" 1 ∷ increment_gauge "proxy_active_connections" ∷ []

unfoldable pub record_connection_closed : List Call
record_connection_closed = decrement_gauge "proxy_active_connections" ∷ []

unfoldable pub record_connection_error : List Call
record_connection_error = increment_counter "proxy_connection_errors_total" 1 ∷ []

unfoldable pub record_bytes_up : ℕ → List Call
record_bytes_up n = increment_counter "proxy_bytes_up_total" n ∷ []

unfoldable pub record_bytes_down : ℕ → List Call
record_bytes_down n = increment_counter "proxy_bytes_down_total" n ∷ []

-- What the end of `run_with_ctx` records, and the match on its result.
unfoldable pub result_calls : Result GatewayError RelayStats → List Call
unfolding record_connection_error record_bytes_up record_bytes_down
result_calls (ok stats) = record_bytes_up stats.bytes_up ++ record_bytes_down stats.bytes_down
result_calls (err e) = record_connection_error

unfoldable pub connection_calls : Result GatewayError RelayStats → List Call
unfolding record_connection_opened record_connection_closed result_calls
connection_calls result =
    record_connection_opened ++ (result_calls result ++ record_connection_closed)

-- The streams and the result of a connection, and the calls that it makes.
unfoldable pub handle_connection : Net → Credentials → Socket → Ended × List Call
unfolding connection_calls
handle_connection net auth client =
    let ended = run_with_ctx net auth client in (ended, connection_calls ended.result)
