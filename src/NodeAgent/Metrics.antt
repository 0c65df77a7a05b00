-- ===== src/NodeAgent/Metrics.antt =====
-- crates/node/src/metrics.rs, and what crates/node/src/handler.rs records of a connection
-- and server.rs of a heartbeat.
pub mod Exact
use rust_proxy.Base.{ℕ, Option, none, some, List, [], ◌∷◌, ◌++◌, Result, ok, err}
use rust_proxy.Metrics.{Call, increment_counter, increment_gauge, decrement_gauge}
use rust_proxy.Session.Socket.{Socket}
use rust_proxy.Session.{Credentials}
use rust_proxy.Protocol.Host.{SocksAddr}
use rust_proxy.NodeAgent.CpClient.{Failed}
use rust_proxy.NodeAgent.Handler.{NodeError, Dialled, Copied, Ended, run_with_ctx}

unfoldable pub record_connection_opened : List Call
record_connection_opened =
    increment_counter "node_connections_total" 1 ∷ increment_gauge "node_active_connections" ∷ []

unfoldable pub record_connection_closed : List Call
record_connection_closed = decrement_gauge "node_active_connections" ∷ []

unfoldable pub record_connection_error : List Call
record_connection_error = increment_counter "node_connection_errors_total" 1 ∷ []

unfoldable pub record_bytes_up : ℕ → List Call
record_bytes_up n = increment_counter "node_bytes_up_total" n ∷ []

unfoldable pub record_bytes_down : ℕ → List Call
record_bytes_down n = increment_counter "node_bytes_down_total" n ∷ []

unfoldable pub record_heartbeat : List Call
record_heartbeat = increment_counter "node_heartbeats_total" 1 ∷ []

unfoldable pub record_heartbeat_error : List Call
record_heartbeat_error = increment_counter "node_heartbeat_errors_total" 1 ∷ []

-- What the last match of `run_with_ctx` records.
unfoldable pub relay_calls : Option (ℕ × ℕ) → List Call
unfolding record_bytes_up record_bytes_down
relay_calls (some (up, down)) = record_bytes_up up ++ record_bytes_down down
relay_calls none = []

-- The match on its result.
unfoldable pub result_calls : Result NodeError (Unit {0}) → List Call
unfolding record_connection_error
result_calls (ok _) = []
result_calls (err e) = record_connection_error

unfoldable pub connection_calls : Option (ℕ × ℕ) → Result NodeError (Unit {0}) → List Call
unfolding record_connection_opened record_connection_closed relay_calls result_calls
connection_calls recorded result =
    record_connection_opened
    ++ (relay_calls recorded ++ (result_calls result ++ record_connection_closed))

-- The stream and the result of a connection, and the calls that it makes.
unfoldable pub handle_connection :
    (SocksAddr → Dialled) → Copied → Credentials → Socket → Ended × List Call
unfolding connection_calls
handle_connection dial copy auth gw =
    let ended = run_with_ctx dial copy auth gw in
    (ended, connection_calls ended.recorded ended.result)

-- What a tick of `heartbeat_loop` records of the request that it sends.
unfoldable pub heartbeat_calls : Result Failed (Unit {0}) → List Call
unfolding record_heartbeat record_heartbeat_error
heartbeat_calls (ok _) = record_heartbeat
heartbeat_calls (err e) = record_heartbeat_error
