-- ===== src/Metrics/Tests.antt =====
-- A gateway and a node, each with one connection that has begun.
use rust_proxy.Base.{List, [], ◌∷◌, ◌++◌, none}
use rust_proxy.Metrics.{
  Call, increment_counter, increment_gauge, Recorded, Reachable, initially, then_call,
}
use rust_proxy.Metrics.Exact.{metrics-IsExact}
use rust_proxy.Session.Moves.{clear}
use rust_proxy.Gateway.Handler.{select_timed_out, refused, copy_timed_out}
use rust_proxy.Gateway.Metrics as GatewayMetrics
use rust_proxy.Gateway.Metrics.Exact as Gateway
use rust_proxy.NodeAgent.Handler as NodeHandler
use rust_proxy.NodeAgent.Metrics as NodeMetrics
use rust_proxy.NodeAgent.Metrics.Exact as NodeAgent

abbrev visitor : Gateway.Accepted
visitor = record {
  net = record { selection = select_timed_out; dial = λ _. refused; copy = copy_timed_out };
  auth = none;
  client = clear [] [];
}

abbrev chained : NodeAgent.Accepted
chained = record {
  dial = λ _. NodeHandler.refused;
  copy = NodeHandler.copied 1 2;
  auth = none;
  gateway = clear [] [];
}

-- The gateway has counted the connection, and the node has raised the gauge too.
abbrev gateway_left : List Call
gateway_left =
    increment_gauge "proxy_active_connections"
    ∷ (GatewayMetrics.result_calls (Gateway.result_of visitor)
        ++ GatewayMetrics.record_connection_closed)

abbrev gateway : Recorded
gateway = record {
  made = increment_counter "proxy_connections_total" 1 ∷ [];
  left = gateway_left ∷ [];
}

abbrev node_left : List Call
node_left =
    NodeMetrics.relay_calls (NodeAgent.ended_of chained).recorded
    ++ (NodeMetrics.result_calls (NodeAgent.ended_of chained).result
        ++ NodeMetrics.record_connection_closed)

abbrev node : Recorded
node = record {
  made =
      increment_gauge "node_active_connections" ∷ increment_counter "node_connections_total" 1 ∷ [];
  left = node_left ∷ [];
}

gateway-Reachable : Reachable (Gateway.calls_of visitor ∷ []) gateway
unfolding GatewayMetrics.handle_connection GatewayMetrics.connection_calls
    GatewayMetrics.record_connection_opened
gateway-Reachable =
    then_call [] [] [] (increment_counter "proxy_connections_total" 1) gateway_left initially

node-Reachable : Reachable (NodeAgent.calls_of chained ∷ []) node
unfolding NodeMetrics.handle_connection NodeMetrics.connection_calls
    NodeMetrics.record_connection_opened
node-Reachable =
    then_call (increment_counter "node_connections_total" 1 ∷ []) [] []
      (increment_gauge "node_active_connections") node_left
      (then_call [] [] [] (increment_counter "node_connections_total" 1)
        (increment_gauge "node_active_connections" ∷ node_left) initially)

metrics-IsExact_example :
    Gateway.IsExact (visitor ∷ []) gateway × NodeAgent.IsExact (chained ∷ []) node
metrics-IsExact_example =
    metrics-IsExact (visitor ∷ []) gateway (chained ∷ []) node gateway-Reachable node-Reachable
