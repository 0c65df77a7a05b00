-- ===== src/Metrics/Exact.antt =====
-- The metrics of a gateway and of a node.
use rust_proxy.Base.{List, map}
use rust_proxy.Metrics.{Recorded, Reachable}
use rust_proxy.Gateway.Metrics.Exact as Gateway
use rust_proxy.NodeAgent.Metrics.Exact as NodeAgent

-- However the connections that a gateway or a node accepts interleave, after any number of the calls that
-- they make: the gauge of the active connections is the number of those that have begun and not ended;
-- and, counted with what the connections have still to add, there are as many connections as were
-- accepted, as many errors as connections that fail, and the bytes that the calls which ended report.
pub metrics-IsExact :
    (clients : List Gateway.Accepted) (gateway : Recorded) (chained : List NodeAgent.Accepted)
    (node : Recorded)
    → Reachable (map Gateway.calls_of clients) gateway
    → Reachable (map NodeAgent.calls_of chained) node
    → Gateway.IsExact clients gateway × NodeAgent.IsExact chained node
metrics-IsExact clients gateway chained node r q =
    (Gateway.connections-IsExact clients gateway r, NodeAgent.connections-IsExact chained node q)
