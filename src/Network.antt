-- ===== src/Network.antt =====
-- The control plane behind its clients: crates/node/src/cp_client.rs and crates/gateway/src/proxy_client.rs
-- send what crates/control-plane/src/api.rs answers. HTTP, the routes of axum and JSON come from
-- libraries: what is relied on of them stands in the records of this file.
pub mod Usable
pub mod Reported
pub mod Requests
pub mod Reached
pub mod Served
mod Tests
use Prim.Native.String.{◌++◌}
use rust_proxy.Base.{ℕ, ◌≡◌, String, true, false, Option, none, some, [], Result, ok, err}
use rust_proxy.Base.Http.{HeaderMap, Response, response, Http}
use rust_proxy.ControlPlane.Float.{Float}
use rust_proxy.ControlPlane.Health.{HealthPolicy}
use rust_proxy.ControlPlane.Registry.{Heartbeat, RegisterRequest, Platform, Db}
use rust_proxy.ControlPlane.Api.{
  Auth, Status, bad_request, unauthorized, not_found, internal, service_unavailable, NodeResponse,
  header, register_node, heartbeat_node, select_node,
}
use rust_proxy.NodeAgent.Server.{RegisterPayload, HeartbeatPayload}
use rust_proxy.Gateway.ProxyClient.{SelectResponse}

unfoldable pub status_code : Status → ℕ
status_code bad_request = 400
status_code unauthorized = 401
status_code not_found = 404
status_code internal = 500
status_code service_unavailable = 503

-- `into_response`, read back by a client that takes `f` of the body; the body of an error is another.
unfoldable pub into_response : {A B : Type 0} → (A → B) → Db × Result Status A → Db × Response B
unfolding status_code
into_response f (db, ok a) = (db, response 200 (some (f a)))
into_response f (db, err status) = (db, response (status_code status) none)

-- The payloads as the handlers read them, by the names of their fields; `node_id` has a default.
abbrev pub registration : RegisterPayload → RegisterRequest
registration payload = record {
  node_id = payload.node_id;
  address = payload.address;
  max_connections = payload.max_connections;
  bandwidth_limit = payload.bandwidth_limit;
}

abbrev pub report : HeartbeatPayload → Heartbeat
report payload = record {
  node_id = "";
  active_connections = payload.active_connections;
  bytes_up = payload.bytes_up;
  bytes_down = payload.bytes_down;
  latency_ms = payload.latency_ms;
  available_bandwidth = payload.available_bandwidth;
}

abbrev pub selection : NodeResponse → SelectResponse
selection node = record { id = node.id; address = node.address }

-- What the library does with a token and a status.
pub record Standard {Body Reply : Type 0} (http : Http Db Body Reply) : Type 0 where
  pub presents :
      (token : String)
      → header (http.bearer_auth token []) "authorization" ≡ some (some ("Bearer " ++ token))
  pub success : http.is_success 200 ≡ true
  pub failure : (status : Status) → http.is_success (status_code status) ≡ false

-- A request to the control plane at `base` reaches its handler, and the answer comes back.
module _ (p : Platform) (auth : Auth) (base : String) where
  pub record Registers (http : Http Db RegisterPayload (Unit {0})) : Type 0 where
    pub delivers :
        (headers : HeaderMap) (payload : RegisterPayload) (db : Db)
        → http.post (base ++ "/nodes/register") headers payload db
          ≡ into_response (λ _. tt) (register_node p auth headers (registration payload) db)

  module _ (float : Float) where
    pub record Beats (policy : HealthPolicy (float.F)) (id : String)
        (http : Http Db HeartbeatPayload (Unit {0})) : Type 0 where
      pub delivers :
          (headers : HeaderMap) (payload : HeartbeatPayload) (db : Db)
          → http.post (((base ++ "/nodes/") ++ id) ++ "/heartbeat") headers payload db
            ≡ into_response
                (λ _. tt)
                (heartbeat_node float p policy auth headers id (report payload) db)

    pub record Selects (http : Http Db (Unit {0}) SelectResponse) : Type 0 where
      pub delivers :
          (headers : HeaderMap) (db : Db)
          → http.post (base ++ "/nodes/select") headers tt db
            ≡ into_response selection (select_node float p db)
