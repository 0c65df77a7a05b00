-- ===== src/NodeAgent/CpClient.antt =====
-- crates/node/src/cp_client.rs: the node's client of the control plane. The HTTP library is a parameter,
-- and an error is told without its text.
use Prim.Native.String.{◌++◌}
use rust_proxy.Base.{ℕ, String, Option, none, some, [], if◌then◌else◌, Result, ok, err, not}
use rust_proxy.Base.Http.{HeaderMap, Response, send_failed, response, Http, trim_end_slashes}
use rust_proxy.NodeAgent.Server.{RegisterPayload, HeartbeatPayload}

pub record ControlPlaneClient : Type 0 where
  pub base_url : String
  pub token : Option String

unfoldable pub new : String → Option String → ControlPlaneClient
unfolding trim_end_slashes
new base_url token = record { base_url = trim_end_slashes base_url; token = token }

pub data Failed : Type 0 where
  unreachable : Failed
  refused : (status : ℕ) → Failed

module _ {W Body : Type 0} (http : Http W Body (Unit {0})) where
  unfoldable pub authed : ControlPlaneClient → HeaderMap
  authed client = elim client.token [ none ↦ [] | some t ↦ http.bearer_auth t [] ]

  -- What both requests make of the response.
  unfoldable pub accepted : Response (Unit {0}) → Result Failed (Unit {0})
  accepted send_failed = err unreachable
  accepted (response status json) =
      if not (http.is_success status) then err (refused status) else ok tt

unfoldable pub register :
    {W : Type 0}
    → Http W RegisterPayload (Unit {0})
    → ControlPlaneClient
    → RegisterPayload
    → W
    → W × Result Failed (Unit {0})
unfolding authed accepted
register http client payload w =
    let (w', resp) =
      http.post (client.base_url ++ "/nodes/register") (authed http client) payload w in
    (w', accepted http resp)

unfoldable pub heartbeat :
    {W : Type 0}
    → Http W HeartbeatPayload (Unit {0})
    → ControlPlaneClient
    → String
    → HeartbeatPayload
    → W
    → W × Result Failed (Unit {0})
unfolding authed accepted
heartbeat http client node_id payload w =
    let (w', resp) =
      http.post (((client.base_url ++ "/nodes/") ++ node_id) ++ "/heartbeat") (authed http client)
        payload w in
    (w', accepted http resp)
