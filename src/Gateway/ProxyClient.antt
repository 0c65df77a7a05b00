-- ===== src/Gateway/ProxyClient.antt =====
-- crates/gateway/src/proxy_client.rs: the client of the control plane. The HTTP library is a parameter.
use Prim.Native.String.{◌++◌}
use rust_proxy.Base.{String, Option, none, some, [], ◌==◌, if◌then◌else◌, Result, ok, err, not}
use rust_proxy.Base.Http.{HeaderMap, Response, send_failed, response, Http, trim_end_slashes}
use rust_proxy.Gateway.Handler.{
  GatewayError, no_node, relay_error, RemoteNode, Selection, selected, select_failed,
  select_timed_out,
}

pub record SelectResponse : Type 0 where
  pub id : String
  pub address : String

pub record ControlPlaneClient : Type 0 where
  pub base_url : String
  pub token : Option String

unfoldable pub new : String → Option String → ControlPlaneClient
unfolding trim_end_slashes
new base_url token = record { base_url = trim_end_slashes base_url; token = token }

module _ {W : Type 0} (http : Http W (Unit {0}) SelectResponse) where
  unfoldable pub authed : ControlPlaneClient → HeaderMap
  authed client = elim client.token [ none ↦ [] | some t ↦ http.bearer_auth t [] ]

  -- What the response is read as.
  unfoldable pub read_node : Response SelectResponse → Result GatewayError RemoteNode
  read_node send_failed = err relay_error
  read_node (response status json) =
      if status == 503
      then err no_node
      else if not (http.is_success status)
      then err relay_error
      else elim json [
        | none ↦ err relay_error
        | some node ↦ ok (record { id = node.id; forward_address = node.address })
      ]

  unfoldable pub select_node : ControlPlaneClient → W → W × Result GatewayError RemoteNode
  unfolding authed read_node
  select_node client w =
      let (w', resp) = http.post (client.base_url ++ "/nodes/select") (authed client) tt w in
      (w', read_node resp)

-- `timeout(dt, select_node())`, where `none` is the timeout.
abbrev pub selection : Option (Result GatewayError RemoteNode) → Selection
selection none = select_timed_out
selection (some (ok node)) = selected node
selection (some (err e)) = select_failed e
