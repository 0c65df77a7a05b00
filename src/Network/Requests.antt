-- ===== src/Network/Requests.antt =====
-- The requests of the clients where they are delivered, by what the handler answers.
use rust_proxy.Base.{◌≡◌, refl, ap, ◌∙◌, String, false, none, ok, err}
use rust_proxy.Base.Http.{response, Http}
use rust_proxy.ControlPlane.Float.{Float}
use rust_proxy.ControlPlane.Health.{HealthPolicy}
use rust_proxy.ControlPlane.Registry.{Platform, Db}
use rust_proxy.ControlPlane.Api.{
  Auth, Status, bad_request, unauthorized, not_found, internal, service_unavailable, NodeResponse,
  register_node, heartbeat_node, select_node,
}
use rust_proxy.NodeAgent.Server.{RegisterPayload, HeartbeatPayload}
use rust_proxy.NodeAgent.CpClient as CpClient
use rust_proxy.NodeAgent.CpClient.{accepted, authed}
use rust_proxy.Gateway.Handler.{GatewayError, no_node, relay_error}
use rust_proxy.Gateway.ProxyClient as ProxyClient
use rust_proxy.Gateway.ProxyClient.{SelectResponse, read_node}
use rust_proxy.Network.{
  status_code, into_response, registration, report, selection, Standard, Registers, Beats, Selects,
}

-- The error that an answer becomes.
abbrev pub told : Status → GatewayError
told service_unavailable = no_node
told _ = relay_error

module _ (p : Platform) (auth : Auth) where
  pub register-delivered :
      (client : CpClient.ControlPlaneClient) (http : Http Db RegisterPayload (Unit {0}))
      (payload : RegisterPayload) (db db' : Db) (n : NodeResponse)
      → Standard http
      → Registers p auth client.base_url http
      → register_node p auth (authed http client) (registration payload) db ≡ (db', ok n)
      → CpClient.register http client payload db ≡ (db', ok tt)
  unfolding CpClient.register accepted into_response
  register-delivered client http payload db db' n standard delivered e =
      ap (λ r. (r.0, accepted http r.1))
        (delivered.delivers (authed http client) payload db ∙ ap (into_response (λ _. tt)) e)
      ∙ rw standard.success refl

  module _ (float : Float) (policy : HealthPolicy (float.F)) where
    pub heartbeat-delivered :
        (client : CpClient.ControlPlaneClient) (http : Http Db HeartbeatPayload (Unit {0}))
        (id : String) (payload : HeartbeatPayload) (db db' : Db)
        → Standard http
        → Beats p auth client.base_url float policy id http
        → heartbeat_node float p policy auth (authed http client) id (report payload) db
          ≡ (db', ok tt)
        → CpClient.heartbeat http client id payload db ≡ (db', ok tt)
    unfolding CpClient.heartbeat accepted into_response
    heartbeat-delivered client http id payload db db' standard delivered e =
        ap (λ r. (r.0, accepted http r.1))
          (delivered.delivers (authed http client) payload db ∙ ap (into_response (λ _. tt)) e)
        ∙ rw standard.success refl

    pub select_node-delivered :
        (client : ProxyClient.ControlPlaneClient) (http : Http Db (Unit {0}) SelectResponse)
        (db db' : Db) (n : NodeResponse)
        → Standard http
        → Selects p auth client.base_url float http
        → select_node float p db ≡ (db', ok n)
        → ProxyClient.select_node http client db
          ≡ (db', ok (record { id = n.id; forward_address = n.address }))
    unfolding ProxyClient.select_node read_node into_response
    select_node-delivered client http db db' n standard delivered e =
        ap (λ r. (r.0, read_node http r.1))
          (delivered.delivers (ProxyClient.authed http client) db ∙ ap (into_response selection) e)
        ∙ rw standard.success refl

    pub select_node-refused :
        (client : ProxyClient.ControlPlaneClient) (http : Http Db (Unit {0}) SelectResponse)
        (db db' : Db) (status : Status)
        → Standard http
        → Selects p auth client.base_url float http
        → select_node float p db ≡ (db', err status)
        → ProxyClient.select_node http client db ≡ (db', err (told status))
    unfolding ProxyClient.select_node read_node into_response
    select_node-refused client http db db' status standard delivered e =
        ap (λ r. (r.0, read_node http r.1))
          (delivered.delivers (ProxyClient.authed http client) db ∙ ap (into_response selection) e)
        ∙ ap (λ r. (db', r)) (refused status (standard.failure status))
      where
        refused :
            (s : Status)
            → http.is_success (status_code s) ≡ false
            → read_node http (response (status_code s) none) ≡ err (told s)
        refused service_unavailable h = refl
        refused bad_request h = rw h refl
        refused unauthorized h = rw h refl
        refused not_found h = rw h refl
        refused internal h = rw h refl
