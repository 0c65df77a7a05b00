-- ===== src/Network/Tests.antt =====
-- A network of one node, and the theorems of its clients at it.
use Prim.Native.String.{◌++◌}
use rust_proxy.Base.{
  ℕ, ◌*◌, ◌^◌, ◌≡◌, ◌≢◌, ◌⊎◌, refl, String, true, false, ◌&&◌, none, some, List, [], ◌∷◌, map, All,
  ok, err, str_eq, ltb, leb, if◌then◌else◌, arith,
}
use rust_proxy.Base.Int.{ℤ, pos}
use rust_proxy.Base.Http.{HeaderMap, Response, send_failed, Http, trim_end_slashes}
use rust_proxy.ControlPlane.Float.Fixed.{fixed}
use rust_proxy.ControlPlane.Model.{Node, is_selectable}
use rust_proxy.ControlPlane.Health.{HealthPolicy}
use rust_proxy.ControlPlane.Registry.{Platform, Db, find, transpose}
use rust_proxy.ControlPlane.Registry.Register.{node_of}
use rust_proxy.ControlPlane.Service.Beat.{db_with}
use rust_proxy.ControlPlane.Api.{
  Auth, Status, bad_request, unauthorized, not_found, internal, service_unavailable, respond,
  header, is_blank, is_whitespace, register_node, heartbeat_node, select_node, list_nodes,
}
use rust_proxy.ControlPlane.Server.{app_state_auth}
use rust_proxy.ControlPlane.System.{initially}
use rust_proxy.NodeAgent.Server.{
  NodeConfig, NodeStats, RegisterPayload, HeartbeatPayload, register_payload, heartbeat,
}
use rust_proxy.NodeAgent.CpClient as CpClient
use rust_proxy.Gateway.Handler.{no_node, relay_error}
use rust_proxy.Gateway.ProxyClient as ProxyClient
use rust_proxy.Gateway.ProxyClient.{SelectResponse}
use rust_proxy.Network.{
  status_code, into_response, registration, report, selection, Standard, Registers, Beats, Selects,
}
use rust_proxy.Network.Usable.{IsUsable, IsTypedStats}
use rust_proxy.Network.Reached.{node_reached}
use rust_proxy.Network.Served.{gateway_served}

abbrev platform : Platform
platform = record {
  add = λ v z. v;
  max0 = λ v. v;
  id_le = λ a b. true;
  from_timestamp = λ z. elim z [ ℤ.pos n ↦ some (n * 10 ^ 9) | ℤ.negsuc n ↦ none ];
}

abbrev policy : HealthPolicy ℕ
policy = record { offline_timeout = 30; degraded_threshold = 900 }

abbrev auth : Auth
auth = app_state_auth (some "t0ken")

-- A library whose only destination is the control plane at `http://cp`.
abbrev http :
    {Body Reply : Type 0}
    → String
    → (HeaderMap → Body → Db → Db × Response Reply)
    → Http Db Body Reply
http url exchange = record {
  post =
      λ to headers body db. if str_eq to url then exchange headers body db else (db, send_failed);
  bearer_auth = λ token headers. ("authorization", some ("Bearer " ++ token)) ∷ headers;
  is_success = λ status. leb 200 status && ltb status 300;
}

refused : (s : Status) → (leb 200 (status_code s) && ltb (status_code s) 300) ≡ false
unfolding status_code
refused bad_request = refl
refused unauthorized = refl
refused not_found = refl
refused internal = refl
refused service_unavailable = refl

http-Standard :
    {Body Reply : Type 0} (url : String) (exchange : HeaderMap → Body → Db → Db × Response Reply)
    → Standard (http url exchange)
unfolding header
http-Standard url exchange = record { presents = λ token. refl; success = refl; failure = refused }

abbrev to_register : Http Db RegisterPayload (Unit {0})
to_register = http "http://cp/nodes/register" (λ headers payload db.
    into_response (λ _. tt) (register_node platform auth headers (registration payload) db))

abbrev to_beat : Http Db HeartbeatPayload (Unit {0})
to_beat = http "http://cp/nodes/n1/heartbeat" (λ headers payload db.
    into_response (λ _. tt)
      (heartbeat_node fixed platform policy auth headers "n1" (report payload) db))

abbrev to_select : Http Db (Unit {0}) SelectResponse
to_select =
    http "http://cp/nodes/select"
      (λ headers _ db. into_response selection (select_node fixed platform db))

abbrev node_client : CpClient.ControlPlaneClient
node_client = CpClient.new "http://cp/" (some "t0ken")

abbrev gateway_client : ProxyClient.ControlPlaneClient
gateway_client = ProxyClient.new "http://cp" (some "t0ken")

registers : Registers platform auth node_client.base_url to_register
unfolding CpClient.new trim_end_slashes
registers = record { delivers = λ headers payload db. refl }

beats : Beats platform auth node_client.base_url fixed policy "n1" to_beat
unfolding CpClient.new trim_end_slashes
beats = record { delivers = λ headers payload db. refl }

selects : Selects platform auth gateway_client.base_url fixed to_select
unfolding ProxyClient.new trim_end_slashes
selects = record { delivers = λ headers db. refl }

abbrev config : NodeConfig
config = record {
  node_id = "n1";
  bind_addr = "0.0.0.0:1081";
  advertised_address = some "10.0.0.1:1081";
  bandwidth_limit = 1000;
  max_connections = 8;
}

config-IsUsable : IsUsable config
unfolding is_blank is_whitespace register_payload
config-IsUsable = record {
  id_given = refl;
  address_given = refl;
  some_connections = omega arith;
  connections_fit = omega arith;
  some_bandwidth = omega arith;
  bandwidth_fits = omega arith;
}

abbrev stats : NodeStats
stats = record { bytes_up = 5; bytes_down = 6; active_connections = 2 }

stats-IsTyped : IsTypedStats stats
stats-IsTyped = record { active_fits = omega arith; up_fits = omega arith; down_fits = omega arith }

no_row : (id : String) (m : Node) → node_of platform id [] ≢ ok (some m)
unfolding find transpose
no_row id m e = cc

node_reached_example :
    let (db1, r1) =
      CpClient.register to_register node_client
        (register_payload config)
        (db_with [] (some (pos 1) ∷ some (pos 2) ∷ [])) in
    let (db2, r2) =
      CpClient.heartbeat to_beat node_client "n1"
        (heartbeat 1000 stats).0
        (db_with db1.rows (some (pos 3) ∷ some (pos 4) ∷ some (pos 5) ∷ some (pos 6) ∷ [])) in
    let (db3, r3) =
      ProxyClient.select_node to_select gateway_client (db_with db2.rows (some (pos 7) ∷ [])) in
    (r1 ≡ ok tt)
    × (r2 ≡ ok tt)
    × (r3 ≡ ok (record { id = "n1"; forward_address = (register_payload config).address }))
node_reached_example =
    node_reached fixed platform policy (some "t0ken") "http://cp/" "http://cp" to_register to_beat
      to_select config stats [] (pos 1) (pos 2) (pos 3) (pos 4) (pos 5) (pos 6) (pos 7)
      (http-Standard "http://cp/nodes/register" _) (http-Standard "http://cp/nodes/n1/heartbeat" _)
      (http-Standard "http://cp/nodes/select" _) registers beats selects config-IsUsable
      stats-IsTyped
      (
        (10 ^ 9, refl),
        (
          (2 * 10 ^ 9, refl),
          (
            (3 * 10 ^ 9, refl),
            ((4 * 10 ^ 9, refl), ((5 * 10 ^ 9, refl), ((6 * 10 ^ 9, refl), tt))),
          ),
        ),
      )
      initially (λ m e. absurd (no_row "n1" m e)) (λ other m ne e. absurd (no_row other m e))

gateway_served_example :
    ((nodes : List Node) × ((list_nodes platform (db_with [] (some (pos 7) ∷ []))).1
        ≡ ok (map respond nodes))
      × (((ProxyClient.select_node to_select gateway_client (db_with [] (some (pos 7) ∷ []))).1
              ≡ err no_node)
            × All (λ n. is_selectable n ≡ false) nodes
          ⊎ ((n : Node) × ((ProxyClient.select_node to_select gateway_client
                  (db_with [] (some (pos 7) ∷ []))).1
                ≡ ok (record { id = n.id; forward_address = n.address }))
              × (is_selectable n ≡ true)
              × (node_of platform n.id [] ≡ ok (some n)))))
    × ((ProxyClient.select_node to_select gateway_client (db_with [] (none ∷ []))).1
        ≡ err relay_error)
gateway_served_example =
    gateway_served fixed platform policy auth gateway_client to_select [] (pos 7) []
      (http-Standard "http://cp/nodes/select" _) selects initially
