-- ===== src/Network/Reached.antt =====
-- A node that registers and reports, and the gateway that asks for one.
use rust_proxy.Base.{
  ◌≡◌, ◌≢◌, refl, sym, subst, ap, ◌∙◌, String, true, false, Option, some, List, [], ◌∷◌, All, ok,
}
use rust_proxy.Base.Int.{ℤ}
use rust_proxy.Base.Http.{Http}
use rust_proxy.ControlPlane.Float.{Float}
use rust_proxy.ControlPlane.Model.{draining, offline, Node, is_selectable}
use rust_proxy.ControlPlane.Health.{HealthPolicy}
use rust_proxy.ControlPlane.Registry.{Row, Platform, Db, upsert}
use rust_proxy.ControlPlane.Registry.Register.{node_of, register_lem}
use rust_proxy.ControlPlane.Service.Beat.{db_with}
use rust_proxy.ControlPlane.Api.{Auth, respond, from_node}
use rust_proxy.ControlPlane.Server.{app_state_auth}
use rust_proxy.ControlPlane.System.{IsInstant, Reachable, registered}
use rust_proxy.ControlPlane.System.Handlers.{heartbeat-Reachable}
use rust_proxy.ControlPlane.System.Accepted.{register_node-answer}
use rust_proxy.ControlPlane.System.Chosen.{select_node-only}
use rust_proxy.NodeAgent.Server.{
  NodeStats, NodeConfig, RegisterPayload, HeartbeatPayload, register_payload, heartbeat,
}
use rust_proxy.NodeAgent.CpClient as CpClient
use rust_proxy.Gateway.Handler.{RemoteNode}
use rust_proxy.Gateway.ProxyClient as ProxyClient
use rust_proxy.Gateway.ProxyClient.{SelectResponse}
use rust_proxy.Network.Requests.{register-delivered, heartbeat-delivered, select_node-delivered}
use rust_proxy.Network.Usable.{
  token_authorized, IsUsable, IsTypedStats, payload_valid, payload-Fits, report-IsTyped,
}
use rust_proxy.Network.Reported.{started, heard}
use rust_proxy.Network.{registration, report, Standard, Registers, Beats, Selects}

module _ (float : Float) (p : Platform) (policy : HealthPolicy (float.F)) (token : Option String)
    (node_url gateway_url : String) (to_register : Http Db RegisterPayload (Unit {0}))
    (to_beat : Http Db HeartbeatPayload (Unit {0}))
    (to_select : Http Db (Unit {0}) SelectResponse) where
  abbrev auth : Auth
  auth = app_state_auth token

  abbrev node_client : CpClient.ControlPlaneClient
  node_client = CpClient.new node_url token

  registers :
      (config : NodeConfig) (rows : List Row) (t1 t2 : ℤ)
      → Standard to_register
      → Registers p auth node_client.base_url to_register
      → IsUsable config
      → IsInstant p t1
      → Reachable p rows
      → ((m : Node) → node_of p config.node_id rows ≡ ok (some m) → m.state ≢ draining)
      → let rows1 = upsert (registration (register_payload config)) t1 rows in
        (n : Node) × (node_of p config.node_id rows1 ≡ ok (some n))
        × (n.id ≡ config.node_id)
        × (n.address ≡ (register_payload config).address)
        × (n.state ≢ draining)
        × (n.state ≢ offline)
        × (CpClient.register to_register node_client
              (register_payload config)
              (db_with rows (some t1 ∷ some t2 ∷ []))
            ≡ (db_with rows1 [], ok tt))
        × Reachable p rows1
        × ((other : String) → other ≢ config.node_id → node_of p other rows1 ≡ node_of p other rows)
  unfolding CpClient.new CpClient.authed register_payload
  registers config rows t1 t2 sr dr u at1 reached up =
      let req = registration (register_payload config) in
      let fits = payload-Fits config u in
      let valid = payload_valid config u in
      let (n, stored, same, address, moving, live) =
        started float p policy req t1 rows fits at1 reached up in
      (
        n,
        stored,
        same,
        address,
        moving,
        live,
        register-delivered p auth node_client to_register (register_payload config)
            (db_with rows (some t1 ∷ some t2 ∷ [])) (db_with (upsert req t1 rows) []) (respond n) sr
            dr
            (register_node-answer p auth (CpClient.authed to_register node_client) rows [] req t1 t2
              n (token_authorized to_register.bearer_auth sr.presents token) valid stored),
        registered req t1 rows valid fits at1 reached,
        (register_lem p req t1 rows at1.0 fits.connections_fit fits.limit_fits at1.1).2,
      )

  reports :
      (config : NodeConfig) (stats : NodeStats) (n : Node) (rows : List Row) (t3 t4 t5 t6 : ℤ)
      → Standard to_beat
      → Beats p auth node_client.base_url float policy config.node_id to_beat
      → IsUsable config
      → IsTypedStats stats
      → All (IsInstant p) (t3 ∷ t4 ∷ t5 ∷ t6 ∷ [])
      → Reachable p rows
      → node_of p config.node_id rows ≡ ok (some n)
      → n.state ≢ draining
      → n.state ≢ offline
      → (db : Db) × (CpClient.heartbeat to_beat node_client config.node_id
            (heartbeat config.bandwidth_limit stats).0
            (db_with rows (some t3 ∷ some t4 ∷ some t5 ∷ some t6 ∷ []))
          ≡ (db, ok tt))
        × Reachable p db.rows
        × (m : Node) × (node_of p config.node_id db.rows ≡ ok (some m))
        × (m.id ≡ n.id)
        × (m.address ≡ n.address)
        × (is_selectable m ≡ true)
        × ((other : String)
            → other ≢ config.node_id
            → node_of p other db.rows ≡ node_of p other rows)
  unfolding CpClient.new CpClient.authed
  reports config stats n rows t3 t4 t5 t6 sb db u ts (at3, (at4, (at5, at6))) reached stored moving
        live =
      let payload = (heartbeat config.bandwidth_limit stats).0 in
      let schedule = some t3 ∷ some t4 ∷ some t5 ∷ some t6 ∷ [] in
      let headers = CpClient.authed to_beat node_client in
      let typed = report-IsTyped config.bandwidth_limit stats ts in
      let (after, answered, m, stored', same, address, able, others) =
        heard float p policy auth headers config.node_id (report payload) n rows t3 t4 t5 t6 []
          (token_authorized to_beat.bearer_auth sb.presents token) u.id_given typed at4 at5 stored
          moving live in
      (
        after,
        heartbeat-delivered p auth float policy node_client to_beat config.node_id payload
            (db_with rows schedule) after sb db answered,
        subst (λ r. Reachable p r.0.rows) answered
            (heartbeat-Reachable p float policy auth headers config.node_id (report payload)
              (db_with rows schedule) typed reached (at3, (at4, (at5, at6)))),
        m,
        stored',
        same,
        address,
        able,
        others,
      )

  -- The control plane, the node and the gateway have one token, or none, and requests are delivered, by an
  -- HTTP library that presents the token and tells success from failure. If a usable configuration's
  -- node registers and then sends a heartbeat with statistics that fit their types, on a reachable table
  -- where it is not draining and no other node is selectable, and the statements of each request succeed,
  -- those of the node's requests at instants, then both requests are accepted, and the gateway that asks
  -- for a node next gets this one, with the address that it advertises.
  pub node_reached :
      (config : NodeConfig) (stats : NodeStats) (rows : List Row) (t1 t2 t3 t4 t5 t6 t7 : ℤ)
      → Standard to_register
      → Standard to_beat
      → Standard to_select
      → let auth = app_state_auth token in
        let node_client = CpClient.new node_url token in
        let gateway_client = ProxyClient.new gateway_url token in
        let payload = register_payload config in
        Registers p auth node_client.base_url to_register
        → Beats p auth node_client.base_url float policy config.node_id to_beat
        → Selects p auth gateway_client.base_url float to_select
        → IsUsable config
        → IsTypedStats stats
        → All (IsInstant p) (t1 ∷ t2 ∷ t3 ∷ t4 ∷ t5 ∷ t6 ∷ [])
        → Reachable p rows
        → ((m : Node) → node_of p config.node_id rows ≡ ok (some m) → m.state ≢ draining)
        → ((other : String) (m : Node)
            → other ≢ config.node_id
            → node_of p other rows ≡ ok (some m)
            → is_selectable m ≡ false)
        → let (db1, r1) =
            CpClient.register to_register node_client payload
              (db_with rows (some t1 ∷ some t2 ∷ [])) in
          let (db2, r2) =
            CpClient.heartbeat to_beat node_client config.node_id
              (heartbeat config.bandwidth_limit stats).0
              (db_with db1.rows (some t3 ∷ some t4 ∷ some t5 ∷ some t6 ∷ [])) in
          let (db3, r3) =
            ProxyClient.select_node to_select gateway_client (db_with db2.rows (some t7 ∷ [])) in
          (r1 ≡ ok tt)
          × (r2 ≡ ok tt)
          × (r3 ≡ ok (record { id = config.node_id; forward_address = payload.address }))
  unfolding CpClient.new ProxyClient.new from_node
  node_reached config stats rows t1 t2 t3 t4 t5 t6 t7 sr sb ss dr db ds u ts (at1, (_, at3)) reached
        up only =
      let (n, stored, same, address, moving, live, e1, reached1, others1) =
        registers config rows t1 t2 sr dr u at1 reached up in
      let rows1 = upsert (registration (register_payload config)) t1 rows in
      let (after, e2, reached2, m, stored', same', address', able, others2) =
        reports config stats n rows1 t3 t4 t5 t6 sb db u ts at3 reached1 stored moving live in
      let e3 =
        select_node-delivered p auth float policy (ProxyClient.new gateway_url token) to_select
          (db_with after.rows (some t7 ∷ [])) (db_with after.rows []) (respond m) ss ds
          (select_node-only p float config.node_id m after.rows t7 [] reached2 stored' able
            (λ other k ne h. only other k ne (sym (others2 other ne ∙ others1 other ne) ∙ h))) in
      rw (e1, e2, e3)
        (refl, refl, ap (λ k. ok k) (remote m.id m.address _ _ (same' ∙ same) (address' ∙ address)))
    where
      remote :
          (a b c d : String)
          → a ≡ c
          → b ≡ d
          → ◌≡◌ {A = RemoteNode}
              (record { id = a; forward_address = b })
              (record { id = c; forward_address = d })
      remote a b c d e f = cc
