-- ===== src/Network/Reported.antt =====
-- What a registration and a heartbeat make of the node that sends them.
use rust_proxy.Base.{
  ℕ, ◌≡◌, ◌≢◌, refl, ap, inl, inr, String, true, false, Option, some, List, ◌∷◌, ok, err,
}
use rust_proxy.Base.Int.{ℤ}
use rust_proxy.ControlPlane.Float.{Float}
use rust_proxy.ControlPlane.Model.{
  NodeState, starting, healthy, degraded, draining, offline, Node, is_selectable, selectable_state,
}
use rust_proxy.ControlPlane.Health.{HealthPolicy, reclassify_after_heartbeat}
use rust_proxy.ControlPlane.Health.Classified.{reclassify_live}
use rust_proxy.ControlPlane.Registry.{
  Row, Heartbeat, RegisterRequest, Platform, Db, Outcome, upsert,
}
use rust_proxy.ControlPlane.Registry.Register.{
  node_of, new_node, merged_node, restarted, register_lem,
}
use rust_proxy.ControlPlane.Service as Service
use rust_proxy.ControlPlane.Service.Beat.{IsTyped, db_with, beaten, in_state, heartbeat-Heard}
use rust_proxy.ControlPlane.Api.{
  Auth, HeaderMap, authorize, validate_heartbeat, is_blank, answer, heartbeat_node,
}
use rust_proxy.ControlPlane.System.{Fits, IsInstant, Reachable}
use rust_proxy.ControlPlane.System.Sound.{Reachable-Sound}
use rust_proxy.ControlPlane.System.Handlers.{named}
use rust_proxy.ControlPlane.System.Answers.{by_id}

restarted_lem : (s : NodeState) → s ≢ draining → (restarted s ≢ draining) × (restarted s ≢ offline)
restarted_lem draining ne = absurd (ne refl)
restarted_lem starting ne = (ne, λ e. cc)
restarted_lem healthy ne = (ne, λ e. cc)
restarted_lem degraded ne = (ne, λ e. cc)
restarted_lem offline ne = (λ e. cc, λ e. cc)

module _ (float : Float) (p : Platform) (policy : HealthPolicy (float.F)) where
  -- A heartbeat makes a node selectable that is neither draining nor offline.
  reported_selectable :
      (s : NodeState) (a m : ℕ)
      → s ≢ draining
      → s ≢ offline
      → selectable_state (reclassify_after_heartbeat float s a m policy) ≡ true
  unfolding selectable_state
  reported_selectable s a m ne ne' = elim (reclassify_live float policy s a m ne ne') [
    | inl (_, e) ↦ ap selectable_state e
    | inr (_, e) ↦ ap selectable_state e
  ]

  -- What is stored under the id of a registration: not draining, if it was not, and not offline.
  pub started :
      (req : RegisterRequest) (now : ℤ) (rows : List Row)
      → Fits req
      → IsInstant p now
      → Reachable p rows
      → ((m : Node) → node_of p req.node_id rows ≡ ok (some m) → m.state ≢ draining)
      → (n : Node) × (node_of p req.node_id (upsert req now rows) ≡ ok (some n))
        × (n.id ≡ req.node_id)
        × (n.address ≡ req.address)
        × (n.state ≢ draining)
        × (n.state ≢ offline)
  started req now rows fits (u, at) reached up =
      let (new, old, others) =
        register_lem p req now rows u fits.connections_fit fits.limit_fits at in
      elim (by_id p req.node_id rows (Reachable-Sound p rows reached).1) [
        | inl (_, h) ↦ (new_node req u, new h, refl, refl, (λ e. cc), (λ e. cc))
        | inr (n, h, same, v) ↦ (
          merged_node req u n,
          old n h,
          same,
          refl,
          (restarted_lem n.state (up n h)).0,
          (restarted_lem n.state (up n h)).1,
        )
      ]

  -- The heartbeat of an authorized node that is known.
  pub heard :
      (auth : Auth) (headers : HeaderMap) (id : String) (hb : Heartbeat) (n : Node)
      (rows : List Row) (t1 t2 t3 t4 : ℤ) (rest : List (Option ℤ))
      → authorize headers auth ≡ ok tt
      → is_blank id ≡ false
      → IsTyped hb
      → IsInstant p t2
      → IsInstant p t3
      → node_of p id rows ≡ ok (some n)
      → n.state ≢ draining
      → n.state ≢ offline
      → (db : Db) × (heartbeat_node float p policy auth headers id hb
            (db_with rows (some t1 ∷ some t2 ∷ some t3 ∷ some t4 ∷ rest))
          ≡ (db, ok tt))
        × (m : Node) × (node_of p id db.rows ≡ ok (some m))
        × (m.id ≡ n.id)
        × (m.address ≡ n.address)
        × (is_selectable m ≡ true)
        × ((other : String) → other ≢ id → node_of p other db.rows ≡ node_of p other rows)
  unfolding heartbeat_node validate_heartbeat is_selectable
  heard auth headers id hb n rows t1 t2 t3 t4 rest a given typed (u2, at2) (u3, at3) here up live =
      let hb' : Heartbeat = record hb { node_id = id } in
      let after =
        Service.heartbeat float p policy hb'
          (db_with rows (some t1 ∷ some t2 ∷ some t3 ∷ some t4 ∷ rest)) in
      let (e, v, stored, others) =
        (heartbeat-Heard float p policy hb' rows t1 t2 t3 t4 rest u2 u3 (named id hb typed) at2
            at3).1
          n here in
      (
        after.0,
        rw (a, given) (accepted after e),
        in_state
            (reclassify_after_heartbeat float n.state hb.active_connections n.max_connections
              policy)
            v (beaten hb' u2 n),
        stored,
        refl,
        refl,
        reported_selectable n.state hb.active_connections n.max_connections up live,
        others,
      )
    where
      accepted :
          (r : Db × Outcome (Unit {0}))
          → r.1 ≡ ok tt
          → answer {B = Unit {0}} (λ _. ok tt) r ≡ (r.0, ok tt)
      accepted (db, ok _) e = refl
      accepted (db, err x) e = cc
