-- ===== src/ControlPlane/System/Accepted.antt =====
-- What the handlers that write answer on a reachable table.
use rust_proxy.Base.{
  ◌≡◌, ◌⊎◌, refl, ap, ◌∙◌, inl, inr, String, false, Option, none, some, List, ◌∷◌, ok, err,
}
use rust_proxy.Base.Int.{ℤ}
use rust_proxy.ControlPlane.Float.{Float}
use rust_proxy.ControlPlane.Model.{draining, as_str, Node}
use rust_proxy.ControlPlane.Health.{HealthPolicy}
use rust_proxy.ControlPlane.Registry as Registry
use rust_proxy.ControlPlane.Registry.{
  Row, Heartbeat, RegisterRequest, Platform, Db, Outcome, statement, find, update, upsert,
  transpose, set_draining, with_status,
}
use rust_proxy.ControlPlane.Registry.Rows.{find-update}
use rust_proxy.ControlPlane.Registry.Register.{node_of, new_node, merged_node, register_lem}
use rust_proxy.ControlPlane.Service as Service
use rust_proxy.ControlPlane.Service.Beat.{
  IsTyped, db_with, in_state, node_of-update, row_into_node-with_status, heartbeat-Heard,
}
use rust_proxy.ControlPlane.Api.{
  Auth, not_found, HeaderMap, authorize, is_blank, validate_register, validate_heartbeat, node_or,
  respond, answer, register_node, heartbeat_node, drain_node,
}
use rust_proxy.ControlPlane.System.{Fits, IsInstant, Reachable}
use rust_proxy.ControlPlane.System.Sound.{Reachable-Sound}
use rust_proxy.ControlPlane.System.Handlers.{named}
use rust_proxy.ControlPlane.System.Answers.{by_id}

module _ (p : Platform) where
  -- What is stored under the id of a registration.
  stored :
      (req : RegisterRequest) (now : ℤ) (rows : List Row)
      → Fits req
      → IsInstant p now
      → Reachable p rows
      → (n : Node) × (node_of p req.node_id (upsert req now rows) ≡ ok (some n))
        × (n.id ≡ req.node_id)
        × (n.address ≡ req.address)
        × (n.max_connections ≡ req.max_connections)
        × (n.bandwidth_limit ≡ req.bandwidth_limit)
  stored req now rows fits (u, at) reached =
      let (new, old, others) =
        register_lem p req now rows u fits.connections_fit fits.limit_fits at in
      elim (by_id p req.node_id rows (Reachable-Sound p rows reached).1) [
        | inl (_, h) ↦ (new_node req u, new h, refl, refl, refl, refl)
        | inr (n, h, same, v) ↦ (merged_node req u n, old n h, same, refl, refl, refl)
      ]

  -- What is stored under an id after a drain.
  drained :
      (id : String) (now : ℤ) (rows : List Row)
      → IsInstant p now
      → Reachable p rows
      → let rows' = update id (with_status "draining" now) rows in
        ((find id rows ≡ none) × (node_of p id rows' ≡ ok none))
        ⊎ ((n : Node) × (node_of p id rows' ≡ ok (some n)) × (n.state ≡ draining) × (n.id ≡ id))
  unfolding as_str transpose
  drained id now rows (u, at) reached = elim (by_id p id rows (Reachable-Sound p rows reached).1) [
    | inl (e, h) ↦ inl (
      e,
      ap (transpose p) (
          find-update id (with_status "draining" now) rows (λ r. refl)
          ∙ ap
              (λ o. elim o as (λ _. Option Row) [
                | none ↦ none
                | some r ↦ some (with_status "draining" now r)
              ])
              e),
    )
    | inr (n, h, same, v) ↦ inr (
      in_state draining u n,
      node_of-update p id (with_status "draining" now) rows n (in_state draining u n) (λ r. refl)
          (λ r e. row_into_node-with_status p draining now u r n at e) h,
      refl,
      same,
    )
  ]

  module _ (auth : Auth) (headers : HeaderMap) (rows : List Row) (rest : List (Option ℤ)) where
    pub register_node-answer :
        (req : RegisterRequest) (t1 t2 : ℤ) (n : Node)
        → authorize headers auth ≡ ok tt
        → validate_register req ≡ ok tt
        → node_of p req.node_id (upsert req t1 rows) ≡ ok (some n)
        → register_node p auth headers req (db_with rows (some t1 ∷ some t2 ∷ rest))
          ≡ (db_with (upsert req t1 rows) rest, ok (respond n))
    unfolding register_node Service.register Registry.register Registry.get statement
    register_node-answer req t1 t2 n a v e = rw (a, v, e) refl

    drain_node-answer :
        (id : String) (t1 t2 : ℤ) (found : Option Node)
        → authorize headers auth ≡ ok tt
        → node_of p id (update id (with_status "draining" t1) rows) ≡ ok found
        → (drain_node p auth headers id (db_with rows (some t1 ∷ some t2 ∷ rest))).1
          ≡ node_or not_found found
    unfolding drain_node Service.drain Registry.get set_draining statement
    drain_node-answer id t1 t2 found a e = rw (a, e) refl

  module _ (float : Float) (policy : HealthPolicy (float.F)) where
    heartbeat_ok :
        (hb : Heartbeat) (rows : List Row) (t1 t2 t3 t4 : ℤ) (rest : List (Option ℤ))
        → IsTyped hb
        → IsInstant p t2
        → IsInstant p t3
        → Reachable p rows
        → (Service.heartbeat float p policy hb
            (db_with rows (some t1 ∷ some t2 ∷ some t3 ∷ some t4 ∷ rest))).1
          ≡ ok tt
    heartbeat_ok hb rows t1 t2 t3 t4 rest typed (u2, at2) (u3, at3) reached =
        let (unknown, known) =
          heartbeat-Heard float p policy hb rows t1 t2 t3 t4 rest u2 u3 typed at2 at3 in
        elim (by_id p hb.node_id rows (Reachable-Sound p rows reached).1) [
          | inl (_, h) ↦ (unknown h).1
          | inr (n, h, same, v) ↦ (known n h).0
        ]

    heartbeat_node-answer :
        (auth : Auth) (headers : HeaderMap) (id : String) (hb : Heartbeat) (rows : List Row)
        (schedule : List (Option ℤ))
        → authorize headers auth ≡ ok tt
        → is_blank id ≡ false
        → (Service.heartbeat float p policy (record hb { node_id = id }) (db_with rows schedule)).1
          ≡ ok tt
        → (heartbeat_node float p policy auth headers id hb (db_with rows schedule)).1 ≡ ok tt
    unfolding heartbeat_node validate_heartbeat
    heartbeat_node-answer auth headers id hb rows schedule a b h =
        rw (a, b)
          (ok_answer
            (Service.heartbeat float p policy (record hb { node_id = id }) (db_with rows schedule))
            h)
      where
        ok_answer :
            (r : Db × Outcome (Unit {0}))
            → r.1 ≡ ok tt
            → (answer {B = Unit {0}} (λ _. ok tt) r).1 ≡ ok tt
        ok_answer (db, ok _) h = refl
        ok_answer (db, err e) h = cc

    -- On a reachable table, an authorized request that passes validation and whose statements succeed,
    -- at instants where they store one, is never answered by an internal error: a registration is answered by
    -- the node of its id, with the address and the limits that it gives; a heartbeat is accepted, for an
    -- unknown id too; and a drain is answered by the node of the id, which is draining, or by not_found
    -- where no row has the id.
    pub writes_answered :
        (auth : Auth) (headers : HeaderMap) (req : RegisterRequest) (hb : Heartbeat) (id : String)
        (rows : List Row) (t1 t2 t3 t4 : ℤ) (rest : List (Option ℤ))
        → Reachable p rows
        → authorize headers auth ≡ ok tt
        → validate_register req ≡ ok tt
        → Fits req
        → IsTyped hb
        → is_blank id ≡ false
        → IsInstant p t1
        → IsInstant p t2
        → IsInstant p t3
        → let db = db_with rows (some t1 ∷ some t2 ∷ some t3 ∷ some t4 ∷ rest) in
          ((n : Node) × ((register_node p auth headers req db).1 ≡ ok (respond n))
            × (n.id ≡ req.node_id)
            × (n.address ≡ req.address)
            × (n.max_connections ≡ req.max_connections)
            × (n.bandwidth_limit ≡ req.bandwidth_limit))
          × ((heartbeat_node float p policy auth headers id hb db).1 ≡ ok tt)
          × (((drain_node p auth headers id db).1 ≡ err not_found) × (find id rows ≡ none)
              ⊎ ((n : Node) × ((drain_node p auth headers id db).1 ≡ ok (respond n))
                  × (n.state ≡ draining)
                  × (n.id ≡ id)))
    writes_answered auth headers req hb id rows t1 t2 t3 t4 rest reached a v fits typed b at1 at2
          at3 =
        let later = some t3 ∷ some t4 ∷ rest in
        let (n, e, same, address, connections, limit) = stored req t1 rows fits at1 reached in
        (
          (
            n,
            ap (λ z. z.1) (register_node-answer auth headers rows later req t1 t2 n a v e),
            same,
            address,
            connections,
            limit,
          ),
          heartbeat_node-answer auth headers id hb rows (some t1 ∷ some t2 ∷ later) a b (
              heartbeat_ok (record hb { node_id = id }) rows t1 t2 t3 t4 rest (named id hb typed)
                at2 at3 reached),
          elim (drained id t1 rows at1 reached) [
            | inl (e', h) ↦ inl (drain_node-answer auth headers rows later id t1 t2 none a h, e')
            | inr (m, h, state, same) ↦
                inr
                  (m, drain_node-answer auth headers rows later id t1 t2 (some m) a h, state, same)
          ],
        )
