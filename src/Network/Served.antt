-- ===== src/Network/Served.antt =====
-- What the gateway makes of the control plane's answers.
use rust_proxy.Base.{
  ◌≡◌, ◌⊎◌, refl, ap, ◌∙◌, inl, inr, true, false, Option, none, some, List, ◌∷◌, map, All, ok, err,
}
use rust_proxy.Base.Int.{ℤ}
use rust_proxy.Base.Http.{Http}
use rust_proxy.ControlPlane.Float.{Float}
use rust_proxy.ControlPlane.Model.{Node, is_selectable}
use rust_proxy.ControlPlane.Health.{HealthPolicy}
use rust_proxy.ControlPlane.Registry as Registry
use rust_proxy.ControlPlane.Registry.{Row, Platform, Db, statement}
use rust_proxy.ControlPlane.Registry.Register.{node_of}
use rust_proxy.ControlPlane.Service as Service
use rust_proxy.ControlPlane.Service.Beat.{db_with}
use rust_proxy.ControlPlane.Api.{
  Auth, internal, service_unavailable, respond, node_or, from_node, list_nodes, select_node,
}
use rust_proxy.ControlPlane.System.{Reachable}
use rust_proxy.ControlPlane.System.Sound.{Reachable-Sound}
use rust_proxy.ControlPlane.System.Answers.{
  Listed, listed_lem, selected-All, select_node-answer, list_nodes-answer,
}
use rust_proxy.Gateway.Handler.{no_node, relay_error}
use rust_proxy.Gateway.ProxyClient as ProxyClient
use rust_proxy.Gateway.ProxyClient.{SelectResponse}
use rust_proxy.Network.{Standard, Selects}
use rust_proxy.Network.Requests.{select_node-delivered, select_node-refused}

module _ (float : Float) (p : Platform) (policy : HealthPolicy (float.F)) (auth : Auth)
    (client : ProxyClient.ControlPlaneClient) (http : Http Db (Unit {0}) SelectResponse)
    (rows : List Row) where
  selection_failed :
      (rest : List (Option ℤ))
      → select_node float p (db_with rows (none ∷ rest)) ≡ (db_with rows rest, err internal)
  unfolding select_node Service.select Registry.list statement
  selection_failed rest = refl

  -- If requests are delivered to a control plane with a reachable table, by an HTTP library that tells
  -- success from failure: where the statement succeeds, the gateway gets the id and the address of a
  -- selectable node that the table has, or the error that there is no node, and then no node of the listing
  -- is selectable; where the statement fails, it gets the relay error, never that there is no node.
  pub gateway_served :
      (now : ℤ) (rest : List (Option ℤ))
      → Standard http
      → Selects p auth client.base_url float http
      → Reachable p rows
      → ((nodes : List Node) × ((list_nodes p (db_with rows (some now ∷ rest))).1
            ≡ ok (map respond nodes))
          × (((ProxyClient.select_node http client (db_with rows (some now ∷ rest))).1
                  ≡ err no_node)
                × All (λ n. is_selectable n ≡ false) nodes
              ⊎ ((n : Node) × ((ProxyClient.select_node http client
                      (db_with rows (some now ∷ rest))).1
                    ≡ ok (record { id = n.id; forward_address = n.address }))
                  × (is_selectable n ≡ true)
                  × (node_of p n.id rows ≡ ok (some n)))))
        × ((ProxyClient.select_node http client (db_with rows (none ∷ rest))).1 ≡ err relay_error)
  unfolding from_node
  gateway_served now rest standard delivered reached =
      let (nodes, e, len, all) = listed_lem p rows (Reachable-Sound p rows reached) in
      let answer = select_node-answer p float rows now rest nodes e in
      let db = db_with rows (some now ∷ rest) in
      let after = db_with rows rest in
      (
        (
          nodes,
          list_nodes-answer p float rows now rest nodes e,
          elim (selected-All p float (Listed p rows) nodes all) [
            | inl (chosen, unable) ↦ inl (
              ap (λ r. r.1)
                  (select_node-refused p auth float policy client http db after service_unavailable
                    standard delivered
                    (answer ∙ ap (λ o. (after, node_or service_unavailable o)) chosen)),
              unable,
            )
            | inr (n, chosen, (listed, _), able) ↦ inr (
              n,
              ap (λ r. r.1)
                  (select_node-delivered p auth float policy client http db after (respond n)
                    standard delivered
                    (answer ∙ ap (λ o. (after, node_or service_unavailable o)) chosen)),
              able,
              listed,
            )
          ],
        ),
        ap (λ r. r.1)
            (select_node-refused p auth float policy client http (db_with rows (none ∷ rest)) after
              internal standard delivered (selection_failed rest)),
      )
