-- ===== src/ControlPlane/Service/Sweep.antt =====
-- The sweep of stale nodes, `mark_stale_offline` of crates/control-plane/src/service.rs.
use rust_proxy.Base.{
  true-false, ℕ, suc, subst, ◌+◌, ◌≤◌, ◌≡◌, ◌≢◌, ◌⊎◌, refl, sym, ap, ◌∙◌, inl, inr, String, Bool,
  true, false, ◌&&◌, ◌||◌, some, List, [], ◌∷◌, map, length, All, str_eq, eq_iff, ok, Bool-cases,
  arith,
}
use rust_proxy.Base.Int.{ℤ}
use rust_proxy.ControlPlane.Float.{Float}
use rust_proxy.ControlPlane.Model.{as_str, offline, DateTime, Node}
use rust_proxy.ControlPlane.Health.{HealthPolicy, is_stale}
use rust_proxy.ControlPlane.Routing.{select_by}
use rust_proxy.ControlPlane.Registry as Registry
use rust_proxy.ControlPlane.Registry.{
  Row, Platform, Db, Outcome, update, with_status, statement, mark_offline, collect, order_by_id,
}
use rust_proxy.ControlPlane.Registry.Register.{node_of}
use rust_proxy.ControlPlane.Service.{live, sweep, mark_stale_offline}
use rust_proxy.ControlPlane.Service.Beat.{
  in_state, db_with, node_of-update, node_of-update-other, row_into_node-with_status,
}

module _ (float : Float) (p : Platform) (policy : HealthPolicy (float.F)) (now : DateTime) where
  -- The nodes that are to go offline, and whether one of them has an id.
  abbrev pub goes : Node → Bool
  goes node = live node.state && is_stale float node.last_heartbeat now policy

  pub goes_id : String → List Node → Bool
  goes_id id [] = false
  goes_id id (node ∷ nodes) = (goes node && str_eq node.id id) || goes_id id nodes

  -- The table after a sweep of `nodes` that had `marked` before.
  abbrev pub Swept : List Row → List Node → ℕ → Db × Outcome ℕ → Type 0
  Swept rows nodes marked (db, r) =
      (r ≡ ok (marked + length (select_by goes nodes)))
      × ((id : String)
          → (goes_id id nodes ≡ false → node_of p id db.rows ≡ node_of p id rows)
            × (goes_id id nodes ≡ true
                → (n : Node) → node_of p id rows ≡ ok (some n)
                → (v : DateTime) × (node_of p id db.rows ≡ ok (some (in_state offline v n)))))

  -- A time that is an instant.
  abbrev pub IsInstant : ℤ → Type 0
  IsInstant t = (u : DateTime) × (p.from_timestamp t ≡ some u)

  -- A node taken offline, in front of the others.
  Swept-next :
      (rows : List Row) (node : Node) (nodes : List Node) (marked : ℕ) (t : ℤ) (u : DateTime)
      → p.from_timestamp t ≡ some u
      → (r : Db × Outcome ℕ)
      → Swept (update node.id (with_status "offline" t) rows) nodes (marked + 1) r
      → (r.1 ≡ ok (marked + suc (length (select_by goes nodes))))
        × ((id : String)
            → ((str_eq node.id id || goes_id id nodes) ≡ false
                → node_of p id r.0.rows ≡ node_of p id rows)
              × ((str_eq node.id id || goes_id id nodes) ≡ true
                  → (n : Node) → node_of p id rows ≡ ok (some n)
                  → (v : DateTime) × (node_of p id r.0.rows ≡ ok (some (in_state offline v n)))))
  unfolding as_str
  Swept-next rows node nodes marked t u at r (count, ids) = (
    count ∙ ap ok (omega arith),
    λ id. (
      λ h.
          (ids id).0 (or-false _ _ h).1
          ∙ node_of-update-other p node.id id (with_status "offline" t) rows (λ r. refl)
              (λ e. cc-ne node.id id (or-false _ _ h).0 e),
      λ h n e. elim (Bool-cases (str_eq node.id id)) [
        | inl same ↦
            again id n (here id n ((eq_iff node.id id).0 same) e) (Bool-cases (goes_id id nodes))
        | inr other ↦ (ids id).1 (or-second _ _ other h) n (
            node_of-update-other p node.id id (with_status "offline" t) rows (λ r. refl)
              (λ e. cc-ne node.id id other e)
            ∙ e)
      ],
    ),
  )
    where
      or-false : (a b : Bool) → (a || b) ≡ false → (a ≡ false) × (b ≡ false)
      or-false true b h = cc
      or-false false b h = (refl, h)

      or-second : (a b : Bool) → a ≡ false → (a || b) ≡ true → b ≡ true
      or-second true b e h = cc
      or-second false b e h = h

      cc-ne : (a b : String) → str_eq a b ≡ false → b ≢ a
      cc-ne a b h e = true-false (sym ((eq_iff a b).1 (sym e)) ∙ h)

      here :
          (id : String) (n : Node)
          → node.id ≡ id
          → node_of p id rows ≡ ok (some n)
          → node_of p id (update node.id (with_status "offline" t) rows)
            ≡ ok (some (in_state offline u n))
      here id n same e =
          subst
            (λ z.
              node_of p z (update node.id (with_status "offline" t) rows)
              ≡ ok (some (in_state offline u n)))
            same
            (node_of-update p node.id (with_status "offline" t) rows n (in_state offline u n)
              (λ r. refl) (λ r e'. row_into_node-with_status p offline t u r n at e')
              (subst (λ z. node_of p z rows ≡ ok (some n)) (sym same) e))

      again :
          (id : String) (n : Node)
          → node_of p id (update node.id (with_status "offline" t) rows)
            ≡ ok (some (in_state offline u n))
          → (goes_id id nodes ≡ true) ⊎ (goes_id id nodes ≡ false)
          → (v : DateTime) × (node_of p id r.0.rows ≡ ok (some (in_state offline v n)))
      again id n e (inl h) = (ids id).1 h (in_state offline u n) e
      again id n e (inr h) = (u, (ids id).0 h ∙ e)

  sweep-Swept :
      (rows : List Row) (nodes : List Node) (marked : ℕ) (times : List ℤ)
      → All IsInstant times
      → length nodes ≤ length times
      → Swept rows nodes marked
          (sweep float now policy nodes marked (db_with rows (map some times)))
  unfolding sweep select_by goes_id mark_offline statement
  sweep-Swept rows [] marked times at enough = (ap ok (omega arith), λ id. (λ _. refl, λ h n e. cc))
  sweep-Swept rows (node ∷ nodes) marked [] at enough = absurd (omega arith)
  sweep-Swept rows (node ∷ nodes) marked (t ∷ times) ((u, at), ats) enough =
      elim (Bool-cases (goes node)) [
        | inr e ↦ rw e (sweep-Swept rows nodes marked (t ∷ times) ((u, at), ats) (omega arith))
        | inl e ↦ rw e (
            Swept-next rows node nodes marked t u at
              (sweep float now policy nodes (marked + 1)
                (db_with (update node.id (with_status "offline" t) rows) (map some times)))
              (sweep-Swept (update node.id (with_status "offline" t) rows) nodes (marked + 1) times
                ats (omega arith)))
      ]

  -- If the listing decodes to `nodes` and every statement succeeds, at times that are instants, the sweep
  -- returns the number of nodes that are live and stale; a node of such an id is offline afterwards and
  -- otherwise, but for the time of its update, as it was; every node of another id is unchanged.
  pub mark_stale_offline-Swept :
      (rows : List Row) (nodes : List Node) (t0 : ℤ) (times : List ℤ)
      → collect p (order_by_id p rows) ≡ ok nodes
      → All IsInstant times
      → length nodes ≤ length times
      → Swept rows nodes 0
          (mark_stale_offline float p policy now (db_with rows (some t0 ∷ map some times)))
  unfolding mark_stale_offline Registry.list statement
  mark_stale_offline-Swept rows nodes t0 times listed at enough =
      rw listed (sweep-Swept rows nodes 0 times at enough)
