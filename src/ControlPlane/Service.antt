-- ===== src/ControlPlane/Service.antt =====
-- crates/control-plane/src/service.rs: the operations of the control plane on the table of nodes
-- and on the bandwidth allocators. The metrics that they record change no state and are left out.
pub mod Reserve
pub mod Sweep
pub mod Beat
use Prim.Native.Nat.{Ordering}
use rust_proxy.Base.{
  ℕ, ◌+◌, ◌/◌, max, String, Bool, true, false, not, ◌&&◌, Option, none, some, List, [], ◌∷◌, ◌==◌,
  str_eq, if◌then◌else◌, ok, err,
}
use rust_proxy.Base.Int.{ℤ}
use rust_proxy.ControlPlane.Float.{Float}
use rust_proxy.ControlPlane.Model.{
  NodeState, starting, healthy, degraded, draining, offline, as_str, DateTime, Node, is_selectable,
}
use rust_proxy.ControlPlane.Health.{HealthPolicy, reclassify_after_heartbeat, is_stale}
use rust_proxy.ControlPlane.Routing as Routing
use rust_proxy.ControlPlane.Routing.{select_by, default_weights, compare_scores}
use rust_proxy.ControlPlane.Bandwidth.{BandwidthAllocator, BandwidthGuard, new, try_reserve}
use rust_proxy.ControlPlane.Registry as Registry
use rust_proxy.ControlPlane.Registry.{
  Heartbeat, RegisterRequest, Error, node_disappeared, Platform, Db, Outcome, apply_heartbeat,
  set_draining, mark_offline, set_state,
}

-- An operation on the table that may fail.
abbrev pub Op : Type 0 → Type 0
Op A = Db → Db × Outcome A

-- What follows `.await?`.
abbrev pub and_then : {A B : Type 0} → (A → Op B) → Db × Outcome A → Db × Outcome B
and_then f (db, ok a) = f a db
and_then f (db, err e) = (db, err e)

infixl 5 ◌>>=◌ ◌>>◌
abbrev pub ◌>>=◌ : {A B : Type 0} → Op A → (A → Op B) → Op B
◌>>=◌ m f db = and_then f (m db)

abbrev pub ◌>>◌ : {B : Type 0} → Op (Unit {0}) → Op B → Op B
m >> k = m >>= λ _. k

abbrev pub pure : {A : Type 0} → A → Op A
pure a db = (db, ok a)

abbrev pub fail : {A : Type 0} → Error → Op A
fail e db = (db, err e)

-- `==` on states
unfoldable pub state_eq : NodeState → NodeState → Bool
unfolding as_str
state_eq a b = str_eq (as_str a) (as_str b)

unfoldable pub register : Platform → RegisterRequest → Op Node
register p req = do
  Registry.register req
  found ← Registry.get p req.node_id
  elim found [ none ↦ fail node_disappeared | some node ↦ pure node ]

unfoldable pub list : Platform → Op (List Node)
list p = Registry.list p

unfoldable pub get : Platform → String → Op (Option Node)
get p id = Registry.get p id

unfoldable pub drain : Platform → String → Op (Option Node)
drain p id = do set_draining id; Registry.get p id

unfoldable pub adjust_active : Platform → String → ℤ → Op (Unit {0})
adjust_active p node_id delta = Registry.adjust_active p node_id delta

-- The states that the sweep may take offline.
unfoldable pub live : NodeState → Bool
live starting = true
live healthy = true
live degraded = true
live _ = false

module _ (float : Float) where
  open float use {F}

  unfoldable pub heartbeat : Platform → HealthPolicy F → Heartbeat → Op (Unit {0})
  heartbeat p policy hb = do
    current ← Registry.get p hb.node_id
    elim current [
      | none ↦ pure tt
      | some n ↦ (do
        apply_heartbeat hb
        let next =
            reclassify_after_heartbeat float n.state hb.active_connections n.max_connections policy
        if not (state_eq next n.state) then set_state hb.node_id next else pure tt
        after ← Registry.get p hb.node_id
        pure tt)
    ]

  unfoldable pub select : Platform → Op (Option Node)
  select p = do
    nodes ← Registry.list p
    pure (Routing.select float (default_weights float) (select_by is_selectable nodes))

  -- The loop over the nodes, with the count so far.
  unfoldable pub sweep : DateTime → HealthPolicy F → List Node → ℕ → Op ℕ
  sweep now policy [] marked = pure marked
  sweep now policy (node ∷ nodes) marked =
      if live node.state && is_stale float node.last_heartbeat now policy
      then mark_offline node.id >> sweep now policy nodes (marked + 1)
      else sweep now policy nodes marked

  unfoldable pub mark_stale_offline : Platform → HealthPolicy F → DateTime → Op ℕ
  unfolding sweep
  mark_stale_offline p policy now = do nodes ← Registry.list p; sweep now policy nodes 0
