-- ===== src/ControlPlane/Health.antt =====
-- crates/control-plane/src/health.rs: how a heartbeat or its absence changes a node's state.
pub mod Classified
use rust_proxy.Base.{ℕ, ◌-◌, Bool, false, Option, none, some, ◌==◌, leb, if◌then◌else◌}
use rust_proxy.ControlPlane.Float.{Float}
use rust_proxy.ControlPlane.Model.{NodeState, healthy, degraded, draining, offline, DateTime}

pub record HealthPolicy (F : Type 0) : Type 0 where
  pub offline_timeout : ℕ
  pub degraded_threshold : F

module _ (float : Float) where
  open float use {F, of_int, one, div, ge}

  unfoldable pub utilization : ℕ → ℕ → F
  utilization active_connections max_connections =
      if max_connections == 0 then one else div (of_int active_connections) (of_int max_connections)

  unfoldable pub reclassify_after_heartbeat : NodeState → ℕ → ℕ → HealthPolicy F → NodeState
  reclassify_after_heartbeat draining active_connections max_connections policy = draining
  reclassify_after_heartbeat offline active_connections max_connections policy = offline
  reclassify_after_heartbeat _ active_connections max_connections policy =
      if ge (utilization active_connections max_connections) policy.degraded_threshold
      then degraded
      else healthy

  -- `signed_duration_since`, `to_std` and `unwrap_or(ZERO)` together are a difference that stops at 0.
  unfoldable pub is_stale : Option DateTime → DateTime → HealthPolicy F → Bool
  is_stale none now policy = false
  is_stale (some ts) now policy = leb policy.offline_timeout (now - ts)

unfoldable pub drained_complete_state : NodeState
drained_complete_state = offline
