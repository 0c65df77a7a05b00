-- ===== src/ControlPlane/Model.antt =====
-- crates/control-plane/src/model.rs: a node and its lifecycle state. Times are counts of nanoseconds
-- since the epoch.
use rust_proxy.Base.{
  ℕ, ◌-◌, String, Bool, true, false, Option, none, some, ◌==◌, str_eq, if◌then◌else◌, ◌≡◌, refl,
  arith, eq_iff,
}
use rust_proxy.ControlPlane.Float.{Float}

pub data NodeState : Type 0 where
  starting healthy degraded draining offline : NodeState

unfoldable pub as_str : NodeState → String
as_str starting = "starting"
as_str healthy = "healthy"
as_str degraded = "degraded"
as_str draining = "draining"
as_str offline = "offline"

unfoldable pub parse : String → Option NodeState
parse s =
    if str_eq s "starting"
    then some starting
    else if str_eq s "healthy"
    then some healthy
    else if str_eq s "degraded"
    then some degraded
    else if str_eq s "draining"
    then some draining
    else if str_eq s "offline"
    then some offline
    else none

pub parse-as_str : (s : NodeState) → parse (as_str s) ≡ some s
unfolding parse as_str
parse-as_str starting = refl
parse-as_str healthy = refl
parse-as_str degraded = refl
parse-as_str draining = refl
parse-as_str offline = refl

pub as_str-parse : (s : String) (state : NodeState) → parse s ≡ some state → s ≡ as_str state
unfolding parse as_str
as_str-parse s state h = ground (
  arith,
  eq_iff s "starting",
  eq_iff s "healthy",
  eq_iff s "degraded",
  eq_iff s "draining",
  eq_iff s "offline",
)

abbrev pub DateTime : Type 0
DateTime = ℕ

pub record Node : Type 0 where
  pub id : String
  pub address : String
  pub state : NodeState
  pub last_heartbeat : Option DateTime
  pub max_connections : ℕ
  pub active_connections : ℕ
  pub bandwidth_limit : ℕ
  pub bytes_up : ℕ
  pub bytes_down : ℕ
  pub latency_ms : ℕ
  pub created_at : DateTime
  pub updated_at : DateTime

-- The match of `is_selectable`.
unfoldable pub selectable_state : NodeState → Bool
selectable_state healthy = true
selectable_state degraded = true
selectable_state _ = false

unfoldable pub is_selectable : Node → Bool
unfolding selectable_state
is_selectable n = selectable_state n.state

-- `saturating_sub`
unfoldable pub available_capacity : Node → ℕ
available_capacity n = n.max_connections - n.active_connections

module _ (float : Float) where
  open float use {F, of_int, zero_point, one, div, clamp}

  unfoldable pub bandwidth_utilization : Node → F
  bandwidth_utilization n =
      if n.max_connections == 0
      then one
      else clamp (div (of_int n.active_connections) (of_int n.max_connections)) zero_point one
