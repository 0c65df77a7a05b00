-- ===== src/ControlPlane/Server.antt =====
-- crates/control-plane/src/server.rs: the policy of the interface, and the task that sweeps.
use rust_proxy.Base.{String, not, Option, none, some, List, [], ◌∷◌, str_eq, if◌then◌else◌}
use rust_proxy.ControlPlane.Float.{Float}
use rust_proxy.ControlPlane.Model.{DateTime}
use rust_proxy.ControlPlane.Health.{HealthPolicy}
use rust_proxy.ControlPlane.Registry.{Platform, Db}
use rust_proxy.ControlPlane.Service.{mark_stale_offline}
use rust_proxy.ControlPlane.Api.{Auth, no_auth, bearer}

-- The `auth` of `app_state`.
unfoldable pub app_state_auth : Option String → Auth
app_state_auth (some token) = if not (str_eq token "") then bearer token else no_auth
app_state_auth none = no_auth

-- The branch that a turn of the loop takes, with the time of the clock at a tick.
pub data Turn : Type 0 where
  cancelled : Turn
  ticked : DateTime → Turn

-- The loop, turn by turn. A sweep that fails is only logged.
unfoldable pub health_sweep :
    (float : Float) → Platform → HealthPolicy (float.F) → List Turn → Db → Db
health_sweep float p policy [] db = db
health_sweep float p policy (cancelled ∷ turns) db = db
health_sweep float p policy (ticked now ∷ turns) db =
    health_sweep float p policy turns (mark_stale_offline float p policy now db).0
