-- ===== src/ControlPlane/System.antt =====
-- The table of nodes as the whole crate changes it: crates/control-plane/src/api.rs lets only checked
-- requests through to the statements of crates/control-plane/src/registry.rs, and the sweep of
-- crates/control-plane/src/service.rs marks nodes offline. Handlers run at once, so a step is one
-- statement, whoever sends it. `adjust_active` and `accumulate_bytes` are called nowhere.
pub mod Sound
pub mod Handlers
pub mod Answers
pub mod Accepted
pub mod Chosen
pub mod Apart
pub mod Reserved
mod Tests
use rust_proxy.Base.{ℕ, ◌^◌, ◌<◌, ◌≡◌, String, Option, none, some, List, [], All, ok}
use rust_proxy.Base.Int.{ℤ}
use rust_proxy.ControlPlane.Model.{NodeState, as_str, DateTime}
use rust_proxy.ControlPlane.Registry.{
  Row, Heartbeat, RegisterRequest, Platform, update, upsert, heartbeat_row, with_status,
}
use rust_proxy.ControlPlane.Service.Beat.{IsTyped}
use rust_proxy.ControlPlane.Api.{validate_register}

-- The numbers of a registration fit their Rust types.
pub record Fits (req : RegisterRequest) : Type 0 where
  pub connections_fit : req.max_connections < 2 ^ 32
  pub limit_fits : req.bandwidth_limit < 2 ^ 64

module _ (p : Platform) where
  -- A time of the clock that is an instant.
  abbrev pub IsInstant : ℤ → Type 0
  IsInstant t = (u : DateTime) × (p.from_timestamp t ≡ some u)

  -- The statements to come are at instants where they do not fail.
  abbrev pub TimelyAt : Option ℤ → Type 0
  TimelyAt none = Unit
  TimelyAt (some t) = IsInstant t

  abbrev pub Timely : List (Option ℤ) → Type 0
  Timely schedule = All TimelyAt schedule

  -- A table after a number of statements.
  pub data Reachable : List Row → Type 0 where
    initially : Reachable []
    registered :
        (req : RegisterRequest) (now : ℤ) (rows : List Row)
        → validate_register req ≡ ok tt
        → Fits req
        → IsInstant now
        → Reachable rows
        → Reachable (upsert req now rows)
    beat :
        (hb : Heartbeat) (now : ℤ) (rows : List Row)
        → IsTyped hb
        → IsInstant now
        → Reachable rows
        → Reachable (update hb.node_id (heartbeat_row hb now) rows)
    moved :
        (id : String) (s : NodeState) (now : ℤ) (rows : List Row)
        → IsInstant now
        → Reachable rows
        → Reachable (update id (with_status (as_str s) now) rows)
