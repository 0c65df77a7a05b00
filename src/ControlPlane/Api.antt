-- ===== src/ControlPlane/Api.antt =====
-- crates/control-plane/src/api.rs: the handlers of the HTTP interface, after axum has parsed the path
-- and the body. Messages are left out; an error is its status.
pub mod Guard
use Prim.Native.Char.{Char, code}
use Prim.Native.String.{len, slice}
use text.Mathlib.Text.{starts_with}
use rust_proxy.Base.{
  ℕ, String, Bool, true, false, ◌&&◌, ◌||◌, Option, none, some, List, [], ◌∷◌, map, ◌==◌, leb,
  str_eq, if◌then◌else◌, Result, ok, err,
}
pub use rust_proxy.Base.Http.{HeaderMap}
use rust_proxy.ControlPlane.Float.{Float}
use rust_proxy.ControlPlane.Model.{NodeState, DateTime, Node}
use rust_proxy.ControlPlane.Health.{HealthPolicy}
use rust_proxy.ControlPlane.Registry.{Heartbeat, RegisterRequest, Error, Platform, Db, Outcome}
use rust_proxy.ControlPlane.Service as Service

pub data Auth : Type 0 where
  no_auth : Auth
  bearer : (expected : String) → Auth

pub data Status : Type 0 where
  bad_request unauthorized not_found internal service_unavailable : Status

unfoldable pub header : HeaderMap → String → Option (Option String)
header [] name = none
header ((k, v) ∷ rest) name =
    let found = header rest name in if str_eq k name then some v else found

-- `strip_prefix`
unfoldable pub strip_prefix : String → String → Option String
strip_prefix s prefix = if starts_with s prefix then some (slice s (len prefix) (len s)) else none

unfoldable pub provided : HeaderMap → Option String
unfolding header strip_prefix
provided headers = elim (header headers "authorization") [
  | some (some v) ↦ strip_prefix v "Bearer "
  | _ ↦ none
]

unfoldable pub authorize : HeaderMap → Auth → Result Status (Unit {0})
unfolding provided
authorize headers no_auth = ok tt
authorize headers (bearer expected) = elim (provided headers) [
  | none ↦ err unauthorized
  | some token ↦ if str_eq token expected then ok tt else err unauthorized
]

-- `char::is_whitespace`
unfoldable pub is_whitespace : Char → Bool
is_whitespace c =
    (leb 0x09 (code c) && leb (code c) 0x0D)
    || code c == 0x20
    || code c == 0x85
    || code c == 0xA0
    || code c == 0x1680
    || (leb 0x2000 (code c) && leb (code c) 0x200A)
    || code c == 0x2028
    || code c == 0x2029
    || code c == 0x202F
    || code c == 0x205F
    || code c == 0x3000

-- `s.trim().is_empty()`
unfoldable pub is_blank : String → Bool
unfolding is_whitespace
is_blank Prim.Native.String.[] = true
is_blank (Prim.Native.String.◌∷◌ c s) = is_whitespace c && is_blank s

unfoldable pub validate_register : RegisterRequest → Result Status (Unit {0})
unfolding is_blank
validate_register req =
    if is_blank req.node_id
    then err bad_request
    else if is_blank req.address
    then err bad_request
    else if req.max_connections == 0
    then err bad_request
    else if req.bandwidth_limit == 0
    then err bad_request
    else ok tt

unfoldable pub validate_heartbeat : Heartbeat → Result Status (Unit {0})
unfolding is_blank
validate_heartbeat hb = if is_blank hb.node_id then err bad_request else ok tt

pub record NodeResponse : Type 0 where
  pub id : String
  pub address : String
  pub state : NodeState
  pub last_heartbeat : Option DateTime
  pub max_connections : ℕ
  pub active_connections : ℕ
  pub bandwidth_limit : ℕ
  pub available_bandwidth : ℕ
  pub bytes_up : ℕ
  pub bytes_down : ℕ
  pub latency_ms : ℕ

unfoldable pub from_node : Node → ℕ → NodeResponse
from_node n available_bandwidth = record {
  id = n.id;
  address = n.address;
  state = n.state;
  last_heartbeat = n.last_heartbeat;
  max_connections = n.max_connections;
  active_connections = n.active_connections;
  bandwidth_limit = n.bandwidth_limit;
  available_bandwidth = available_bandwidth;
  bytes_up = n.bytes_up;
  bytes_down = n.bytes_down;
  latency_ms = n.latency_ms;
}

abbrev pub respond : Node → NodeResponse
respond n = from_node n n.bandwidth_limit

-- A handler on the table.
abbrev pub Handler : Type 0 → Type 0
Handler A = Db → Db × Result Status A

-- `?` on a test that does not touch the table.
abbrev pub guarded : {A : Type 0} → Result Status (Unit {0}) → Handler A → Handler A
guarded (ok _) h db = h db
guarded (err s) h db = (db, err s)

-- The service's result as an answer: `map_err(internal)`, and then the handler's own reading of it.
abbrev pub answer : {A B : Type 0} → (A → Result Status B) → Db × Outcome A → Db × Result Status B
answer f (db, ok a) = (db, f a)
answer f (db, err e) = (db, err internal)

-- `ok_or_else`, for a node that is not there.
abbrev pub node_or : Status → Option Node → Result Status NodeResponse
node_or status none = err status
node_or status (some n) = ok (respond n)

unfoldable pub health : Platform → Handler (Unit {0})
health p db = answer (λ _. ok tt) (Service.list p db)

unfoldable pub list_nodes : Platform → Handler (List NodeResponse)
unfolding from_node
list_nodes p db = answer (λ nodes. ok (map respond nodes)) (Service.list p db)

unfoldable pub get_node : Platform → String → Handler NodeResponse
unfolding from_node
get_node p id db = answer (node_or not_found) (Service.get p id db)

unfoldable pub register_node : Platform → Auth → HeaderMap → RegisterRequest → Handler NodeResponse
unfolding from_node
register_node p auth headers req = guarded (authorize headers auth) (
    guarded (validate_register req)
      (λ db. answer (λ n. ok (respond n)) (Service.register p req db)))

unfoldable pub drain_node : Platform → Auth → HeaderMap → String → Handler NodeResponse
unfolding from_node
drain_node p auth headers id =
    guarded (authorize headers auth) (λ db. answer (node_or not_found) (Service.drain p id db))

module _ (float : Float) where
  unfoldable pub select_node : Platform → Handler NodeResponse
  unfolding from_node
  select_node p db = answer (node_or service_unavailable) (Service.select float p db)

  unfoldable pub heartbeat_node :
      Platform → HealthPolicy (float.F) → Auth → HeaderMap → String → Heartbeat → Handler (Unit {0})
  heartbeat_node p policy auth headers id body =
      let hb : Heartbeat = record body { node_id = id } in
      guarded (authorize headers auth) (
        guarded (validate_heartbeat hb)
          (λ db. answer (λ _. ok tt) (Service.heartbeat float p policy hb db)))
