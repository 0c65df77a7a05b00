-- ===== src/Network/Usable.antt =====
-- What makes the control plane accept the node's requests: its configuration and its token.
use Prim.Native.String.{◌++◌}
use rust_proxy.Base.{
  ℕ, ◌%◌, ◌^◌, ◌≤◌, ◌<◌, ◌≡◌, refl, inl, inr, String, Bool, false, Option, none, some, [], ◌==◌,
  str_eq, if◌then◌else◌, Result, ok, err, Bool-cases, arith,
}
use rust_proxy.ControlPlane.Service.Beat.{IsTyped}
use rust_proxy.ControlPlane.Api.{
  Status, bad_request, HeaderMap, authorize, validate_register, is_blank, header,
}
use rust_proxy.ControlPlane.Api.Guard.{authorize-Presents}
use rust_proxy.ControlPlane.Server.{app_state_auth}
use rust_proxy.ControlPlane.System.{Fits}
use rust_proxy.NodeAgent.Server.{
  NodeStats, NodeConfig, register_payload, heartbeat, snapshot_and_reset,
}
use rust_proxy.Network.{registration, report}

-- A client with the token that the control plane is configured with is authorized.
pub token_authorized :
    (bearer_auth : String → HeaderMap → HeaderMap)
    → ((token : String)
        → header (bearer_auth token []) "authorization" ≡ some (some ("Bearer " ++ token)))
    → (token : Option String)
    → authorize
        (elim token as (λ _. HeaderMap) [ none ↦ [] | some t ↦ bearer_auth t [] ])
        (app_state_auth token)
      ≡ ok tt
unfolding app_state_auth authorize
token_authorized bearer_auth presents none = refl
token_authorized bearer_auth presents (some t) = elim (Bool-cases (str_eq t "")) [
  | inl e ↦ rw e refl
  | inr e ↦ rw e (authorize-Presents (bearer_auth t []) t (presents t))
]

-- What a configuration needs for the control plane to accept the node.
pub record IsUsable (config : NodeConfig) : Type 0 where
  pub id_given : is_blank config.node_id ≡ false
  pub address_given : is_blank (register_payload config).address ≡ false
  pub some_connections : 1 ≤ config.max_connections
  pub connections_fit : config.max_connections < 2 ^ 32
  pub some_bandwidth : 1 ≤ config.bandwidth_limit
  pub bandwidth_fits : config.bandwidth_limit < 2 ^ 64

-- Statistics that fit their Rust types.
pub record IsTypedStats (stats : NodeStats) : Type 0 where
  pub active_fits : stats.active_connections < 2 ^ 32
  pub up_fits : stats.bytes_up < 2 ^ 64
  pub down_fits : stats.bytes_down < 2 ^ 64

pub payload_valid :
    (config : NodeConfig)
    → IsUsable config
    → validate_register (registration (register_payload config)) ≡ ok tt
unfolding validate_register register_payload
payload_valid config u =
    checks (is_blank config.node_id) (is_blank (register_payload config).address)
      (config.max_connections % 2 ^ 32) config.bandwidth_limit u.id_given u.address_given
      (small config.max_connections u.some_connections u.connections_fit) u.some_bandwidth
  where
    small : (m : ℕ) → 1 ≤ m → m < 2 ^ 32 → 1 ≤ m % 2 ^ 32
    small m h k = omega arith

    checks :
        (b c : Bool) (m k : ℕ)
        → b ≡ false
        → c ≡ false
        → 1 ≤ m
        → 1 ≤ k
        → ◌≡◌ {A = Result Status (Unit {0})}
            (if b
              then err bad_request
              else if c
              then err bad_request
              else if m == 0
              then err bad_request
              else if k == 0
              then err bad_request
              else ok tt)
            (ok tt)
    checks b c m k hb hc hm hk = ground arith

pub payload-Fits :
    (config : NodeConfig) → IsUsable config → Fits (registration (register_payload config))
unfolding register_payload
payload-Fits config u = record {
  connections_fit = small config.max_connections;
  limit_fits = u.bandwidth_fits;
}
  where
    small : (m : ℕ) → m % 2 ^ 32 < 2 ^ 32
    small m = omega arith

pub report-IsTyped :
    (limit : ℕ) (stats : NodeStats)
    → IsTypedStats stats
    → IsTyped (report (heartbeat limit stats).0)
unfolding heartbeat snapshot_and_reset
report-IsTyped limit stats t = record {
  active_fits = t.active_fits;
  up_fits = t.up_fits;
  down_fits = t.down_fits;
  latency_fits = omega arith;
}
