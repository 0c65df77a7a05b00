-- ===== src/ControlPlane/Tests.antt =====
-- Concrete nodes, allocators and rows, and the theorems of crates/control-plane at them.
use Prim.Native.Nat.{Ordering, compare}
use rust_proxy.Base.{
  ℕ, ◌+◌, ◌*◌, ◌^◌, ◌≤◌, ◌<◌, ◌≡◌, ◌≢◌, refl, ◌⊎◌, String, true, false, none, some, List, [], ◌∷◌,
  All, ok, err, arith, leb, leb→le, le→leb, ◌/◌, ◌↔◌,
}
use rust_proxy.Base.Int.{ℤ, pos}
use rust_proxy.ControlPlane.Float.Fixed.{fixed}
use rust_proxy.ControlPlane.Model.{
  parse, NodeState, starting, healthy, degraded, draining, offline, Node, is_selectable,
}
use rust_proxy.ControlPlane.Health.{HealthPolicy, utilization, reclassify_after_heartbeat}
use rust_proxy.ControlPlane.Health.Classified.{reported, reports_classified}
use native.Mathlib.Nat.{le-div_iff_mul-le}
use rust_proxy.ControlPlane.Routing.{default_weights, compare_scores, select}
use rust_proxy.ControlPlane.Routing.Best.{IsLastMax, select-IsLastMax}
use rust_proxy.ControlPlane.Bandwidth.{
  BandwidthAllocator, BandwidthGuard, try_reserve, available, drop_guard,
}
use rust_proxy.ControlPlane.Bandwidth.Threads.{
  idle, looping, loaded, holding, call, load, exchange, thread_step, System, step, Reachable,
  initially, then_step, held,
}
use rust_proxy.ControlPlane.Bandwidth.Reservations.{reservations_bounded, try_reserve-fits}
use rust_proxy.ControlPlane.Registry.{
  Heartbeat, Db, Outcome, collect, order_by_id, insert_by_id, row_into_node, try_get, epoch,
  opt_epoch, integer, Row, RegisterRequest, Platform, upsert,
}
use rust_proxy.ControlPlane.Registry.Register.{node_of, new_node, merged_node, register_lem}
use rust_proxy.ControlPlane.Api.{
  HeaderMap, no_auth, bearer, unauthorized, header, is_blank, is_whitespace, register_node,
  heartbeat_node, drain_node,
}
use rust_proxy.ControlPlane.Api.Guard.{Presents, guarded_handlers}
use rust_proxy.ControlPlane.Service.{heartbeat, mark_stale_offline}
use rust_proxy.ControlPlane.Service.Beat.{IsTyped, Heard, db_with, heartbeat-Heard}
use rust_proxy.ControlPlane.Service.Sweep.{Swept, mark_stale_offline-Swept}
use rust_proxy.ControlPlane.Service.Reserve.{Service, select_with_bandwidth}
use rust_proxy.ControlPlane.Service.Reserve.Fits.{Reserved, select_with_bandwidth-AllFit}

abbrev policy : HealthPolicy ℕ
policy = record { offline_timeout = 30; degraded_threshold = 900 }

-- The numbers of the tests compare a load with 900 as the load does with nine tenths.
nine_tenths :
    (a m : ℕ)
    → m ≢ 0
    → a < 2 ^ 32
    → m < 2 ^ 32
    → (leb 900 (a * 1000 * 1000 / (m * 1000)) ≡ true) ↔ (9 * m ≤ 10 * a)
nine_tenths a m ne _ _ = (
  λ h. let le = (bound a m ne).0 (leb→le 900 (a * 1000 * 1000 / (m * 1000)) h) in omega arith,
  λ h. le→leb 900 (a * 1000 * 1000 / (m * 1000)) ((bound a m ne).1 (omega arith)),
)
  where
    bound :
        (a m : ℕ)
        → m ≢ 0
        → (900 ≤ a * 1000 * 1000 / (m * 1000)) ↔ (900 * (m * 1000) ≤ a * 1000 * 1000)
    bound a m ne = le-div_iff_mul-le (omega arith)

reports_classified_example :
    let s' = reported fixed policy starting ((1, 10) ∷ (9, 10) ∷ []) in
    ((starting ≡ draining) ⊎ (starting ≡ offline) → s' ≡ starting)
    × (starting ≢ draining
        → starting ≢ offline
        → ((s' ≡ degraded) ↔ (9 * 10 ≤ 10 * 9)) × ((s' ≡ healthy) ↔ (10 * 9 < 9 * 10)))
reports_classified_example =
    reports_classified fixed policy 9 10 nine_tenths refl starting ((1, 10) ∷ []) 9 10 (omega arith)
      (omega arith)

classified :
    (reclassify_after_heartbeat fixed starting 9 10 policy ≡ degraded)
    × (reclassify_after_heartbeat fixed degraded 1 10 policy ≡ healthy)
unfolding reclassify_after_heartbeat utilization
classified = (refl, refl)

node : String → NodeState → ℕ → Node
node id state latency_ms = record {
  id = id;
  address = "10.0.0.1:1080";
  state = state;
  last_heartbeat = some 100;
  max_connections = 10;
  active_connections = 2;
  bandwidth_limit = 1000;
  bytes_up = 0;
  bytes_down = 0;
  latency_ms = latency_ms;
  created_at = 1;
  updated_at = 2;
}

abbrev nodes : List Node
nodes = node "a" healthy 5 ∷ node "b" healthy 5 ∷ node "c" draining 0 ∷ []

compare_total : (x y : ℕ) → some (compare x y) ≡ some Ordering.gt → compare y x ≢ Ordering.gt
compare_total x y h = ground arith

compare_trans :
    (x y z : ℕ) → compare x y ≢ Ordering.gt → compare y z ≢ Ordering.gt → compare x z ≢ Ordering.gt
compare_trans x y z h k = ground arith

select-IsLastMax_example :
    (select fixed (default_weights fixed) nodes ≡ none → All (λ k. is_selectable k ≡ false) nodes)
    × ((n : Node)
        → select fixed (default_weights fixed) nodes ≡ some n
        → IsLastMax (compare_scores fixed (default_weights fixed)) is_selectable nodes n)
select-IsLastMax_example =
    select-IsLastMax fixed (λ _. Unit) (λ x y _ _. compare_total x y)
      (λ x y z _ _ _. compare_trans x y z) (default_weights fixed) nodes (tt, (tt, (tt, tt)))

-- Two threads; one reserves 6 of 10.
abbrev one_holds : System
one_holds = record { counter = 6; threads = holding 6 ∷ idle ∷ [] }

reached : Reachable 10 2 one_holds
unfolding thread_step
reached =
    then_step
      (then_step (then_step initially (step 0 0 [] (idle ∷ []) idle (looping 6) (call 6) refl))
        (step 0 0 [] (idle ∷ []) (looping 6) (loaded 0 6 6) load refl))
      (step 0 6 [] (idle ∷ []) (loaded 0 6 6) (holding 6) (exchange true) refl)

reservations_bounded_example :
    (6 ≡ held (holding 6 ∷ idle ∷ [])) × (held (holding 6 ∷ idle ∷ []) ≤ 10)
reservations_bounded_example = reservations_bounded 10 2 one_holds (omega arith) reached

abbrev allocator : BandwidthAllocator
allocator = record { limit = 10; reserved = 4 }

try_reserve-fits_example :
    (try_reserve allocator 5 ≡ none → 10 < 4 + 5)
    × ((b : BandwidthAllocator) (g : BandwidthGuard)
        → try_reserve allocator 5 ≡ some (b, g)
        → (g.rate ≡ 5)
          × (b.limit ≡ 10)
          × (b.reserved ≡ 4 + 5)
          × (available b + 5 ≡ available allocator)
          × (b.reserved ≤ b.limit)
          × (drop_guard g b ≡ allocator))
try_reserve-fits_example = try_reserve-fits allocator 5 (omega arith) (omega arith)

-- Values that are integers, ids in any order, and an instant for every count of seconds.
abbrev platform : Platform
platform = record {
  add = λ v z. v;
  max0 = λ v. v;
  id_le = λ a b. true;
  from_timestamp = λ z. elim z [ ℤ.pos n ↦ some (n * 10 ^ 9) | ℤ.negsuc n ↦ none ];
}

abbrev registration : RegisterRequest
registration = record {
  node_id = "a";
  address = "10.0.0.1:1080";
  max_connections = 100;
  bandwidth_limit = 2 ^ 63 + 1;
}

register_lem_example :
    (node_of platform "a" [] ≡ ok none
      → node_of platform "a" (upsert registration (pos 7) [])
        ≡ ok (some (new_node registration (7 * 10 ^ 9))))
    × ((n : Node)
        → node_of platform "a" [] ≡ ok (some n)
        → node_of platform "a" (upsert registration (pos 7) [])
          ≡ ok (some (merged_node registration (7 * 10 ^ 9) n)))
    × ((other : String)
        → other ≢ "a"
        → node_of platform other (upsert registration (pos 7) []) ≡ node_of platform other [])
register_lem_example =
    register_lem platform registration (pos 7) [] (7 * 10 ^ 9) (omega arith) (omega arith) refl

abbrev row : Row
row = record {
  id = "a";
  address = "10.0.0.1:1080";
  status = "healthy";
  last_heartbeat = some (pos 6);
  max_connections = pos 2;
  active_connections = integer (pos 0);
  bandwidth_limit = pos 10;
  bytes_up = integer (pos 0);
  bytes_down = integer (pos 0);
  latency_ms = pos 3;
  created_at = pos 1;
  updated_at = pos 6;
}

abbrev service : Service
service = record {
  db = record { rows = row ∷ []; schedule = some (pos 7) ∷ [] };
  allocators = ("a", allocator) ∷ [];
}

select_with_bandwidth-AllFit_example : Reserved (select_with_bandwidth fixed platform service)
select_with_bandwidth-AllFit_example =
    select_with_bandwidth-AllFit fixed platform service ((omega arith, omega arith), tt)

abbrev beat : Heartbeat
beat = record {
  node_id = "a";
  active_connections = 2;
  bytes_up = 5;
  bytes_down = 6;
  latency_ms = 4;
  available_bandwidth = 10;
}

beat-IsTyped : IsTyped beat
beat-IsTyped = record {
  active_fits = omega arith;
  up_fits = omega arith;
  down_fits = omega arith;
  latency_fits = omega arith;
}

abbrev after_beat : Db × Outcome (Unit {0})
after_beat =
    heartbeat fixed platform policy beat
      (db_with (row ∷ []) (some (pos 7) ∷ some (pos 8) ∷ some (pos 9) ∷ some (pos 10) ∷ []))

heartbeat-Heard_example :
    (node_of platform "a" (row ∷ []) ≡ ok none
      → (after_beat.0.rows ≡ row ∷ []) × (after_beat.1 ≡ ok tt))
    × ((n : Node)
        → node_of platform "a" (row ∷ []) ≡ ok (some n)
        → Heard platform beat
            (8 * 10 ^ 9)
            (reclassify_after_heartbeat fixed n.state 2 n.max_connections policy)
            n
            (row ∷ [])
            after_beat)
heartbeat-Heard_example =
    heartbeat-Heard fixed platform policy beat (row ∷ []) (pos 7) (pos 8) (pos 9) (pos 10) []
      (8 * 10 ^ 9) (9 * 10 ^ 9) beat-IsTyped refl refl

-- The node of `row`, last heard at 6 seconds, and the sweep at 7.
abbrev node_a : Node
node_a = record {
  id = "a";
  address = "10.0.0.1:1080";
  state = healthy;
  last_heartbeat = some (6 * 10 ^ 9);
  max_connections = 2;
  active_connections = 0;
  bandwidth_limit = 10;
  bytes_up = 0;
  bytes_down = 0;
  latency_ms = 3;
  created_at = 10 ^ 9;
  updated_at = 6 * 10 ^ 9;
}

listed : collect platform (order_by_id platform (row ∷ [])) ≡ ok (node_a ∷ [])
unfolding collect order_by_id insert_by_id row_into_node parse try_get epoch opt_epoch
listed = refl

mark_stale_offline-Swept_example :
    Swept fixed platform policy (7 * 10 ^ 9) (row ∷ []) (node_a ∷ []) 0 (
      mark_stale_offline fixed platform policy
        (7 * 10 ^ 9)
        (db_with (row ∷ []) (some (pos 7) ∷ some (pos 7) ∷ [])))
mark_stale_offline-Swept_example =
    mark_stale_offline-Swept fixed platform policy (7 * 10 ^ 9) (row ∷ []) (node_a ∷ []) (pos 7)
      (pos 7 ∷ []) listed ((7 * 10 ^ 9, refl), tt) (omega arith)

abbrev headers : HeaderMap
headers = ("host", some "cp") ∷ ("authorization", some "Bearer t0ken") ∷ []

token_presented : Presents headers "t0ken"
unfolding header
token_presented = refl

guarded_handlers_example :
    (Presents headers "t0ken"
      → (register_node platform (bearer "t0ken") headers registration service.db
          ≡ register_node platform no_auth headers registration service.db)
        × (heartbeat_node fixed platform policy (bearer "t0ken") headers "a" beat service.db
            ≡ heartbeat_node fixed platform policy no_auth headers "a" beat service.db)
        × (drain_node platform (bearer "t0ken") headers "a" service.db
            ≡ drain_node platform no_auth headers "a" service.db))
    × ((Presents headers "t0ken" → ⊥)
        → (register_node platform (bearer "t0ken") headers registration service.db
            ≡ (service.db, err unauthorized))
          × (heartbeat_node fixed platform policy (bearer "t0ken") headers "a" beat service.db
              ≡ (service.db, err unauthorized))
          × (drain_node platform (bearer "t0ken") headers "a" service.db
              ≡ (service.db, err unauthorized)))
guarded_handlers_example =
    guarded_handlers fixed platform policy headers "t0ken" "a" registration beat service.db

blanks : (is_blank " \t" ≡ true) × (is_blank " a" ≡ false) × (is_blank "" ≡ true)
unfolding is_blank is_whitespace
blanks = (refl, refl, refl)
