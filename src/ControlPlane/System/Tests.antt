-- ===== src/ControlPlane/System/Tests.antt =====
-- A table with one registered node, and the theorems on reachable tables at it.
use Prim.Native.Nat.{Ordering, compare}
use rust_proxy.Base.{
  Option, ◌≢◌, ℕ, ◌+◌, ◌*◌, ◌^◌, ◌≡◌, ◌⊎◌, refl, true, false, none, some, List, [], ◌∷◌, map,
  length, All, ok, err, arith,
}
use rust_proxy.Base.Int.{ℤ, pos}
use rust_proxy.ControlPlane.Float.Fixed.{fixed}
use rust_proxy.ControlPlane.Model.{parse, draining, Node, is_selectable}
use rust_proxy.ControlPlane.Health.{HealthPolicy}
use rust_proxy.ControlPlane.Registry.{Row, Heartbeat, RegisterRequest, Platform, Db, find, upsert}
use rust_proxy.ControlPlane.Registry.{
  new_row, collect, order_by_id, insert_by_id, row_into_node, try_get, epoch, opt_epoch,
}
use rust_proxy.ControlPlane.Registry.Keys.{Keyed}
use rust_proxy.ControlPlane.Service.Beat.{IsTyped, db_with}
use rust_proxy.ControlPlane.Api.{
  no_auth, bearer, authorize, header, provided, strip_prefix, is_blank, is_whitespace, HeaderMap,
  validate_register, not_found, service_unavailable, respond, health, list_nodes, get_node,
  select_node, register_node, heartbeat_node, drain_node,
}
use rust_proxy.ControlPlane.Server.{Turn, cancelled, ticked, health_sweep}
use rust_proxy.ControlPlane.System.{Fits, Reachable, initially, registered}
use rust_proxy.ControlPlane.System.Sound.{IsSound, Reachable-Sound}
use rust_proxy.ControlPlane.System.Handlers.{handlers-Reachable}
use rust_proxy.ControlPlane.System.Answers.{reads_answered}
use rust_proxy.ControlPlane.Registry.Register.{new_node}
use rust_proxy.ControlPlane.Service.Reserve.{SelectedNode, select_with_bandwidth}
use rust_proxy.ControlPlane.System.Reserved.{Best, select_with_bandwidth-Best}
use rust_proxy.ControlPlane.System.Accepted.{writes_answered}

abbrev platform : Platform
platform = record {
  add = λ v z. v;
  max0 = λ v. v;
  id_le = λ a b. true;
  from_timestamp = λ z. elim z [ ℤ.pos n ↦ some (n * 10 ^ 9) | ℤ.negsuc n ↦ none ];
}

abbrev policy : HealthPolicy ℕ
policy = record { offline_timeout = 30; degraded_threshold = 900 }

abbrev request : RegisterRequest
request = record {
  node_id = "n1";
  address = "10.0.0.1:1080";
  max_connections = 100;
  bandwidth_limit = 2 ^ 63 + 1;
}

abbrev report : Heartbeat
report = record {
  node_id = "";
  active_connections = 3;
  bytes_up = 10;
  bytes_down = 20;
  latency_ms = 5;
  available_bandwidth = 0;
}

abbrev table : List Row
table = upsert request (pos 7) []

request_valid : validate_register request ≡ ok tt
unfolding validate_register is_blank is_whitespace
request_valid = refl

request-Fits : Fits request
request-Fits = record { connections_fit = omega arith; limit_fits = omega arith }

report-IsTyped : IsTyped report
report-IsTyped = record {
  active_fits = omega arith;
  up_fits = omega arith;
  down_fits = omega arith;
  latency_fits = omega arith;
}

table-Reachable : Reachable platform table
table-Reachable =
    registered request (pos 7) [] request_valid request-Fits (7 * 10 ^ 9, refl) initially

Reachable-Sound_example : Keyed table × All (IsSound platform) table
Reachable-Sound_example = Reachable-Sound platform table table-Reachable

-- The second statement fails.
abbrev db : Db
db = db_with table (some (pos 8) ∷ none ∷ some (pos 9) ∷ [])

abbrev turns : List Turn
turns = ticked (90 * 10 ^ 9) ∷ ticked (100 * 10 ^ 9) ∷ cancelled ∷ []

handlers-Reachable_example :
    Reachable platform (register_node platform no_auth [] request db).0.rows
    × Reachable platform (heartbeat_node fixed platform policy no_auth [] "n1" report db).0.rows
    × Reachable platform (drain_node platform no_auth [] "n1" db).0.rows
    × Reachable platform (health_sweep fixed platform policy turns db).rows
handlers-Reachable_example =
    handlers-Reachable platform fixed policy no_auth [] "n1" request report turns db request-Fits
      report-IsTyped table-Reachable ((8 * 10 ^ 9, refl), (tt, ((9 * 10 ^ 9, refl), tt)))

abbrev read_db : Db
read_db = db_with table (some (pos 8) ∷ [])

reads_answered_example :
    ((health platform read_db).1 ≡ ok tt)
    × (nodes : List Node) × ((list_nodes platform read_db).1 ≡ ok (map respond nodes))
    × (length nodes ≡ length table)
    × All (λ n. (get_node platform n.id read_db).1 ≡ ok (respond n)) nodes
    × (((get_node platform "n2" read_db).1 ≡ err not_found) × (find "n2" table ≡ none)
        ⊎ ((n : Node) × ((get_node platform "n2" read_db).1 ≡ ok (respond n)) × (n.id ≡ "n2")))
    × (((select_node fixed platform read_db).1 ≡ err service_unavailable)
          × All (λ n. is_selectable n ≡ false) nodes
        ⊎ ((n : Node) × ((select_node fixed platform read_db).1 ≡ ok (respond n))
            × (is_selectable n ≡ true)
            × ((get_node platform n.id read_db).1 ≡ ok (respond n))))
reads_answered_example = reads_answered platform fixed table (pos 8) [] "n2" table-Reachable

abbrev headers : HeaderMap
headers = ("authorization", some "Bearer t0ken") ∷ []

headers_authorized : authorize headers (bearer "t0ken") ≡ ok tt
unfolding authorize provided header strip_prefix
headers_authorized = refl

id_given : is_blank "n1" ≡ false
unfolding is_blank is_whitespace
id_given = refl

abbrev write_db : Db
write_db = db_with table (some (pos 8) ∷ some (pos 9) ∷ some (pos 10) ∷ some (pos 11) ∷ [])

writes_answered_example :
    ((n : Node) × ((register_node platform (bearer "t0ken") headers request write_db).1
        ≡ ok (respond n))
      × (n.id ≡ "n1")
      × (n.address ≡ "10.0.0.1:1080")
      × (n.max_connections ≡ 100)
      × (n.bandwidth_limit ≡ 2 ^ 63 + 1))
    × ((heartbeat_node fixed platform policy (bearer "t0ken") headers "n1" report write_db).1
        ≡ ok tt)
    × (((drain_node platform (bearer "t0ken") headers "n1" write_db).1 ≡ err not_found)
          × (find "n1" table ≡ none)
        ⊎ ((n : Node) × ((drain_node platform (bearer "t0ken") headers "n1" write_db).1
              ≡ ok (respond n))
            × (n.state ≡ draining)
            × (n.id ≡ "n1")))
writes_answered_example =
    writes_answered platform fixed policy (bearer "t0ken") headers request report "n1" table (pos 8)
      (pos 9) (pos 10) (pos 11) [] table-Reachable headers_authorized request_valid request-Fits
      report-IsTyped id_given (8 * 10 ^ 9, refl) (9 * 10 ^ 9, refl) (10 * 10 ^ 9, refl)

compare_total : (x y : ℕ) → some (compare x y) ≡ some Ordering.gt → compare y x ≢ Ordering.gt
compare_total x y h = ground arith

compare_trans :
    (x y z : ℕ) → compare x y ≢ Ordering.gt → compare y z ≢ Ordering.gt → compare x z ≢ Ordering.gt
compare_trans x y z h k = ground arith

table_listed :
    collect platform (order_by_id platform table) ≡ ok (new_node request (7 * 10 ^ 9) ∷ [])
unfolding upsert find new_row collect order_by_id insert_by_id row_into_node parse try_get epoch
    opt_epoch
table_listed = refl

select_with_bandwidth-Best_example :
    (r : Option SelectedNode) × ((select_with_bandwidth fixed platform
        (record { db = read_db; allocators = [] })).1
      ≡ ok r)
    × Best fixed platform table [] (new_node request (7 * 10 ^ 9) ∷ []) r
select_with_bandwidth-Best_example =
    select_with_bandwidth-Best fixed platform (λ _. Unit) (λ x y _ _. compare_total x y)
      (λ x y z _ _ _. compare_trans x y z) table (pos 8) [] [] (new_node request (7 * 10 ^ 9) ∷ [])
      table-Reachable table_listed (tt, tt)
