-- ===== src/ControlPlane/Registry.antt =====
-- crates/control-plane/src/registry.rs and migrations/0001_init.sql: the table of nodes. The SQL of
-- a statement is a function on the rows; integers of the table are `i64`.
pub mod Rows
pub mod Register
pub mod Keys
use rust_proxy.Base.{
  ℕ, String, Bool, Option, none, some, List, [], ◌∷◌, ◌++◌, ◌||◌, str_eq, if◌then◌else◌, Result, ok,
  err, ok_or,
}
use rust_proxy.Base.Int.{ℤ, pos, as_i64, as_u64, as_u32}
use rust_proxy.ControlPlane.Model.{NodeState, as_str, parse, DateTime, Node}

-- What SQLite stores in a column of type INTEGER: a sum out of range becomes a REAL, kept by its bits.
pub data Value : Type 0 where
  integer : ℤ → Value
  real : (bits : ℕ) → Value

pub record Row : Type 0 where
  pub id : String
  pub address : String
  pub status : String
  pub last_heartbeat : Option ℤ
  pub max_connections : ℤ
  pub active_connections : Value
  pub bandwidth_limit : ℤ
  pub bytes_up : Value
  pub bytes_down : Value
  pub latency_ms : ℤ
  pub created_at : ℤ
  pub updated_at : ℤ

pub record Heartbeat : Type 0 where
  pub node_id : String
  pub active_connections : ℕ
  pub bytes_up : ℕ
  pub bytes_down : ℕ
  pub latency_ms : ℕ
  pub available_bandwidth : ℕ

pub record RegisterRequest : Type 0 where
  pub node_id : String
  pub address : String
  pub max_connections : ℕ
  pub bandwidth_limit : ℕ

-- The errors, which the source tells apart by their text only.
pub data Error : Type 0 where
  database : Error
  unknown_node_state : String → Error
  not_an_integer : Error
  invalid_epoch : ℤ → Error
  node_disappeared : Error

-- What the crate takes from SQLite and chrono: `+` and `MAX(0, _)` on stored values, the order of
-- the ids, and the instant of a count of seconds, if there is one.
pub record Platform : Type 0 where
  pub add : Value → ℤ → Value
  pub max0 : Value → Value
  pub id_le : String → String → Bool
  pub from_timestamp : ℤ → Option DateTime

-- The rows, and what becomes of the statements to come: `none` is a failure, `some now` a statement
-- that succeeds at the time `now`. A statement beyond the list fails.
pub record Db : Type 0 where
  pub rows : List Row
  pub schedule : List (Option ℤ)

abbrev pub Outcome : Type 0 → Type 0
Outcome A = Result Error A

-- One statement: what it does to the rows at a time, and what it returns.
unfoldable pub statement :
    {A : Type 0} → (ℤ → List Row → List Row × Outcome A) → Db → Db × Outcome A
statement f db = elim db.schedule [
  | [] ↦ (db, err database)
  | none ∷ rest ↦ (record { rows = db.rows; schedule = rest }, err database)
  | some now ∷ rest ↦
      (let (rows, result) = f now db.rows in (record { rows = rows; schedule = rest }, result))
]

-- `WHERE id = ?`, with `id` the primary key
unfoldable pub find : String → List Row → Option Row
find id [] = none
find id (r ∷ rows) = let rest = find id rows in if str_eq r.id id then some r else rest

unfoldable pub update : String → (Row → Row) → List Row → List Row
update id f [] = []
update id f (r ∷ rows) =
    let rest = update id f rows in if str_eq r.id id then f r ∷ rest else r ∷ rest

unfoldable pub epoch : Platform → ℤ → Outcome DateTime
epoch p unix = ok_or (p.from_timestamp unix) (invalid_epoch unix)

unfoldable pub opt_epoch : Platform → Option ℤ → Option DateTime
opt_epoch p none = none
opt_epoch p (some unix) = p.from_timestamp unix

-- `try_get::<i64, _>`, which refuses a REAL
unfoldable pub try_get : Value → Outcome ℤ
try_get (integer z) = ok z
try_get (real bits) = err not_an_integer

-- `?`
abbrev pub and_then : {A B : Type 0} → Outcome A → (A → Outcome B) → Outcome B
and_then (ok a) f = f a
and_then (err e) f = err e

infixl 5 ◌>>=◌
abbrev ◌>>=◌ : {A B : Type 0} → Outcome A → (A → Outcome B) → Outcome B
m >>= f = and_then m f

unfoldable pub row_into_node : Platform → Row → Outcome Node
unfolding epoch opt_epoch try_get
row_into_node p row = do
  state ← ok_or (parse row.status) (unknown_node_state row.status)
  active_connections ← try_get row.active_connections
  bytes_up ← try_get row.bytes_up
  bytes_down ← try_get row.bytes_down
  created_at ← epoch p row.created_at
  updated_at ← epoch p row.updated_at
  ok (record {
    id = row.id;
    address = row.address;
    state = state;
    last_heartbeat = opt_epoch p row.last_heartbeat;
    max_connections = as_u32 row.max_connections;
    active_connections = as_u32 active_connections;
    bandwidth_limit = as_u64 row.bandwidth_limit;
    bytes_up = as_u64 bytes_up;
    bytes_down = as_u64 bytes_down;
    latency_ms = as_u32 row.latency_ms;
    created_at = created_at;
    updated_at = updated_at;
  })

-- The values of the INSERT.
unfoldable pub new_row : RegisterRequest → ℤ → Row
new_row req now = record {
  id = req.node_id;
  address = req.address;
  status = "starting";
  last_heartbeat = none;
  max_connections = as_i64 req.max_connections;
  active_connections = integer (pos 0);
  bandwidth_limit = as_i64 req.bandwidth_limit;
  bytes_up = integer (pos 0);
  bytes_down = integer (pos 0);
  latency_ms = pos 0;
  created_at = now;
  updated_at = now;
}

-- The DO UPDATE SET.
unfoldable pub merge_row : RegisterRequest → ℤ → Row → Row
merge_row req now old = record old {
  address = req.address;
  max_connections = as_i64 req.max_connections;
  bandwidth_limit = as_i64 req.bandwidth_limit;
  status =
      if str_eq old.status "offline" || str_eq old.status "starting"
      then "starting"
      else old.status;
  updated_at = now;
}

unfoldable pub upsert : RegisterRequest → ℤ → List Row → List Row
unfolding find update
upsert req now rows = elim (find req.node_id rows) [
  | none ↦ rows ++ (new_row req now ∷ [])
  | some old ↦ update req.node_id (merge_row req now) rows
]

unfoldable pub register : RegisterRequest → Db → Db × Outcome (Unit {0})
unfolding statement
register req = statement λ now rows. (upsert req now rows, ok tt)

-- `row.as_ref().map(row_into_node).transpose()`
unfoldable pub transpose : Platform → Option Row → Outcome (Option Node)
transpose p none = ok none
transpose p (some row) = do node ← row_into_node p row; ok (some node)

unfoldable pub get : Platform → String → Db → Db × Outcome (Option Node)
unfolding statement
get p id = statement λ now rows. (rows, transpose p (find id rows))

-- `ORDER BY id`
unfoldable pub insert_by_id : Platform → Row → List Row → List Row
insert_by_id p r [] = r ∷ []
insert_by_id p r (s ∷ rows) =
    let rest = insert_by_id p r rows in if p.id_le r.id s.id then r ∷ s ∷ rows else s ∷ rest

unfoldable pub order_by_id : Platform → List Row → List Row
order_by_id p [] = []
order_by_id p (r ∷ rows) = insert_by_id p r (order_by_id p rows)

-- `rows.iter().map(row_into_node).collect()`
unfoldable pub collect : Platform → List Row → Outcome (List Node)
collect p [] = ok []
collect p (r ∷ rows) = do node ← row_into_node p r; nodes ← collect p rows; ok (node ∷ nodes)

unfoldable pub list : Platform → Db → Db × Outcome (List Node)
unfolding statement
list p = statement λ now rows. (rows, collect p (order_by_id p rows))

-- An UPDATE of the row with an id.
abbrev pub update_statement : String → (ℤ → Row → Row) → Db → Db × Outcome (Unit {0})
update_statement id f = statement λ now rows. (update id (f now) rows, ok tt)

unfoldable pub heartbeat_row : Heartbeat → ℤ → Row → Row
heartbeat_row hb now row = record row {
  last_heartbeat = some now;
  active_connections = integer (as_i64 hb.active_connections);
  bytes_up = integer (as_i64 hb.bytes_up);
  bytes_down = integer (as_i64 hb.bytes_down);
  latency_ms = as_i64 hb.latency_ms;
  updated_at = now;
}

unfoldable pub apply_heartbeat : Heartbeat → Db → Db × Outcome (Unit {0})
unfolding statement heartbeat_row
apply_heartbeat hb = update_statement hb.node_id (heartbeat_row hb)

abbrev pub with_status : String → ℤ → Row → Row
with_status status now row = record row { status = status; updated_at = now }

unfoldable pub set_draining : String → Db → Db × Outcome (Unit {0})
unfolding statement
set_draining id = update_statement id (with_status "draining")

unfoldable pub mark_offline : String → Db → Db × Outcome (Unit {0})
unfolding statement
mark_offline id = update_statement id (with_status "offline")

unfoldable pub set_state : String → NodeState → Db → Db × Outcome (Unit {0})
unfolding statement
set_state id state = update_statement id (with_status (as_str state))

abbrev pub adjusted : Platform → ℤ → ℤ → Row → Row
adjusted p delta now row = record row {
  active_connections = p.max0 (p.add row.active_connections delta);
  updated_at = now;
}

unfoldable pub adjust_active : Platform → String → ℤ → Db → Db × Outcome (Unit {0})
unfolding statement
adjust_active p id delta = update_statement id (adjusted p delta)

abbrev pub accumulated : Platform → ℕ → ℕ → ℤ → Row → Row
accumulated p up down now row = record row {
  bytes_up = p.add row.bytes_up (as_i64 up);
  bytes_down = p.add row.bytes_down (as_i64 down);
  updated_at = now;
}

unfoldable pub accumulate_bytes : Platform → String → ℕ → ℕ → Db → Db × Outcome (Unit {0})
unfolding statement
accumulate_bytes p id up down = update_statement id (accumulated p up down)
