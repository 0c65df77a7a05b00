-- ===== src/ControlPlane/Registry/Register.antt =====
-- Registration as a change of the map from ids to nodes.
use rust_proxy.Base.{
  ◌<◌, ◌^◌, ◌≡◌, ◌≢◌, refl, sym, ap, ◌∙◌, String, ◌||◌, Option, none, some, List, str_eq,
  if◌then◌else◌, Result, ok, err, ok_or,
}
use rust_proxy.Base.Int.{ℤ, as_u64, as_u32, as_u64-as_i64, as_u32-as_i64}
use rust_proxy.ControlPlane.Model.{
  NodeState, starting, healthy, degraded, draining, offline, DateTime, parse, as_str, as_str-parse,
  Node,
}
use rust_proxy.ControlPlane.Registry.{
  Row, Error, RegisterRequest, Platform, Outcome, find, new_row, merge_row, upsert, row_into_node,
  transpose, epoch, opt_epoch, try_get, and_then, unknown_node_state,
}
use rust_proxy.ControlPlane.Registry.Rows.{find-upsert, find-upsert-other}

-- The table as a map from ids to nodes.
abbrev pub node_of : Platform → String → List Row → Result Error (Option Node)
node_of p id rows = transpose p (find id rows)

-- Registration of a node that is offline or never reported starts it; any other state stays.
abbrev pub restarted : NodeState → NodeState
restarted offline = starting
restarted s = s

restarted_name :
    (s : NodeState)
    → parse (
        if str_eq (as_str s) "offline" || str_eq (as_str s) "starting"
        then "starting"
        else as_str s)
      ≡ some (restarted s)
unfolding parse as_str
restarted_name starting = refl
restarted_name healthy = refl
restarted_name degraded = refl
restarted_name draining = refl
restarted_name offline = refl

restarted_lem :
    (status : String) (s : NodeState)
    → parse status ≡ some s
    → parse (if str_eq status "offline" || str_eq status "starting" then "starting" else status)
      ≡ some (restarted s)
restarted_lem status s e = rw (as_str-parse status s e) (restarted_name s)

pub and_then-eq-ok :
    {A B : Type 0} (m : Outcome A) (f : A → Outcome B) (b : B)
    → and_then m f ≡ ok b
    → (a : A) × (m ≡ ok a) × (f a ≡ ok b)
and_then-eq-ok (ok a) f b h = (a, refl, h)
and_then-eq-ok (err e) f b h = cc

pub ok-injective : {A : Type 0} (a b : A) → ◌≡◌ {A = Outcome A} (ok a) (ok b) → a ≡ b
ok-injective a b h = cc

ok_or-eq-ok : {A : Type 0} (o : Option A) (e : Error) (a : A) → ok_or o e ≡ ok a → o ≡ some a
ok_or-eq-ok none e a h = cc
ok_or-eq-ok (some b) e a h = cc

-- The node that a new row stands for.
abbrev pub new_node : RegisterRequest → DateTime → Node
new_node req t = record {
  id = req.node_id;
  address = req.address;
  state = starting;
  last_heartbeat = none;
  max_connections = req.max_connections;
  active_connections = 0;
  bandwidth_limit = req.bandwidth_limit;
  bytes_up = 0;
  bytes_down = 0;
  latency_ms = 0;
  created_at = t;
  updated_at = t;
}

-- A node after a registration of its id.
abbrev pub merged_node : RegisterRequest → DateTime → Node → Node
merged_node req t n = record n {
  address = req.address;
  state = restarted n.state;
  max_connections = req.max_connections;
  bandwidth_limit = req.bandwidth_limit;
  updated_at = t;
}

pub row_into_node-new_row :
    (p : Platform) (req : RegisterRequest) (now : ℤ) (t : DateTime)
    → req.max_connections < 2 ^ 32
    → req.bandwidth_limit < 2 ^ 64
    → p.from_timestamp now ≡ some t
    → row_into_node p (new_row req now) ≡ ok (new_node req t)
unfolding row_into_node new_row try_get epoch opt_epoch parse
row_into_node-new_row p req now t small small' at =
    rw (at, as_u32-as_i64 req.max_connections small, as_u64-as_i64 req.bandwidth_limit small') refl

-- The node of decoded columns.
abbrev pub built : Platform → Row → NodeState → ℤ → ℤ → ℤ → DateTime → DateTime → Node
built p row state active up down created updated = record {
  id = row.id;
  address = row.address;
  state = state;
  last_heartbeat = opt_epoch p row.last_heartbeat;
  max_connections = as_u32 row.max_connections;
  active_connections = as_u32 active;
  bandwidth_limit = as_u64 row.bandwidth_limit;
  bytes_up = as_u64 up;
  bytes_down = as_u64 down;
  latency_ms = as_u32 row.latency_ms;
  created_at = created;
  updated_at = updated;
}

-- The columns decode.
pub record Decodes (p : Platform) (row : Row) (s : NodeState) (active up down : ℤ)
    (created updated : DateTime) : Type 0 where
  pub state : parse row.status ≡ some s
  pub active_connections : try_get row.active_connections ≡ ok active
  pub bytes_up : try_get row.bytes_up ≡ ok up
  pub bytes_down : try_get row.bytes_down ≡ ok down
  pub created_at : p.from_timestamp row.created_at ≡ some created
  pub updated_at : p.from_timestamp row.updated_at ≡ some updated

module _ (p : Platform) where
  pub row_into_node-Decodes :
      (row : Row) (s : NodeState) (active up down : ℤ) (created updated : DateTime)
      → Decodes p row s active up down created updated
      → row_into_node p row ≡ ok (built p row s active up down created updated)
  unfolding row_into_node epoch
  row_into_node-Decodes row s active up down created updated d =
      rw (d.state, d.active_connections, d.bytes_up, d.bytes_down, d.created_at, d.updated_at) refl

  pub row_into_node-eq-ok :
      (row : Row) (n : Node)
      → row_into_node p row ≡ ok n
      → (s : NodeState) × (active : ℤ) × (up : ℤ) × (down : ℤ) × (created : DateTime)
        × (updated : DateTime) × Decodes p row s active up down created updated
        × (n ≡ built p row s active up down created updated)
  unfolding row_into_node epoch
  row_into_node-eq-ok row n h =
      let (s, e1, h1) =
        and_then-eq-ok (ok_or (parse row.status) (unknown_node_state row.status)) _ n h in
      let (active, e2, h2) = and_then-eq-ok (try_get row.active_connections) _ n h1 in
      let (up, e3, h3) = and_then-eq-ok (try_get row.bytes_up) _ n h2 in
      let (down, e4, h4) = and_then-eq-ok (try_get row.bytes_down) _ n h3 in
      let (created, e5, h5) = and_then-eq-ok (epoch p row.created_at) _ n h4 in
      let (updated, e6, h6) = and_then-eq-ok (epoch p row.updated_at) _ n h5 in
      (
        s,
        active,
        up,
        down,
        created,
        updated,
        record {
          state = ok_or-eq-ok _ _ s e1;
          active_connections = e2;
          bytes_up = e3;
          bytes_down = e4;
          created_at = ok_or-eq-ok _ _ created e5;
          updated_at = ok_or-eq-ok _ _ updated e6;
        },
        sym (ok-injective _ _ h6),
      )

  merge_row-Decodes :
      (req : RegisterRequest) (now : ℤ) (old : Row) (t : DateTime) (s : NodeState)
      (active up down : ℤ) (created updated : DateTime)
      → p.from_timestamp now ≡ some t
      → Decodes p old s active up down created updated
      → Decodes p (merge_row req now old) (restarted s) active up down created t
  unfolding merge_row
  merge_row-Decodes req now old t s active up down created updated at d = record {
    state = restarted_lem old.status s d.state;
    active_connections = d.active_connections;
    bytes_up = d.bytes_up;
    bytes_down = d.bytes_down;
    created_at = d.created_at;
    updated_at = at;
  }

  merged_built :
      (req : RegisterRequest) (now : ℤ) (old : Row) (t : DateTime) (s : NodeState)
      (active up down : ℤ) (created updated : DateTime)
      → req.max_connections < 2 ^ 32
      → req.bandwidth_limit < 2 ^ 64
      → ◌≡◌ {A = Outcome Node}
          (ok (merged_node req t (built p old s active up down created updated)))
          (ok (built p (merge_row req now old) (restarted s) active up down created t))
  unfolding merge_row
  merged_built req now old t s active up down created updated small small' =
      rw (as_u32-as_i64 req.max_connections small, as_u64-as_i64 req.bandwidth_limit small') refl

  pub row_into_node-merge_row :
      (req : RegisterRequest) (now : ℤ) (old : Row) (n : Node) (t : DateTime)
      → req.max_connections < 2 ^ 32
      → req.bandwidth_limit < 2 ^ 64
      → p.from_timestamp now ≡ some t
      → row_into_node p old ≡ ok n
      → row_into_node p (merge_row req now old) ≡ ok (merged_node req t n)
  row_into_node-merge_row req now old n t small small' at h =
      let (s, active, up, down, created, updated, d, e) = row_into_node-eq-ok old n h in
      row_into_node-Decodes (merge_row req now old) (restarted s) active up down created t
        (merge_row-Decodes req now old t s active up down created updated at d)
      ∙ sym (
          ap (λ m. ok (merged_node req t m)) e
          ∙ merged_built req now old t s active up down created updated small small')

transpose-eq-none : (p : Platform) (o : Option Row) → transpose p o ≡ ok none → o ≡ none
unfolding transpose
transpose-eq-none p none h = refl
transpose-eq-none p (some r) h = let (n, e, h') = and_then-eq-ok (row_into_node p r) _ none h in cc

pub transpose-eq-some :
    (p : Platform) (o : Option Row) (n : Node)
    → transpose p o ≡ ok (some n)
    → (r : Row) × (o ≡ some r) × (row_into_node p r ≡ ok n)
unfolding transpose
transpose-eq-some p none n h = cc
transpose-eq-some p (some r) n h =
    let (m, e, h') = and_then-eq-ok (row_into_node p r) _ (some n) h in (r, refl, cc)

pub transpose-some :
    (p : Platform) (r : Row) (n : Node)
    → row_into_node p r ≡ ok n
    → transpose p (some r) ≡ ok (some n)
unfolding transpose
transpose-some p r n h = rw h refl

-- Registration seen through `get`. A new node appears in the state `starting` with zero counters; a
-- known one keeps its counters, its heartbeat and the time of its creation, takes the address and the
-- limits of the request, and restarts if it was offline. No other node changes. The numbers of
-- the request survive the casts to the table's integers and back.
pub register_lem :
    (p : Platform) (req : RegisterRequest) (now : ℤ) (rows : List Row) (t : DateTime)
    → req.max_connections < 2 ^ 32
    → req.bandwidth_limit < 2 ^ 64
    → p.from_timestamp now ≡ some t
    → (node_of p req.node_id rows ≡ ok none
        → node_of p req.node_id (upsert req now rows) ≡ ok (some (new_node req t)))
      × ((n : Node)
          → node_of p req.node_id rows ≡ ok (some n)
          → node_of p req.node_id (upsert req now rows) ≡ ok (some (merged_node req t n)))
      × ((other : String)
          → other ≢ req.node_id
          → node_of p other (upsert req now rows) ≡ node_of p other rows)
register_lem p req now rows t small small' at = (
  λ h.
      rw (find-upsert req now rows, transpose-eq-none p (find req.node_id rows) h)
        (transpose-some p (new_row req now) _ (row_into_node-new_row p req now t small small' at)),
  λ n h.
      let (old, e, h') = transpose-eq-some p (find req.node_id rows) n h in
      rw (find-upsert req now rows, e)
        (transpose-some p (merge_row req now old) _
          (row_into_node-merge_row p req now old n t small small' at h')),
  λ other ne. rw (find-upsert-other req now rows other ne) refl,
)
