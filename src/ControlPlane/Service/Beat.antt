-- ===== src/ControlPlane/Service/Beat.antt =====
-- What a heartbeat does to the node that sends it, and to the others.
use rust_proxy.Base.{
  some-injective, ◌<◌, ◌^◌, ◌≡◌, ◌≢◌, refl, sym, ap, ◌∙◌, inl, inr, String, true, Option, none,
  some, List, ◌∷◌, eq_iff, ok, Bool-cases,
}
use rust_proxy.Base.Int.{ℤ, as_i64, as_u64-as_i64, as_u32-as_i64}
use rust_proxy.ControlPlane.Float.{Float}
use rust_proxy.ControlPlane.Model.{NodeState, as_str, parse, parse-as_str, DateTime, Node}
use rust_proxy.ControlPlane.Health.{HealthPolicy, reclassify_after_heartbeat}
use rust_proxy.ControlPlane.Registry as Registry
use rust_proxy.ControlPlane.Registry.{
  Row, Heartbeat, Platform, Db, Outcome, find, update, row_into_node, transpose, opt_epoch, try_get,
  heartbeat_row, with_status, statement, apply_heartbeat, set_state,
}
use rust_proxy.ControlPlane.Registry.Rows.{find-update, find-update-other}
use rust_proxy.ControlPlane.Registry.Register.{
  node_of, built, row_into_node-eq-ok, row_into_node-Decodes, transpose-eq-some, transpose-some,
}
use rust_proxy.ControlPlane.Service.{state_eq, heartbeat}

-- The node after its row took the numbers of a heartbeat, and after a change of its state.
abbrev pub beaten : Heartbeat → DateTime → Node → Node
beaten hb u n = record n {
  last_heartbeat = some u;
  active_connections = hb.active_connections;
  bytes_up = hb.bytes_up;
  bytes_down = hb.bytes_down;
  latency_ms = hb.latency_ms;
  updated_at = u;
}

abbrev pub in_state : NodeState → DateTime → Node → Node
in_state s u n = record n { state = s; updated_at = u }

-- The numbers of a heartbeat fit their Rust types.
pub record IsTyped (hb : Heartbeat) : Type 0 where
  pub active_fits : hb.active_connections < 2 ^ 32
  pub up_fits : hb.bytes_up < 2 ^ 64
  pub down_fits : hb.bytes_down < 2 ^ 64
  pub latency_fits : hb.latency_ms < 2 ^ 32

module _ (p : Platform) where
  beaten_built :
      (hb : Heartbeat) (t : ℤ) (u : DateTime) (row : Row) (s : NodeState) (active up down : ℤ)
      (created updated : DateTime)
      → IsTyped hb
      → p.from_timestamp t ≡ some u
      → ◌≡◌ {A = Outcome Node} (ok (beaten hb u (built p row s active up down created updated))) (
          ok (
            built p
              (heartbeat_row hb t row)
              s
              (as_i64 hb.active_connections)
              (as_i64 hb.bytes_up)
              (as_i64 hb.bytes_down)
              created
              u))
  unfolding heartbeat_row opt_epoch
  beaten_built hb t u row s active up down created updated typed at =
      rw
        (
          as_u32-as_i64 hb.active_connections typed.active_fits,
          as_u64-as_i64 hb.bytes_up typed.up_fits,
          as_u64-as_i64 hb.bytes_down typed.down_fits,
          as_u32-as_i64 hb.latency_ms typed.latency_fits,
          at,
        )
        refl

  pub row_into_node-heartbeat_row :
      (hb : Heartbeat) (t : ℤ) (u : DateTime) (row : Row) (n : Node)
      → IsTyped hb
      → p.from_timestamp t ≡ some u
      → row_into_node p row ≡ ok n
      → row_into_node p (heartbeat_row hb t row) ≡ ok (beaten hb u n)
  unfolding heartbeat_row try_get
  row_into_node-heartbeat_row hb t u row n typed at h =
      let (s, active, up, down, created, updated, d, e) = row_into_node-eq-ok p row n h in
      row_into_node-Decodes p (heartbeat_row hb t row) s (as_i64 hb.active_connections)
        (as_i64 hb.bytes_up) (as_i64 hb.bytes_down) created u
        (record {
          state = d.state;
          active_connections = refl;
          bytes_up = refl;
          bytes_down = refl;
          created_at = d.created_at;
          updated_at = at;
        })
      ∙ sym (
          ap (λ m. ok (beaten hb u m)) e
          ∙ beaten_built hb t u row s active up down created updated typed at)

  pub row_into_node-with_status :
      (s : NodeState) (t : ℤ) (u : DateTime) (row : Row) (n : Node)
      → p.from_timestamp t ≡ some u
      → row_into_node p row ≡ ok n
      → row_into_node p (with_status (as_str s) t row) ≡ ok (in_state s u n)
  row_into_node-with_status s t u row n at h =
      let (s', active, up, down, created, updated, d, e) = row_into_node-eq-ok p row n h in
      row_into_node-Decodes p (with_status (as_str s) t row) s active up down created u (record {
        state = parse-as_str s;
        active_connections = d.active_connections;
        bytes_up = d.bytes_up;
        bytes_down = d.bytes_down;
        created_at = d.created_at;
        updated_at = at;
      })
      ∙ sym (ap (λ m. ok (in_state s u m)) e)

  -- An UPDATE seen through `get`.
  pub node_of-update :
      (id : String) (f : Row → Row) (rows : List Row) (n n' : Node)
      → ((r : Row) → (f r).id ≡ r.id)
      → ((r : Row) → row_into_node p r ≡ ok n → row_into_node p (f r) ≡ ok n')
      → node_of p id rows ≡ ok (some n)
      → node_of p id (update id f rows) ≡ ok (some n')
  node_of-update id f rows n n' same change h =
      let (r, e, h') = transpose-eq-some p (find id rows) n h in
      rw (find-update id f rows same, e) (transpose-some p (f r) n' (change r h'))

  pub node_of-update-other :
      (id other : String) (f : Row → Row) (rows : List Row)
      → ((r : Row) → (f r).id ≡ r.id)
      → other ≢ id
      → node_of p other (update id f rows) ≡ node_of p other rows
  node_of-update-other id other f rows same ne = rw (find-update-other id other f rows same ne) refl

heartbeat_row_id : (hb : Heartbeat) (t : ℤ) (r : Row) → (heartbeat_row hb t r).id ≡ r.id
unfolding heartbeat_row
heartbeat_row_id hb t r = refl

-- The table with the statements to come.
abbrev pub db_with : List Row → List (Option ℤ) → Db
db_with rows schedule = record { rows = rows; schedule = schedule }

state_eq-true : (a b : NodeState) → state_eq a b ≡ true → a ≡ b
unfolding state_eq
state_eq-true a b h =
    some-injective a b
      (sym (parse-as_str a) ∙ ap parse ((eq_iff (as_str a) (as_str b)).0 h) ∙ parse-as_str b)

-- What is to hold after a heartbeat of node `n`, if the numbers are stored at `u`.
abbrev pub Heard :
    Platform → Heartbeat → DateTime → NodeState → Node → List Row → Db × Outcome (Unit {0}) → Type 0
Heard p hb u s n rows (db, r) =
    (r ≡ ok tt)
    × (v : DateTime) × (node_of p hb.node_id db.rows ≡ ok (some (in_state s v (beaten hb u n))))
    × ((other : String) → other ≢ hb.node_id → node_of p other db.rows ≡ node_of p other rows)

-- If the statements of a heartbeat succeed, at times that are instants: the heartbeat of an unknown
-- node changes no row and is accepted; a known node takes its numbers and the time, and the state that
-- they classify it to; its identity, limits and creation stay, and no other node changes.
pub heartbeat-Heard :
    (float : Float) (p : Platform) (policy : HealthPolicy (float.F)) (hb : Heartbeat)
    (rows : List Row) (t1 t2 t3 t4 : ℤ) (rest : List (Option ℤ)) (u2 u3 : DateTime)
    → IsTyped hb
    → p.from_timestamp t2 ≡ some u2
    → p.from_timestamp t3 ≡ some u3
    → let after =
        heartbeat float p policy hb (db_with rows (some t1 ∷ some t2 ∷ some t3 ∷ some t4 ∷ rest)) in
      (node_of p hb.node_id rows ≡ ok none → (after.0.rows ≡ rows) × (after.1 ≡ ok tt))
      × ((n : Node)
          → node_of p hb.node_id rows ≡ ok (some n)
          → Heard p hb u2
              (reclassify_after_heartbeat float n.state hb.active_connections n.max_connections
                policy)
              n
              rows
              after)
unfolding heartbeat Registry.get apply_heartbeat set_state statement
heartbeat-Heard float p policy hb rows t1 t2 t3 t4 rest u2 u3 typed at2 at3 = (
  λ h. rw h (refl, refl),
  λ n h. rw h (
      let next =
        reclassify_after_heartbeat float n.state hb.active_connections n.max_connections policy in
      let beat =
        node_of-update p hb.node_id (heartbeat_row hb t2) rows n (beaten hb u2 n)
          (heartbeat_row_id hb t2) (λ r e. row_into_node-heartbeat_row p hb t2 u2 r n typed at2 e)
          h in
      elim (Bool-cases (state_eq next n.state)) [
        | inl same ↦
            rw (same, beat)
              (
                refl,
                u2,
                beat
                    ∙ ap (λ s. ok (some (in_state s u2 (beaten hb u2 n))))
                        (sym (state_eq-true next n.state same)),
                λ other ne.
                    node_of-update-other p hb.node_id other (heartbeat_row hb t2) rows
                      (heartbeat_row_id hb t2) ne,
              )
        | inr changed ↦
            (let set =
                node_of-update p hb.node_id (with_status (as_str next) t3)
                  (update hb.node_id (heartbeat_row hb t2) rows) (beaten hb u2 n)
                  (in_state next u3 (beaten hb u2 n)) (λ r. refl)
                  (λ r e. row_into_node-with_status p next t3 u3 r (beaten hb u2 n) at3 e) beat in
              rw (changed, set)
                (
                  refl,
                  u3,
                  set,
                  λ other ne.
                      node_of-update-other p hb.node_id other (with_status (as_str next) t3)
                        (update hb.node_id (heartbeat_row hb t2) rows) (λ r. refl) ne
                      ∙ node_of-update-other p hb.node_id other (heartbeat_row hb t2) rows
                          (heartbeat_row_id hb t2) ne,
                ))
      ]),
)
