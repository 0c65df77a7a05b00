-- ===== src/ControlPlane/System/Sound.antt =====
-- The rows of a reachable table.
use rust_proxy.Base.{
  ℕ, ◌^◌, ◌≤◌, ◌<◌, ◌≡◌, refl, inl, inr, String, Bool, false, List, [], ◌∷◌, ◌++◌, All, ◌==◌,
  str_eq, if◌then◌else◌, Result, ok, err, Bool-cases, Option-cases, arith,
}
use rust_proxy.Base.Int.{ℤ}
use rust_proxy.ControlPlane.Model.{NodeState, as_str, Node}
use rust_proxy.ControlPlane.Registry.{
  Row, Heartbeat, RegisterRequest, Platform, find, update, upsert, row_into_node, new_row,
  merge_row, heartbeat_row, with_status,
}
use rust_proxy.ControlPlane.Registry.Rows.{upsert_new, upsert_old}
use rust_proxy.ControlPlane.Registry.Keys.{Keyed, update-Keyed, upsert-Keyed}
use rust_proxy.ControlPlane.Registry.Register.{
  new_node, merged_node, row_into_node-new_row, row_into_node-merge_row,
}
use rust_proxy.ControlPlane.Service.Beat.{
  IsTyped, beaten, in_state, row_into_node-heartbeat_row, row_into_node-with_status,
}
use rust_proxy.ControlPlane.Api.{validate_register, is_blank, bad_request, Status}
use rust_proxy.ControlPlane.System.{Fits, IsInstant, Reachable, initially, registered, beat, moved}

-- A node that the crate can work with: its strings are given, its limits are not zero, and its numbers
-- fit their Rust types.
pub record IsValidNode (n : Node) : Type 0 where
  pub id_given : is_blank n.id ≡ false
  pub address_given : is_blank n.address ≡ false
  pub some_connections : 1 ≤ n.max_connections
  pub connections_fit : n.max_connections < 2 ^ 32
  pub some_bandwidth : 1 ≤ n.bandwidth_limit
  pub limit_fits : n.bandwidth_limit < 2 ^ 64
  pub active_fits : n.active_connections < 2 ^ 32
  pub up_fits : n.bytes_up < 2 ^ 64
  pub down_fits : n.bytes_down < 2 ^ 64
  pub latency_fits : n.latency_ms < 2 ^ 32

-- What a registration that passes has.
abbrev Checked : RegisterRequest → Type 0
Checked req =
    (is_blank req.node_id ≡ false)
    × (is_blank req.address ≡ false)
    × (1 ≤ req.max_connections)
    × (1 ≤ req.bandwidth_limit)

validate_register-Checked : (req : RegisterRequest) → validate_register req ≡ ok tt → Checked req
unfolding validate_register
validate_register-Checked req h =
    checks (is_blank req.node_id) (is_blank req.address) req.max_connections req.bandwidth_limit h
  where
    checks :
        (b c : Bool) (m k : ℕ)
        → ◌≡◌ {A = Result Status (Unit {0})}
            (if b
              then err bad_request
              else if c
              then err bad_request
              else if m == 0
              then err bad_request
              else if k == 0
              then err bad_request
              else ok tt)
            (ok tt)
        → (b ≡ false) × (c ≡ false) × (1 ≤ m) × (1 ≤ k)
    checks b c m k h = ground arith

module _ (p : Platform) where
  -- A row that decodes to such a node.
  abbrev pub IsSound : Row → Type 0
  IsSound r = (n : Node) × (row_into_node p r ≡ ok n) × IsValidNode n

  new_row-IsSound :
      (req : RegisterRequest) (now : ℤ)
      → validate_register req ≡ ok tt
      → Fits req
      → IsInstant p now
      → IsSound (new_row req now)
  new_row-IsSound req now h fits (u, at) =
      let (a, b, c, d) = validate_register-Checked req h in
      (
        new_node req u,
        row_into_node-new_row p req now u fits.connections_fit fits.limit_fits at,
        record {
          id_given = a;
          address_given = b;
          some_connections = c;
          connections_fit = fits.connections_fit;
          some_bandwidth = d;
          limit_fits = fits.limit_fits;
          active_fits = omega arith;
          up_fits = omega arith;
          down_fits = omega arith;
          latency_fits = omega arith;
        },
      )

  merge_row-IsSound :
      (req : RegisterRequest) (now : ℤ)
      → validate_register req ≡ ok tt
      → Fits req
      → IsInstant p now
      → (r : Row) → IsSound r
      → IsSound (merge_row req now r)
  merge_row-IsSound req now h fits (u, at) r (n, e, v) =
      let (a, b, c, d) = validate_register-Checked req h in
      (
        merged_node req u n,
        row_into_node-merge_row p req now r n u fits.connections_fit fits.limit_fits at e,
        record {
          id_given = v.id_given;
          address_given = b;
          some_connections = c;
          connections_fit = fits.connections_fit;
          some_bandwidth = d;
          limit_fits = fits.limit_fits;
          active_fits = v.active_fits;
          up_fits = v.up_fits;
          down_fits = v.down_fits;
          latency_fits = v.latency_fits;
        },
      )

  heartbeat_row-IsSound :
      (hb : Heartbeat) (now : ℤ)
      → IsTyped hb
      → IsInstant p now
      → (r : Row) → IsSound r
      → IsSound (heartbeat_row hb now r)
  heartbeat_row-IsSound hb now typed (u, at) r (n, e, v) = (
    beaten hb u n,
    row_into_node-heartbeat_row p hb now u r n typed at e,
    record {
      id_given = v.id_given;
      address_given = v.address_given;
      some_connections = v.some_connections;
      connections_fit = v.connections_fit;
      some_bandwidth = v.some_bandwidth;
      limit_fits = v.limit_fits;
      active_fits = typed.active_fits;
      up_fits = typed.up_fits;
      down_fits = typed.down_fits;
      latency_fits = typed.latency_fits;
    },
  )

  with_status-IsSound :
      (s : NodeState) (now : ℤ)
      → IsInstant p now
      → (r : Row) → IsSound r
      → IsSound (with_status (as_str s) now r)
  with_status-IsSound s now (u, at) r (n, e, v) = (
    in_state s u n,
    row_into_node-with_status p s now u r n at e,
    record {
      id_given = v.id_given;
      address_given = v.address_given;
      some_connections = v.some_connections;
      connections_fit = v.connections_fit;
      some_bandwidth = v.some_bandwidth;
      limit_fits = v.limit_fits;
      active_fits = v.active_fits;
      up_fits = v.up_fits;
      down_fits = v.down_fits;
      latency_fits = v.latency_fits;
    },
  )

  update-AllSound :
      (id : String) (f : Row → Row) (rows : List Row)
      → ((r : Row) → IsSound r → IsSound (f r))
      → All IsSound rows
      → All IsSound (update id f rows)
  unfolding update
  update-AllSound id f [] change h = tt
  update-AllSound id f (r ∷ rows) change (h, hs) = elim (Bool-cases (str_eq r.id id)) [
    | inl e ↦ rw e (change r h, update-AllSound id f rows change hs)
    | inr e ↦ rw e (h, update-AllSound id f rows change hs)
  ]

  append-AllSound :
      (rows : List Row) (r : Row) → All IsSound rows → IsSound r → All IsSound (rows ++ (r ∷ []))
  append-AllSound [] r h s = (s, tt)
  append-AllSound (q ∷ rows) r (h, hs) s = (h, append-AllSound rows r hs s)

  upsert-AllSound :
      (req : RegisterRequest) (now : ℤ) (rows : List Row)
      → validate_register req ≡ ok tt
      → Fits req
      → IsInstant p now
      → All IsSound rows
      → All IsSound (upsert req now rows)
  upsert-AllSound req now rows h fits at hs = elim (Option-cases (find req.node_id rows)) [
    | inl e ↦
        rw (upsert_new req now rows e)
          (append-AllSound rows (new_row req now) hs (new_row-IsSound req now h fits at))
    | inr (old, e) ↦ rw (upsert_old req now rows old e) (
        update-AllSound req.node_id (merge_row req now) rows (merge_row-IsSound req now h fits at)
          hs)
  ]

  -- Whatever checked registrations, typed heartbeats, drains, changes of state and sweeps, at times that
  -- are instants, have written a table that was empty: its ids are distinct, and each row decodes to a
  -- node with an id, an address and limits above zero, whose numbers fit their Rust types.
  pub Reachable-Sound : (rows : List Row) → Reachable p rows → Keyed rows × All IsSound rows
  unfolding heartbeat_row
  Reachable-Sound _ initially = (tt, tt)
  Reachable-Sound _ (registered req now rows h fits at r) =
      let (k, s) = Reachable-Sound rows r in
      (upsert-Keyed req now rows k, upsert-AllSound req now rows h fits at s)
  Reachable-Sound _ (beat hb now rows typed at r) =
      let (k, s) = Reachable-Sound rows r in
      (
        update-Keyed hb.node_id (heartbeat_row hb now) rows (λ _. refl) k,
        update-AllSound hb.node_id (heartbeat_row hb now) rows
            (heartbeat_row-IsSound hb now typed at) s,
      )
  Reachable-Sound _ (moved id state now rows at r) =
      let (k, s) = Reachable-Sound rows r in
      (
        update-Keyed id (with_status (as_str state) now) rows (λ _. refl) k,
        update-AllSound id (with_status (as_str state) now) rows (with_status-IsSound state now at)
            s,
      )
