-- ===== src/ControlPlane/System/Handlers.antt =====
-- The handlers and the sweep as steps between reachable tables.
use rust_proxy.Base.{
  ℕ, ◌+◌, ◌≡◌, refl, inl, inr, String, Bool, true, false, ◌&&◌, Option, none, some, List, [], ◌∷◌,
  if◌then◌else◌, Result, ok, err, Bool-cases,
}
use rust_proxy.Base.Int.{ℤ}
use rust_proxy.ControlPlane.Float.{Float}
use rust_proxy.ControlPlane.Model.{NodeState, as_str, draining, offline, DateTime, Node}
use rust_proxy.ControlPlane.Health.{HealthPolicy, is_stale}
use rust_proxy.ControlPlane.Registry as Registry
use rust_proxy.ControlPlane.Registry.{
  Row, Heartbeat, RegisterRequest, Platform, Db, Outcome, statement, node_disappeared, transpose,
  find, collect, order_by_id, upsert, update, heartbeat_row, with_status, apply_heartbeat,
  set_draining, mark_offline, set_state,
}
use rust_proxy.ControlPlane.Service as Service
use rust_proxy.ControlPlane.Service.{
  Op, ◌>>=◌, ◌>>◌, pure, fail, state_eq, live, sweep, mark_stale_offline,
}
use rust_proxy.ControlPlane.Service.Beat.{IsTyped}
use rust_proxy.ControlPlane.Api.{
  Auth, Status, HeaderMap, authorize, validate_register, validate_heartbeat, Handler, guarded,
  answer, register_node, heartbeat_node, drain_node,
}
use rust_proxy.ControlPlane.Server.{Turn, cancelled, ticked, health_sweep}
use rust_proxy.ControlPlane.System.{Fits, IsInstant, Timely, Reachable, registered, beat, moved}

-- A heartbeat is sent under the id of its path.
pub named : (id : String) (hb : Heartbeat) → IsTyped hb → IsTyped (record hb { node_id = id })
named id hb typed = record {
  active_fits = typed.active_fits;
  up_fits = typed.up_fits;
  down_fits = typed.down_fits;
  latency_fits = typed.latency_fits;
}

module _ (p : Platform) where
  -- A reachable table with statements to come at instants.
  abbrev Kept : Db → Type 0
  Kept db = Reachable p db.rows × Timely p db.schedule

  -- An operation that keeps them so.
  record Keeps {A : Type 0} (op : Op A) : Type 0 where
    keeps : (db : Db) → Kept db → Kept (op db).0

  statement-Keeps :
      {A : Type 0} (f : ℤ → List Row → List Row × Outcome A)
      → ((now : ℤ) (rows : List Row)
          → IsInstant p now
          → Reachable p rows
          → Reachable p (f now rows).0)
      → (rows : List Row) (schedule : List (Option ℤ)) → Reachable p rows
      → Timely p schedule
      → Kept (statement f (record { rows = rows; schedule = schedule })).0
  unfolding statement
  statement-Keeps f h rows [] r t = (r, tt)
  statement-Keeps f h rows (none ∷ rest) r (_, ts) = (r, ts)
  statement-Keeps f h rows (some now ∷ rest) r (t, ts) = (h now rows t r, ts)

  read-Keeps :
      {A : Type 0} (out : List Row → Outcome A) → Keeps (statement λ now rows. (rows, out rows))
  read-Keeps out = record {
    keeps = λ db (r, t).
        statement-Keeps (λ now rows. (rows, out rows)) (λ now rows at h. h) db.rows db.schedule r t;
  }

  write-Keeps :
      (g : ℤ → List Row → List Row)
      → ((now : ℤ) (rows : List Row)
          → IsInstant p now
          → Reachable p rows
          → Reachable p (g now rows))
      → Keeps (statement λ now rows. (g now rows, ok tt))
  write-Keeps g h = record {
    keeps =
        λ db (r, t). statement-Keeps (λ now rows. (g now rows, ok tt)) h db.rows db.schedule r t;
  }

  bind-Keeps :
      {A B : Type 0} (m : Op A) (f : A → Op B) → Keeps m → ((a : A) → Keeps (f a)) → Keeps (m >>= f)
  bind-Keeps {A = A} m f hm hf = record { keeps = λ db k. rest (m db) (hm.keeps db k) }
    where
      rest : (r : Db × Outcome A) → Kept r.0 → Kept (Service.and_then f r).0
      rest (db', ok a) k' = (hf a).keeps db' k'
      rest (db', err e) k' = k'

  pure-Keeps : {A : Type 0} (a : A) → Keeps (pure a)
  pure-Keeps a = record { keeps = λ db k. k }

  get-Keeps : (id : String) → Keeps (Registry.get p id)
  unfolding Registry.get
  get-Keeps id = read-Keeps (λ rows. transpose p (find id rows))

  list-Keeps : Keeps (Registry.list p)
  unfolding Registry.list
  list-Keeps = read-Keeps (λ rows. collect p (order_by_id p rows))

  register-Keeps :
      (req : RegisterRequest)
      → validate_register req ≡ ok tt
      → Fits req
      → Keeps (Registry.register req)
  unfolding Registry.register
  register-Keeps req valid fits =
      write-Keeps (upsert req) (λ now rows at h. registered req now rows valid fits at h)

  apply_heartbeat-Keeps : (hb : Heartbeat) → IsTyped hb → Keeps (apply_heartbeat hb)
  unfolding apply_heartbeat
  apply_heartbeat-Keeps hb typed =
      write-Keeps (λ now. update hb.node_id (heartbeat_row hb now))
        (λ now rows at h. beat hb now rows typed at h)

  moved-Keeps :
      (id : String) (s : NodeState)
      → Keeps (statement λ now rows. (update id (with_status (as_str s) now) rows, ok tt))
  moved-Keeps id s =
      write-Keeps (λ now. update id (with_status (as_str s) now))
        (λ now rows at h. moved id s now rows at h)

  set_state-Keeps : (id : String) (s : NodeState) → Keeps (set_state id s)
  unfolding set_state
  set_state-Keeps id s = moved-Keeps id s

  set_draining-Keeps : (id : String) → Keeps (set_draining id)
  unfolding set_draining as_str
  set_draining-Keeps id = moved-Keeps id draining

  mark_offline-Keeps : (id : String) → Keeps (mark_offline id)
  unfolding mark_offline as_str
  mark_offline-Keeps id = moved-Keeps id offline

  option-Keeps :
      {A B : Type 0} (o : Option A) (m : Op B) (f : A → Op B)
      → Keeps m
      → ((a : A) → Keeps (f a))
      → Keeps (elim o as (λ _. Op B) [ none ↦ m | some a ↦ f a ])
  option-Keeps none m f hm hf = hm
  option-Keeps (some a) m f hm hf = hf a

  service_register-Keeps :
      (req : RegisterRequest)
      → validate_register req ≡ ok tt
      → Fits req
      → Keeps (Service.register p req)
  unfolding Service.register
  service_register-Keeps req valid fits = bind-Keeps _ _ (register-Keeps req valid fits) (λ _.
      bind-Keeps _ _ (get-Keeps req.node_id)
        (λ found. option-Keeps found _ _ (record { keeps = λ db k. k }) pure-Keeps))

  drain-Keeps : (id : String) → Keeps (Service.drain p id)
  unfolding Service.drain
  drain-Keeps id = bind-Keeps _ _ (set_draining-Keeps id) (λ _. get-Keeps id)

  answer-Kept :
      {A B : Type 0} (f : A → Result Status B) (r : Db × Outcome A) → Kept r.0 → Kept (answer f r).0
  answer-Kept f (db, ok a) k = k
  answer-Kept f (db, err e) k = k

  guarded-Kept :
      {A : Type 0} (check : Result Status (Unit {0})) (h : Handler A) (db : Db)
      → Kept db
      → (check ≡ ok tt → Kept (h db).0)
      → Kept (guarded check h db).0
  guarded-Kept (ok _) h db k keeps = keeps refl
  guarded-Kept (err s) h db k keeps = k

  module _ (float : Float) (policy : HealthPolicy (float.F)) where
    reclassified-Keeps :
        (id : String) (b : Bool) (s : NodeState) → Keeps (if b then set_state id s else pure tt)
    reclassified-Keeps id true s = set_state-Keeps id s
    reclassified-Keeps id false s = pure-Keeps tt

    beat-Keeps : (hb : Heartbeat) → IsTyped hb → Keeps (Service.heartbeat float p policy hb)
    unfolding Service.heartbeat
    beat-Keeps hb typed = bind-Keeps _ _ (get-Keeps hb.node_id) (λ found.
        option-Keeps found _ _ (pure-Keeps tt) (λ n.
          bind-Keeps _ _ (apply_heartbeat-Keeps hb typed) (λ _.
            bind-Keeps _ _ (reclassified-Keeps hb.node_id _ _)
              (λ _. bind-Keeps _ _ (get-Keeps hb.node_id) (λ _. pure-Keeps tt)))))

    sweep-Keeps :
        (now : DateTime) (nodes : List Node) (marked : ℕ)
        → Keeps (sweep float now policy nodes marked)
    unfolding sweep
    sweep-Keeps now [] marked = pure-Keeps marked
    sweep-Keeps now (n ∷ nodes) marked =
        elim (Bool-cases (live n.state && is_stale float n.last_heartbeat now policy)) [
          | inl e ↦
              rw e
                (bind-Keeps _ _ (mark_offline-Keeps n.id) (λ _. sweep-Keeps now nodes (marked + 1)))
          | inr e ↦ rw e (sweep-Keeps now nodes marked)
        ]

    mark_stale_offline-Keeps : (now : DateTime) → Keeps (mark_stale_offline float p policy now)
    unfolding mark_stale_offline
    mark_stale_offline-Keeps now = bind-Keeps _ _ list-Keeps (λ nodes. sweep-Keeps now nodes 0)

    health_sweep-Kept :
        (turns : List Turn) (db : Db) → Kept db → Kept (health_sweep float p policy turns db)
    unfolding health_sweep
    health_sweep-Kept [] db k = k
    health_sweep-Kept (cancelled ∷ turns) db k = k
    health_sweep-Kept (ticked now ∷ turns) db k =
        health_sweep-Kept turns (mark_stale_offline float p policy now db).0
          ((mark_stale_offline-Keeps now).keeps db k)

    pub heartbeat-Reachable :
        (auth : Auth) (headers : HeaderMap) (id : String) (hb : Heartbeat) (db : Db)
        → IsTyped hb
        → Reachable p db.rows
        → Timely p db.schedule
        → Reachable p (heartbeat_node float p policy auth headers id hb db).0.rows
    unfolding heartbeat_node
    heartbeat-Reachable auth headers id hb db typed r t =
        (guarded-Kept (authorize headers auth) _ db (r, t)
          (λ _.
            guarded-Kept (validate_heartbeat (record hb { node_id = id })) _ db (r, t)
              (λ _.
                answer-Kept _ (Service.heartbeat float p policy (record hb { node_id = id }) db) (
                  (beat-Keeps (record hb { node_id = id }) (named id hb typed)).keeps db
                    (r, t))))).0

    -- On a reachable table with statements to come at instants, a typed registration, a typed heartbeat and
    -- a drain, whether they are authorized and valid or not, and the task that sweeps, for any number of
    -- turns, leave a reachable table, wherever a statement fails.
    pub handlers-Reachable :
        (auth : Auth) (headers : HeaderMap) (id : String) (req : RegisterRequest) (hb : Heartbeat)
        (turns : List Turn) (db : Db)
        → Fits req
        → IsTyped hb
        → Reachable p db.rows
        → Timely p db.schedule
        → Reachable p (register_node p auth headers req db).0.rows
          × Reachable p (heartbeat_node float p policy auth headers id hb db).0.rows
          × Reachable p (drain_node p auth headers id db).0.rows
          × Reachable p (health_sweep float p policy turns db).rows
    unfolding register_node heartbeat_node drain_node
    handlers-Reachable auth headers id req hb turns db fits typed r t = (
      (guarded-Kept (authorize headers auth) _ db (r, t)
          (λ _.
            guarded-Kept (validate_register req) _ db (r, t)
              (λ valid.
                answer-Kept _ (Service.register p req db)
                  ((service_register-Keeps req valid fits).keeps db (r, t))))).0,
      heartbeat-Reachable auth headers id hb db typed r t,
      (guarded-Kept (authorize headers auth) _ db (r, t)
          (λ _. answer-Kept _ (Service.drain p id db) ((drain-Keeps id).keeps db (r, t)))).0,
      (health_sweep-Kept turns db (r, t)).0,
    )
