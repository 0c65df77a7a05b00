-- ===== src/ControlPlane/Service/Reserve/Fits.antt =====
-- The counters of the allocators under `select_with_bandwidth`, in
-- crates/control-plane/src/service.rs.
use Prim.Native.Nat.{Ordering}
use rust_proxy.Base.{
  All-map, ℕ, ◌^◌, ◌≤◌, ◌<◌, ◌≡◌, refl, sym, subst, inl, inr, String, Bool, true, false, Option,
  none, some, List, [], ◌∷◌, All, str_eq, if◌then◌else◌, ok, err, Bool-cases, Option-cases, eq_iff,
  arith,
}
use rust_proxy.Base.Int.{ℤ, pos, negsuc, as_u64}
use rust_proxy.ControlPlane.Float.{Float}
use rust_proxy.ControlPlane.Model.{Node, is_selectable}
use rust_proxy.ControlPlane.Routing.{select_by, default_weights, compare_scores}
use rust_proxy.ControlPlane.Routing.Eligible.{select_by-All}
use rust_proxy.ControlPlane.Service.Reserve.Sorted.{sort_by-All}
use rust_proxy.ControlPlane.Bandwidth.{BandwidthAllocator, BandwidthGuard, new, try_reserve}
use rust_proxy.ControlPlane.Bandwidth.Reservations.{try_reserve-fits}
use rust_proxy.ControlPlane.Registry.{
  Row, Platform, Db, Outcome, collect, row_into_node, order_by_id, list, statement,
}
use rust_proxy.ControlPlane.Registry.Register.{and_then-eq-ok, ok-injective, row_into_node-eq-ok}
use rust_proxy.ControlPlane.Service.Reserve.{
  SelectedNode, Allocators, lookup, put, allocator, share, reserve_first, sort_by, Service,
  select_with_bandwidth,
}

-- The counter is within the limit, a 64-bit number.
abbrev pub Fits : BandwidthAllocator → Type 0
Fits a = (a.reserved ≤ a.limit) × (a.limit < 2 ^ 64)

abbrev pub AllFit : Allocators → Type 0
AllFit map = All (λ (entry : String × BandwidthAllocator). Fits entry.1) map

lookup-Fits :
    (id : String) (map : Allocators) (a : BandwidthAllocator)
    → AllFit map
    → lookup id map ≡ some a
    → Fits a
unfolding lookup
lookup-Fits id [] a all e = cc
lookup-Fits id ((k, b) ∷ rest) a (f, all) e = elim (Bool-cases (str_eq k id)) [
  | inl q ↦ subst Fits (first k b a (str_eq k id) (lookup id rest) q e) f
  | inr q ↦ lookup-Fits id rest a all (later b a (str_eq k id) (lookup id rest) q e)
]
  where
    first :
        (k : String) (b a : BandwidthAllocator) (t : Bool) (o : Option BandwidthAllocator)
        → t ≡ true
        → (if t then some b else o) ≡ some a
        → b ≡ a
    first k b a true o q e = cc
    first k b a false o q e = cc

    later :
        (b a : BandwidthAllocator) (t : Bool) (o : Option BandwidthAllocator)
        → t ≡ false
        → (if t then some b else o) ≡ some a
        → o ≡ some a
    later b a true o q e = cc
    later b a false o q e = e

put-AllFit :
    (id : String) (b : BandwidthAllocator) (map : Allocators)
    → Fits b
    → AllFit map
    → AllFit (put id b map)
unfolding put
put-AllFit id b [] fb all = (fb, tt)
put-AllFit id b ((k, a) ∷ rest) fb (fa, all) = elim (Bool-cases (str_eq k id)) [
  | inl q ↦ rw q (fb, all)
  | inr q ↦ rw q (fa, put-AllFit id b rest fb all)
]

lookup-put :
    (id : String) (b : BandwidthAllocator) (map : Allocators) → lookup id (put id b map) ≡ some b
unfolding lookup put
lookup-put id b [] = rw ((eq_iff id id).1 refl) refl
lookup-put id b ((k, a) ∷ rest) = elim (Bool-cases (str_eq k id)) [
  | inl q ↦ rw (q, q) refl
  | inr q ↦ rw (q, q) (lookup-put id b rest)
]

new-Fits : (limit : ℕ) → limit < 2 ^ 64 → Fits (new limit)
unfolding new
new-Fits limit small = (omega arith, small)

allocator-AllFit :
    (id : String) (limit : ℕ) (map : Allocators)
    → limit < 2 ^ 64
    → AllFit map
    → Fits (allocator id limit map).0 × AllFit (allocator id limit map).1
unfolding allocator
allocator-AllFit id limit map small all = elim (Option-cases (lookup id map)) [
  | inl e ↦
      rw (allocator, e)
        (new-Fits limit small, put-AllFit id (new limit) map (new-Fits limit small) all)
  | inr (a, e) ↦ rw (allocator, e) (lookup-Fits id map a all e, all)
]

-- What a candidate list and a map lead to: the reservation found is for a candidate `P`, at its
-- share, and the counter of its allocator has it.
abbrev pub Found {κ} : (Node → Type κ) → Allocators × Option SelectedNode → Type κ
Found P (map, none) = Unit
Found P (map, some s) =
    P s.node
    × (s.guard.rate ≡ share s.node)
    × (b : BandwidthAllocator) × (lookup s.node.id map ≡ some b)
    × (s.guard.rate ≤ b.reserved)

try_reserve-Fits :
    (a : BandwidthAllocator) (rate : ℕ) (b : BandwidthAllocator) (g : BandwidthGuard)
    → Fits a
    → try_reserve a rate ≡ some (b, g)
    → Fits b × (g.rate ≡ rate) × (rate ≤ b.reserved)
try_reserve-Fits a rate b g (le, small) e =
    let (r, l, c, _, le', _) = (try_reserve-fits a rate small le).1 b g e in
    ((le', omega (arith, l)), r, omega (arith, c))

abbrev Kept {κ} : (Node → Type κ) → Allocators × Option SelectedNode → Type κ
Kept P r = AllFit r.0 × Found P r

-- One candidate, with what its reservation returns.
candidate-Kept {κ} :
    (P : Node → Type κ) (node : Node) (alloc : BandwidthAllocator) (map : Allocators)
    (later : Allocators × Option SelectedNode)
    → P node
    → Fits alloc
    → AllFit map
    → Kept P later
    → (o : Option (BandwidthAllocator × BandwidthGuard)) → try_reserve alloc (share node) ≡ o
    → Kept P (elim o as (λ _. Allocators × Option SelectedNode) [
      | some (alloc', guard) ↦
          (put node.id alloc' map, some (record { node = node; guard = guard }))
      | none ↦ later
    ])
candidate-Kept P node alloc map later pn fits all kept none e = kept
candidate-Kept P node alloc map later pn fits all kept (some (b, g)) e =
    let (fb, r, le) = try_reserve-Fits alloc (share node) b g fits e in
    (put-AllFit node.id b map fb all, (pn, r, b, lookup-put node.id b map, omega (arith, r, le)))

reserve_first-Kept {κ} :
    (P : Node → Type κ) (nodes : List Node) (map : Allocators)
    → All (λ n. P n × (n.bandwidth_limit < 2 ^ 64)) nodes
    → AllFit map
    → Kept P (reserve_first nodes map)
unfolding reserve_first
reserve_first-Kept P [] map ps all = (all, tt)
reserve_first-Kept P (node ∷ nodes) map ((pn, small), ps) all =
    let (fits, all') = allocator-AllFit node.id node.bandwidth_limit map small all in
    let map' : Allocators = (allocator node.id node.bandwidth_limit map).1 in
    candidate-Kept P node _ map' _ pn fits all' (reserve_first-Kept P nodes map' ps all') _ refl

as_u64_small : (z : ℤ) → as_u64 z < 2 ^ 64
as_u64_small (pos n) = omega arith
as_u64_small (negsuc n) = omega arith

-- The limits that the table gives are 64-bit numbers, whatever it stores.
abbrev Limited : Node → Type 0
Limited n = n.bandwidth_limit < 2 ^ 64

row_into_node-Limited : (p : Platform) (r : Row) (n : Node) → row_into_node p r ≡ ok n → Limited n
row_into_node-Limited p r n e =
    let (s, a, u, d, c, t, _, h) = row_into_node-eq-ok p r n e in
    subst Limited (sym h) (as_u64_small r.bandwidth_limit)

collect-Limited :
    (p : Platform) (rows : List Row) (nodes : List Node)
    → collect p rows ≡ ok nodes
    → All Limited nodes
unfolding collect
collect-Limited p [] nodes e = subst (All Limited) (ok-injective [] nodes e) tt
collect-Limited p (r ∷ rows) nodes e =
    let (n, e1, h1) = and_then-eq-ok (row_into_node p r) _ nodes e in
    let (ns, e2, h2) = and_then-eq-ok (collect p rows) _ nodes h1 in
    subst (All Limited) (ok-injective _ _ h2)
      (row_into_node-Limited p r n e1, collect-Limited p rows ns e2)

listed-Limited :
    (p : Platform) (rows : List Row) (schedule : List (Option ℤ)) (nodes : List Node)
    → (list p (record { rows = rows; schedule = schedule })).1 ≡ ok nodes
    → All Limited nodes
unfolding list statement
listed-Limited p rows [] nodes e = cc
listed-Limited p rows (none ∷ rest) nodes e = cc
listed-Limited p rows (some now ∷ rest) nodes e = collect-Limited p (order_by_id p rows) nodes e

list-Limited :
    (p : Platform) (db : Db) (nodes : List Node) → (list p db).1 ≡ ok nodes → All Limited nodes
list-Limited p db nodes e = listed-Limited p db.rows db.schedule nodes e

-- What the result of a selection is to satisfy.
abbrev pub Reserved : Service × Outcome (Option SelectedNode) → Type 0
Reserved (s, r) =
    AllFit s.allocators
    × ((sel : SelectedNode)
        → r ≡ ok (some sel)
        → (is_selectable sel.node ≡ true)
          × (sel.guard.rate ≡ share sel.node)
          × (b : BandwidthAllocator) × (lookup sel.node.id s.allocators ≡ some b)
          × (sel.guard.rate ≤ b.reserved))

Kept-Reserved :
    (db : Db) (r : Allocators × Option SelectedNode)
    → Kept (λ n. is_selectable n ≡ true) r
    → Reserved (record { db = db; allocators = r.0 }, ok r.1)
Kept-Reserved db (map, none) (all, f) = (all, λ sel e. cc)
Kept-Reserved db (map, some found) (all, f) = (
  all,
  λ sel e. subst (λ z. Found (λ n. is_selectable n ≡ true) (map, some z)) (same found sel e) f,
)
  where
    same :
        (a b : SelectedNode)
        → ◌≡◌ {A = Outcome (Option SelectedNode)} (ok (some a)) (ok (some b))
        → a ≡ b
    same a b e = cc

-- If every counter is within its allocator's limit, a 64-bit number, then so it is after a selection
-- with bandwidth, whether it finds a node or not and also if the table cannot be read. A node found is
-- selectable, its guard is for the share of one of its connection slots, and the
-- counter of the node's allocator contains that share.
pub select_with_bandwidth-AllFit :
    (float : Float) (p : Platform) (s : Service)
    → AllFit s.allocators
    → Reserved (select_with_bandwidth float p s)
unfolding select_with_bandwidth
select_with_bandwidth-AllFit float p s all =
    listed (list p s.db).0 (list p s.db).1 (list-Limited p s.db)
  where
    by_score : Node → Node → Ordering
    by_score a b = compare_scores float (default_weights float) b a

    eligible : List Node → List Node
    eligible nodes = sort_by by_score (select_by is_selectable nodes)

    listed :
        (db : Db) (r : Outcome (List Node))
        → ((nodes : List Node) → r ≡ ok nodes → All Limited nodes)
        → Reserved (elim r as (λ _. Service × Outcome (Option SelectedNode)) [
          | err e ↦ (record { db = db; allocators = s.allocators }, err e)
          | ok nodes ↦ (
            record { db = db; allocators = (reserve_first (eligible nodes) s.allocators).0 },
            ok (reserve_first (eligible nodes) s.allocators).1,
          )
        ])
    listed db (err e) limited = (all, λ sel h. cc)
    listed db (ok nodes) limited = Kept-Reserved db (reserve_first (eligible nodes) s.allocators) (
        reserve_first-Kept (λ n. is_selectable n ≡ true) (eligible nodes) s.allocators
          (sort_by-All by_score _ (select_by is_selectable nodes) (
            All-map (λ n (limit, able). (able, limit)) (select_by is_selectable nodes)
              (select_by-All Limited is_selectable nodes (limited nodes refl))))
          all)
