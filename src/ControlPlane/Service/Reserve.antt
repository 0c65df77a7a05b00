-- ===== src/ControlPlane/Service/Reserve.antt =====
-- crates/control-plane/src/service.rs: the map of allocators, and the choice of a node together
-- with a reservation on it.
pub mod Fits
pub mod Sorted
pub mod First
use Prim.Native.Nat.{Ordering}
use rust_proxy.Base.{
  ℕ, ◌+◌, ◌/◌, max, String, Option, none, some, List, [], ◌∷◌, str_eq, if◌then◌else◌, ok, err,
}
use rust_proxy.ControlPlane.Float.{Float}
use rust_proxy.ControlPlane.Model.{Node, is_selectable}
use rust_proxy.ControlPlane.Routing.{select_by, default_weights, compare_scores}
use rust_proxy.ControlPlane.Bandwidth.{BandwidthAllocator, BandwidthGuard, new, try_reserve}
use rust_proxy.ControlPlane.Registry as Registry
use rust_proxy.ControlPlane.Registry.{Platform, Db, Outcome}

pub record SelectedNode : Type 0 where
  pub node : Node
  pub guard : BandwidthGuard

-- `HashMap<String, BandwidthAllocator>`, a key at most once. Clones of an allocator share its counter,
-- so the counter stands in the map.
abbrev pub Allocators : Type 0
Allocators = List (String × BandwidthAllocator)

unfoldable pub lookup : String → Allocators → Option BandwidthAllocator
lookup id [] = none
lookup id ((k, a) ∷ rest) = let found = lookup id rest in if str_eq k id then some a else found

-- What an allocator's atomic counter becomes, seen from the map.
unfoldable pub put : String → BandwidthAllocator → Allocators → Allocators
put id b [] = (id, b) ∷ []
put id b ((k, a) ∷ rest) =
    let others = put id b rest in if str_eq k id then (k, b) ∷ rest else (k, a) ∷ others

-- `entry(..).or_insert_with(..)`: the limit counts only where there is no allocator yet.
unfoldable pub allocator : String → ℕ → Allocators → BandwidthAllocator × Allocators
unfolding lookup put new
allocator node_id limit map = elim (lookup node_id map) [
  | some a ↦ (a, map)
  | none ↦ (new limit, put node_id (new limit) map)
]

-- The rate of one connection on the node.
unfoldable pub share : Node → ℕ
share node = max (node.bandwidth_limit / max node.max_connections 1) 1

-- The loop over the candidates.
unfoldable pub reserve_first : List Node → Allocators → Allocators × Option SelectedNode
unfolding allocator share
reserve_first [] map = (map, none)
reserve_first (node ∷ nodes) map =
    let (alloc, map') = allocator node.id node.bandwidth_limit map in
    let later = reserve_first nodes map' in
    elim (try_reserve alloc (share node)) [
      | some (alloc', guard) ↦
          (put node.id alloc' map', some (record { node = node; guard = guard }))
      | none ↦ later
    ]

-- The stable sort, `slice::sort_by`, as an insertion sort.
unfoldable pub insert_by {ℓ} : {A : Type ℓ} → (A → A → Ordering) → A → List A → List A
insert_by cmp x [] = x ∷ []
insert_by cmp x (y ∷ ys) =
    let rest = insert_by cmp x ys in elim (cmp x y) [ Ordering.gt ↦ y ∷ rest | _ ↦ x ∷ y ∷ ys ]

unfoldable pub sort_by {ℓ} : {A : Type ℓ} → (A → A → Ordering) → List A → List A
unfolding insert_by
sort_by cmp [] = []
sort_by cmp (x ∷ xs) = insert_by cmp x (sort_by cmp xs)

-- The table and the allocators.
pub record Service : Type 0 where
  pub db : Db
  pub allocators : Allocators

unfoldable pub select_with_bandwidth :
    (float : Float) → Platform → Service → Service × Outcome (Option SelectedNode)
unfolding reserve_first sort_by
select_with_bandwidth float p s =
    let (db, listed) = Registry.list p s.db in
    elim listed [
      | err e ↦ (record { db = db; allocators = s.allocators }, err e)
      | ok nodes ↦
          (let by_score = λ (a b : Node). compare_scores float (default_weights float) b a in
            let eligible = sort_by by_score (select_by is_selectable nodes) in
            let (allocators, found) = reserve_first eligible s.allocators in
            (record { db = db; allocators = allocators }, ok found))
    ]
