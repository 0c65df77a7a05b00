-- ===== src/ControlPlane/Service/Reserve/First.antt =====
-- The loop over the candidates of `select_with_bandwidth`, in crates/control-plane/src/service.rs.
use rust_proxy.Base.{
  ℕ, ◌≡◌, ◌≢◌, ◌⊎◌, refl, sym, subst, ap, ◌∙◌, inl, inr, String, Option, none, some, List, [], ◌∷◌,
  ◌++◌, All, All-map, All-zip, str_eq, eq_iff, if◌then◌else◌, Bool-cases, Option-cases,
}
use rust_proxy.ControlPlane.Model.{Node}
use rust_proxy.ControlPlane.Bandwidth.{BandwidthAllocator, BandwidthGuard, new, try_reserve}
use rust_proxy.ControlPlane.Service.Reserve.{
  SelectedNode, Allocators, lookup, put, allocator, share, reserve_first,
}
use rust_proxy.ControlPlane.Service.Reserve.Sorted.{Pairwise}

-- What a reservation on a node comes to.
abbrev pub room : Allocators → Node → Option (BandwidthAllocator × BandwidthGuard)
room map n = try_reserve (allocator n.id n.bandwidth_limit map).0 (share n)

abbrev pub Apart : Node → Node → Type 0
Apart a b = a.id ≢ b.id

lookup-put-other :
    (id other : String) (b : BandwidthAllocator) (map : Allocators)
    → id ≢ other
    → lookup other (put id b map) ≡ lookup other map
unfolding lookup put
lookup-put-other id other b [] ne = elim (Bool-cases (str_eq id other)) [
  | inl e ↦ absurd (ne ((eq_iff id other).0 e))
  | inr e ↦ rw e refl
]
lookup-put-other id other b ((k, a) ∷ rest) ne = elim (Bool-cases (str_eq k id)) [
  | inl e ↦ elim (Bool-cases (str_eq k other)) [
    | inl e' ↦ absurd (ne (sym ((eq_iff k id).0 e) ∙ (eq_iff k other).0 e'))
    | inr e' ↦ rw e (rw e' refl)
  ]
  | inr e ↦
      rw e (
        ap (λ found. if str_eq k other then some a else found)
          (lookup-put-other id other b rest ne))
]

-- The allocator of an id, by what the map has under it.
abbrev found_or_new : ℕ → Option BandwidthAllocator → BandwidthAllocator
found_or_new limit none = new limit
found_or_new limit (some a) = a

allocator-found :
    (id : String) (limit : ℕ) (map : Allocators)
    → (allocator id limit map).0 ≡ found_or_new limit (lookup id map)
unfolding allocator
allocator-found id limit map = elim (Option-cases (lookup id map)) [
  | inl e ↦ rw (allocator, e) refl
  | inr (a, e) ↦ rw (allocator, e) refl
]

-- A first look at the allocator of one node does not change the room of another.
room-other :
    (map : Allocators) (n m : Node)
    → Apart n m
    → room (allocator n.id n.bandwidth_limit map).1 m ≡ room map m
unfolding allocator
room-other map n m apart =
    ap (λ a. try_reserve a (share m))
      (allocator-found m.id m.bandwidth_limit (allocator n.id n.bandwidth_limit map).1
        ∙ ap (found_or_new m.bandwidth_limit) (looked (Option-cases (lookup n.id map)))
        ∙ sym (allocator-found m.id m.bandwidth_limit map))
  where
    looked :
        (lookup n.id map ≡ none) ⊎ ((a : BandwidthAllocator) × (lookup n.id map ≡ some a))
        → lookup m.id (allocator n.id n.bandwidth_limit map).1 ≡ lookup m.id map
    looked (inl e) =
        rw (allocator, e) (lookup-put-other n.id m.id (new n.bandwidth_limit) map apart)
    looked (inr (a, e)) = rw (allocator, e) refl

abbrev pub Refused : Allocators → Node → Type 0
Refused map n = room map n ≡ none

-- The candidates before the one that is taken are refused, and it is not.
abbrev pub Taken : List Node → Allocators → Option SelectedNode → Type 0
Taken nodes map none = All (Refused map) nodes
Taken nodes map (some s) =
    (before : List Node) × (after : List Node) × (nodes ≡ before ++ s.node ∷ after)
    × All (Refused map) before
    × (room map s.node ≢ none)

pub All-before :
    (P : Node → Type 0) (nodes before : List Node) (n : Node) (after : List Node)
    → nodes ≡ before ++ n ∷ after
    → All P nodes
    → All P before × P n × All P after
All-before P nodes before n after e h = split before (subst (All P) e h)
  where
    split : (before : List Node) → All P (before ++ n ∷ after) → All P before × P n × All P after
    split [] (h, hs) = (tt, h, hs)
    split (b ∷ before) (h, hs) = let (k, l, r) = split before hs in ((h, k), l, r)

-- One more candidate in front, which is refused.
Taken-later :
    (map : Allocators) (node : Node) (nodes : List Node) (result : Option SelectedNode)
    → Refused map node
    → All (Apart node) nodes
    → Taken nodes (allocator node.id node.bandwidth_limit map).1 result
    → Taken (node ∷ nodes) map result
Taken-later map node nodes none refused apart h = (
  refused,
  All-map (λ m (a, r). sym (room-other map node m a) ∙ r) nodes
      (All-zip (Apart node) (Refused (allocator node.id node.bandwidth_limit map).1) nodes apart h),
)
Taken-later map node nodes (some s) refused apart (before, after, e, rs, fits) =
    let (apart', here, _) = All-before (Apart node) nodes before s.node after e apart in
    (
      node ∷ before,
      after,
      ap (λ z. node ∷ z) e,
      (
        refused,
        All-map (λ m (a, r). sym (room-other map node m a) ∙ r) before
            (All-zip (Apart node) (Refused (allocator node.id node.bandwidth_limit map).1) before
              apart' rs),
      ),
      λ q. fits (room-other map node s.node here ∙ q),
    )

pub reserve_first-Taken :
    (nodes : List Node) (map : Allocators)
    → Pairwise Apart nodes
    → Taken nodes map (reserve_first nodes map).1
unfolding reserve_first
reserve_first-Taken [] map h = tt
reserve_first-Taken (node ∷ nodes) map (h, hs) =
    let map' : Allocators = (allocator node.id node.bandwidth_limit map).1 in
    candidate (room map node) refl (reserve_first-Taken nodes map' hs)
  where
    candidate :
        (o : Option (BandwidthAllocator × BandwidthGuard))
        → room map node ≡ o
        → Taken nodes
            (allocator node.id node.bandwidth_limit map).1
            (reserve_first nodes (allocator node.id node.bandwidth_limit map).1).1
        → Taken
            (node ∷ nodes)
            map
            (elim o as (λ _. Allocators × Option SelectedNode) [
              | some (alloc', guard) ↦ (
                put node.id alloc' (allocator node.id node.bandwidth_limit map).1,
                some (record { node = node; guard = guard }),
              )
              | none ↦ reserve_first nodes (allocator node.id node.bandwidth_limit map).1
            ]).1
    candidate none e later = Taken-later map node nodes _ e h later
    candidate (some (alloc', guard)) e later = ([], nodes, refl, tt, λ q. differ (sym e ∙ q))
      where
        differ : ◌≢◌ {A = Option (BandwidthAllocator × BandwidthGuard)} (some (alloc', guard)) none
        differ q = cc
