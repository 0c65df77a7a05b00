-- ===== src/ControlPlane/Routing.antt =====
-- crates/control-plane/src/routing.rs: the score of a node and the selector.
pub mod Best
pub mod Eligible
use Prim.Native.Nat.{Ordering}
use rust_proxy.Base.{ℕ, Bool, true, false, Option, none, some, List, [], ◌∷◌, ◌==◌, if◌then◌else◌}
use rust_proxy.ControlPlane.Float.{Float}
use rust_proxy.ControlPlane.Model.{
  NodeState, starting, healthy, degraded, draining, offline, Node, is_selectable,
  available_capacity, bandwidth_utilization,
}

pub record ScoreWeights (F : Type 0) : Type 0 where
  pub health : F
  pub capacity : F
  pub latency : F
  pub bandwidth : F

-- `Iterator::filter`
unfoldable pub select_by {ℓ} : {A : Type ℓ} → (A → Bool) → List A → List A
select_by p [] = []
select_by p (x ∷ xs) = let rest = select_by p xs in if p x then x ∷ rest else rest

-- `Iterator::max_by` keeps the element so far only where it compares greater.
pub keep_max {ℓ} : {A : Type ℓ} → (A → A → Ordering) → A → List A → A
keep_max cmp best [] = best
keep_max cmp best (x ∷ xs) = keep_max cmp (elim (cmp best x) [ Ordering.gt ↦ best | _ ↦ x ]) xs

unfoldable pub max_by {ℓ} : {A : Type ℓ} → (A → A → Ordering) → List A → Option A
unfolding keep_max
max_by cmp [] = none
max_by cmp (x ∷ xs) = some (keep_max cmp x xs)

-- `unwrap_or(Ordering::Equal)`
abbrev pub or_equal : Option Ordering → Ordering
or_equal none = Ordering.eq
or_equal (some o) = o

module _ (float : Float) where
  open float use {F, of_int, zero_point, half, one, hundred, add, sub, mul, div, partial_cmp}

  unfoldable pub default_weights : ScoreWeights F
  default_weights = record { health = hundred; capacity = one; latency = one; bandwidth = one }

  unfoldable pub health_factor : NodeState → F
  health_factor healthy = one
  health_factor degraded = half
  health_factor _ = zero_point

  unfoldable pub capacity_factor : Node → F
  unfolding available_capacity
  capacity_factor n =
      if n.max_connections == 0
      then zero_point
      else div (of_int (available_capacity n)) (of_int n.max_connections)

  unfoldable pub latency_factor : ℕ → F
  latency_factor latency_ms = div one (add one (of_int latency_ms))

  unfoldable pub bandwidth_factor : Node → F
  unfolding bandwidth_utilization
  bandwidth_factor n = sub one (bandwidth_utilization float n)

  unfoldable pub score : Node → ScoreWeights F → F
  unfolding is_selectable health_factor capacity_factor latency_factor bandwidth_factor
  score n w =
      if is_selectable n
      then mul
          (mul
            (mul (mul w.health (health_factor n.state))
              (add one (mul w.capacity (capacity_factor n))))
            (add one (mul w.latency (latency_factor n.latency_ms))))
          (add one (mul w.bandwidth (bandwidth_factor n)))
      else zero_point

  -- How the selector compares two nodes.
  unfoldable pub compare_scores : ScoreWeights F → Node → Node → Ordering
  compare_scores w a b = or_equal (partial_cmp (score a w) (score b w))

  unfoldable pub select : ScoreWeights F → List Node → Option Node
  unfolding max_by select_by compare_scores
  select w nodes = max_by (compare_scores w) (select_by is_selectable nodes)
