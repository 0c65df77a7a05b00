-- ===== src/Metrics.antt =====
-- What a task asks of the metrics library, of which crates/gateway/src/metrics.rs and
-- crates/node/src/metrics.rs use counters and gauges that move by one, and any number of tasks that ask in
-- any order.
pub mod Balance
pub mod Exact
mod Tests
use rust_proxy.Base.{
  ℕ, ◌+◌, ◌-◌, ◌==◌, not, ◌&&◌, String, Bool, List, [], ◌∷◌, ◌++◌, str_eq, if◌then◌else◌, total,
}

pub data Call : Type 0 where
  increment_counter : (name : String) → (n : ℕ) → Call
  increment_gauge decrement_gauge : (name : String) → Call

-- What a call adds to a counter, to the increments and to the decrements of a gauge.
unfoldable pub counts : String → Call → ℕ
counts counter (increment_counter name n) = if str_eq name counter then n else 0
counts counter _ = 0

unfoldable pub raises : String → Call → ℕ
raises gauge (increment_gauge name) = if str_eq name gauge then 1 else 0
raises gauge _ = 0

unfoldable pub lowers : String → Call → ℕ
lowers gauge (decrement_gauge name) = if str_eq name gauge then 1 else 0
lowers gauge _ = 0

-- A task that has raised the gauge and is still to lower it, by the calls that it has left.
unfoldable pub is_open : String → List Call → ℕ
is_open gauge calls =
    if (total (raises gauge) calls == 0) && not (total (lowers gauge) calls == 0) then 1 else 0

-- The calls made, the last one first, and those that each task has left.
pub record Recorded : Type 0 where
  pub made : List Call
  pub left : List (List Call)

pub data Reachable (tasks : List (List Call)) : Recorded → Type 0 where
  initially : Reachable tasks (record { made = []; left = tasks })
  then_call :
      (made : List Call) (before after : List (List Call)) (c : Call) (calls : List Call)
      → Reachable tasks (record { made = made; left = before ++ (c ∷ calls) ∷ after })
      → Reachable tasks (record { made = c ∷ made; left = before ++ calls ∷ after })
