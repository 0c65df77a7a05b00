-- ===== src/NodeAgent/Server.antt =====
-- crates/node/src/server.rs: the statistics, the tasks of the accept loop and the heartbeats. The
-- tasks interleave between their operations on the semaphore, the token and the counters.
pub mod Limit
pub mod Drain
use rust_proxy.Base.{
  String, ◌||◌, ℕ, ◌+◌, ◌-◌, ◌%◌, ◌^◌, ◌≡◌, Bool, true, false, Option, none, some, List, [], ◌∷◌,
  ◌++◌, ◌==◌, if◌then◌else◌,
}

abbrev pub u32_mod : ℕ
u32_mod = 2 ^ 32

pub record NodeStats : Type 0 where
  pub bytes_up : ℕ
  pub bytes_down : ℕ
  pub active_connections : ℕ

abbrev pub new_stats : NodeStats
new_stats = record { bytes_up = 0; bytes_down = 0; active_connections = 0 }

-- The two byte counts, swapped for 0, and the connections; the statistics after the call.
unfoldable pub snapshot_and_reset : NodeStats → (ℕ × ℕ × ℕ) × NodeStats
snapshot_and_reset stats = (
  (stats.bytes_up, stats.bytes_down, stats.active_connections),
  record stats { bytes_up = 0; bytes_down = 0 },
)

pub record HeartbeatPayload : Type 0 where
  pub active_connections : ℕ
  pub bytes_up : ℕ
  pub bytes_down : ℕ
  pub latency_ms : ℕ
  pub available_bandwidth : ℕ

-- One tick of `heartbeat_loop`: the payload, and the statistics after it.
unfoldable pub heartbeat : ℕ → NodeStats → HeartbeatPayload × NodeStats
unfolding snapshot_and_reset
heartbeat bandwidth_limit stats =
    let ((up, down, active), stats') = snapshot_and_reset stats in
    (
      record {
        active_connections = active;
        bytes_up = up;
        bytes_down = down;
        latency_ms = 0;
        available_bandwidth = bandwidth_limit;
      },
      stats',
    )

-- Where the task of an accepted connection stands: before `acquire`, before `is_cancelled`, before
-- `fetch_add`, in `handle_connection`, before the permit is dropped, and after.
pub data Task : Type 0 where
  waiting permitted admitted serving served finished : Task

-- What the tasks share: the free permits, the token, the statistics.
pub record Shared : Type 0 where
  pub permits : ℕ
  pub cancelled : Bool
  pub stats : NodeStats

-- `fetch_add(1)` and `fetch_sub(1)` on the AtomicU32, which wrap around.
abbrev pub entered : NodeStats → NodeStats
entered stats = record stats { active_connections = (stats.active_connections + 1) % u32_mod }

abbrev pub left : NodeStats → NodeStats
left stats = record stats {
  active_connections = (stats.active_connections + (u32_mod - 1)) % u32_mod;
}

abbrev pub with_permit : Shared → Shared
with_permit shared = record shared { permits = shared.permits + 1 }

-- The next operation of a task; `none` where it must wait for a permit or is done.
unfoldable pub task_step : Shared → Task → Option (Shared × Task)
task_step shared waiting =
    if shared.permits == 0
    then none
    else some (record shared { permits = shared.permits - 1 }, permitted)
task_step shared permitted =
    if shared.cancelled then some (with_permit shared, finished) else some (shared, admitted)
task_step shared admitted = some (record shared { stats = entered shared.stats }, serving)
task_step shared serving = some (record shared { stats = left shared.stats }, served)
task_step shared served = some (with_permit shared, finished)
task_step shared finished = none

-- The server: the accept loop and the heartbeat loop each run until they see the token, and every
-- accepted connection has a task. The payloads sent are kept, the last one first.
pub record Server : Type 0 where
  pub shared : Shared
  pub accepting : Bool
  pub beating : Bool
  pub tasks : List Task
  pub beats : List HeartbeatPayload

pub data Step (bandwidth_limit : ℕ) : Server → Server → Type 0 where
  accept :
      (s : Server)
      → s.accepting ≡ true
      → Step bandwidth_limit s (record s { tasks = waiting ∷ s.tasks })
  work :
      (s : Server) (before after : List Task) (t t' : Task) (shared' : Shared)
      → s.tasks ≡ before ++ t ∷ after
      → task_step s.shared t ≡ some (shared', t')
      → Step bandwidth_limit s (record s { shared = shared'; tasks = before ++ t' ∷ after })
  cancel :
      (s : Server)
      → Step bandwidth_limit s (record s { shared = record s.shared { cancelled = true } })
  stop_accepting :
      (s : Server)
      → s.shared.cancelled ≡ true
      → Step bandwidth_limit s (record s { accepting = false })
  stop_beating :
      (s : Server)
      → s.shared.cancelled ≡ true
      → Step bandwidth_limit s (record s { beating = false })
  beat :
      (s : Server)
      → s.beating ≡ true
      → Step bandwidth_limit s (record s {
        shared = record s.shared { stats = (heartbeat bandwidth_limit s.shared.stats).1 };
        beats = (heartbeat bandwidth_limit s.shared.stats).0 ∷ s.beats;
      })

-- A server with `max_connections` permits, as `run` starts it.
abbrev pub start : ℕ → Server
start max_connections = record {
  shared = record { permits = max_connections; cancelled = false; stats = new_stats };
  accepting = true;
  beating = true;
  tasks = [];
  beats = [];
}

pub data Reachable (max_connections bandwidth_limit : ℕ) : Server → Type 0 where
  initially : Reachable max_connections bandwidth_limit (start max_connections)
  then_step :
      {s s' : Server}
      → Reachable max_connections bandwidth_limit s
      → Step bandwidth_limit s s'
      → Reachable max_connections bandwidth_limit s'

-- Whether a task has a permit, and whether it is counted as active.
unfoldable pub holds : Task → ℕ
holds waiting = 0
holds finished = 0
holds _ = 1

unfoldable pub active : Task → ℕ
active serving = 1
active _ = 0

-- The wait at the end is over, with whether the deadline passed.
unfoldable pub drained : Bool → Server → Bool
drained deadline_passed s = s.shared.stats.active_connections == 0 || deadline_passed

-- The fields of the configuration that the registration uses; addresses are text.
pub record NodeConfig : Type 0 where
  pub node_id : String
  pub bind_addr : String
  pub advertised_address : Option String
  pub bandwidth_limit : ℕ
  pub max_connections : ℕ

pub record RegisterPayload : Type 0 where
  pub node_id : String
  pub address : String
  pub max_connections : ℕ
  pub bandwidth_limit : ℕ

-- The cast to u32 drops the high bits.
unfoldable pub register_payload : NodeConfig → RegisterPayload
register_payload config = record {
  node_id = config.node_id;
  address = elim config.advertised_address [ none ↦ config.bind_addr | some address ↦ address ];
  max_connections = config.max_connections % u32_mod;
  bandwidth_limit = config.bandwidth_limit;
}
