-- ===== src/Gateway/Server.antt =====
-- crates/gateway/src/gateway.rs: the context of a gateway, the tasks of its accept loop and the wait for
-- them at the end. The tasks interleave between their operations on the semaphore and the token.
pub mod Limit
use rust_proxy.Base.{
  ℕ, ◌+◌, ◌-◌, ◌≡◌, Bool, true, false, leb, ◌||◌, Option, none, some, List, [], ◌∷◌, ◌++◌, ◌==◌,
  if◌then◌else◌, total,
}
use rust_proxy.Session.{Credentials}

-- The fields that `new` uses; durations in nanoseconds.
pub record GatewayConfig : Type 0 where
  pub socks_username : Option (List ℕ)
  pub socks_password : Option (List ℕ)
  pub max_connections : ℕ
  pub connect_timeout : ℕ
  pub idle_timeout : ℕ

-- Without the client of the control plane, which the handler has as a parameter.
pub record GatewayContext : Type 0 where
  pub auth : Credentials
  pub connect_timeout : ℕ
  pub idle_timeout : ℕ

-- The match on the configured username and password.
abbrev pub auth_of : Option (List ℕ) → Option (List ℕ) → Credentials
auth_of (some user) (some pass) = some (user, pass)
auth_of _ _ = none

-- Where the task of an accepted client stands: before `acquire`, before `is_cancelled`, in
-- `handle_connection`, before the permit is dropped, and after.
pub data Task : Type 0 where
  waiting permitted serving served finished : Task

-- The context, the free permits of `sem`, the token, whether the accept loop runs, and the tasks.
pub record Gateway : Type 0 where
  pub ctx : GatewayContext
  pub permits : ℕ
  pub cancelled : Bool
  pub accepting : Bool
  pub tasks : List Task

unfoldable pub new : GatewayConfig → Gateway
new config = record {
  ctx = record {
    auth = auth_of config.socks_username config.socks_password;
    connect_timeout = config.connect_timeout;
    idle_timeout = config.idle_timeout;
  };
  permits = config.max_connections;
  cancelled = false;
  accepting = true;
  tasks = [];
}

-- The free permits and the task after its next operation; `none` where it waits for a permit or is
-- done.
unfoldable pub task_step : ℕ → Bool → Task → Option (ℕ × Task)
task_step permits cancelled waiting = if permits == 0 then none else some (permits - 1, permitted)
task_step permits cancelled permitted =
    if cancelled then some (permits + 1, finished) else some (permits, serving)
task_step permits cancelled serving = some (permits, served)
task_step permits cancelled served = some (permits + 1, finished)
task_step permits cancelled finished = none

pub data Step : Gateway → Gateway → Type 0 where
  accept : (g : Gateway) → g.accepting ≡ true → Step g (record g { tasks = waiting ∷ g.tasks })
  work :
      (g : Gateway) (before after : List Task) (t t' : Task) (permits' : ℕ)
      → g.tasks ≡ before ++ t ∷ after
      → task_step g.permits g.cancelled t ≡ some (permits', t')
      → Step g (record g { permits = permits'; tasks = before ++ t' ∷ after })
  cancel : (g : Gateway) → Step g (record g { cancelled = true })
  stop_accepting : (g : Gateway) → g.cancelled ≡ true → Step g (record g { accepting = false })

pub data Reachable (config : GatewayConfig) : Gateway → Type 0 where
  initially : Reachable config (new config)
  then_step : {g g' : Gateway} → Reachable config g → Step g g' → Reachable config g'

-- A task holds a clone of the semaphore until it is finished.
unfoldable pub clones : Task → ℕ
clones finished = 0
clones _ = 1

-- `Arc::strong_count(&self.sem)`, and the test that ends the wait, with whether the deadline passed.
unfoldable pub strong_count : Gateway → ℕ
strong_count g = 1 + total clones g.tasks

unfoldable pub drained : Bool → Gateway → Bool
unfolding strong_count
drained deadline_passed g = leb (strong_count g) 1 || deadline_passed

-- Whether a task has a permit, and whether it serves its client.
unfoldable pub holds : Task → ℕ
holds waiting = 0
holds finished = 0
holds _ = 1

unfoldable pub active : Task → ℕ
active serving = 1
active _ = 0
