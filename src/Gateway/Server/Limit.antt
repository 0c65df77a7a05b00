-- ===== src/Gateway/Server/Limit.antt =====
-- The clients that a gateway serves, against its limit, and what the last wait waits for.
use rust_proxy.Base.{
  ℕ, ◌+◌, ◌≤◌, ◌≡◌, ◌↔◌, refl, ap, subst, Bool, true, false, Option, none, some, List, [], ◌∷◌, All,
  ◌==◌, arith, Bool-cases, inl, inr, total, total-append, total_le,
}
use rust_proxy.Gateway.Server.{
  GatewayConfig, GatewayContext, auth_of, Task, waiting, permitted, serving, served, finished,
  Gateway, new, task_step, Step, accept, work, cancel, stop_accepting, Reachable, initially,
  then_step, clones, strong_count, drained, holds, active,
}

abbrev pub IsFinished : Task → Type 0
IsFinished t = t ≡ finished

active-le : (t : Task) → active t ≤ holds t
unfolding active holds
active-le waiting = omega arith
active-le permitted = omega arith
active-le serving = omega arith
active-le served = omega arith
active-le finished = omega arith

abbrev PermitsAfter : ℕ → ℕ → Option (ℕ × Task) → Type 0
PermitsAfter all h none = Unit
PermitsAfter all h (some (permits, t)) = permits + (holds t + h) ≡ all

task_step-permits :
    (all h permits : ℕ) (cancelled : Bool) (t : Task)
    → permits + (holds t + h) ≡ all
    → PermitsAfter all h (task_step permits cancelled t)
unfolding task_step holds
task_step-permits all h permits cancelled waiting e = elim (Bool-cases (permits == 0)) [
  | inl z ↦ rw z tt
  | inr z ↦ rw z (ground arith)
]
task_step-permits all h permits true permitted e = omega arith
task_step-permits all h permits false permitted e = e
task_step-permits all h permits cancelled serving e = e
task_step-permits all h permits cancelled served e = omega arith
task_step-permits all h permits cancelled finished e = tt

abbrev Inv : GatewayConfig → Gateway → Type 0
Inv config g =
    (g.permits + total holds g.tasks ≡ config.max_connections) × (g.ctx ≡ (new config).ctx)

Step-Inv : (config : GatewayConfig) (g g' : Gateway) → Step g g' → Inv config g → Inv config g'
unfolding total holds
Step-Inv config _ _ (accept g going) (p, c) = (omega arith, c)
Step-Inv config _ _ (work g before after t t' permits' split e) (p, c) = (
  omega (
    arith,
    total-append holds before t' after,
    subst (PermitsAfter config.max_connections (total holds before + total holds after)) e (
        task_step-permits config.max_connections _ g.permits g.cancelled t
          (omega (arith, p, ap (total holds) split, total-append holds before t after))),
  ),
  c,
)
Step-Inv config _ _ (cancel g) inv = inv
Step-Inv config _ _ (stop_accepting g e) inv = inv

Reachable-Inv : (config : GatewayConfig) (g : Gateway) → Reachable config g → Inv config g
unfolding new total
Reachable-Inv config g initially = (omega arith, refl)
Reachable-Inv config g (then_step r st) = Step-Inv config _ g st (Reachable-Inv config _ r)

clones-IsFinished : (ts : List Task) → (total clones ts ≡ 0) ↔ All IsFinished ts
unfolding total clones
clones-IsFinished [] = (λ _. tt, λ _. refl)
clones-IsFinished (finished ∷ ts) =
    let (f, g) = clones-IsFinished ts in
    (λ e. (refl, f (omega arith)), λ (_, h). omega (arith, g h))
clones-IsFinished (waiting ∷ ts) = (λ e. absurd (omega arith), λ (h, _). cc)
clones-IsFinished (permitted ∷ ts) = (λ e. absurd (omega arith), λ (h, _). cc)
clones-IsFinished (serving ∷ ts) = (λ e. absurd (omega arith), λ (h, _). cc)
clones-IsFinished (served ∷ ts) = (λ e. absurd (omega arith), λ (h, _). cc)

-- In every state that a gateway reaches, however its tasks and the shutdown interleave, at most
-- `max_connections` clients are served, under the credentials of its configuration; and before its
-- deadline the wait at the end is over exactly when every task has finished.
pub clients_limited :
    (config : GatewayConfig) (g : Gateway)
    → Reachable config g
    → (total active g.tasks ≤ config.max_connections)
      × (g.ctx.auth ≡ auth_of config.socks_username config.socks_password)
      × ((drained false g ≡ true) ↔ All IsFinished g.tasks)
unfolding drained strong_count new
clients_limited config g r =
    let (p, c) = Reachable-Inv config g r in
    let (f, h) = clones-IsFinished g.tasks in
    (
      omega (arith, p, total_le active holds active-le g.tasks),
      ap (λ (x : GatewayContext). x.auth) c,
      (λ e. f (ground arith), λ a. rw (h a) refl),
    )
