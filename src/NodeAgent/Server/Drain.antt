-- ===== src/NodeAgent/Server/Drain.antt =====
-- The operations that the tasks of a node have left, and the orders in which they are taken.
use rust_proxy.Base.{
  total, total-append, ℕ, zero, suc, ◌+◌, ◌-◌, ◌≤◌, ◌<◌, ◌≡◌, refl, ap, subst, Option, none, some,
  List, [], ◌∷◌, ◌++◌, All, ◌==◌, arith, Bool-cases, inl, inr, ==_iff, ◌≢◌,
}
use rust_proxy.NodeAgent.Server.{
  u32_mod, Task, waiting, permitted, admitted, serving, served, finished, Shared, task_step, Server,
  work, Reachable, holds,
}
use rust_proxy.NodeAgent.Server.Limit.{Inv, Reachable-Inv, Step-Inv}

-- The operations that a task has left.
abbrev pub todo : Task → ℕ
todo waiting = 5
todo permitted = 4
todo admitted = 3
todo serving = 2
todo served = 1
todo finished = 0

abbrev pub IsFinished : Task → Type 0
IsFinished t = t ≡ finished

-- A number of operations of the tasks, one after another.
pub data Works (bandwidth_limit : ℕ) : ℕ → Server → Server → Type 0 where
  rest : (s : Server) → Works bandwidth_limit 0 s s
  next :
      {n : ℕ} {s' : Server} (s : Server) (before after : List Task) (t t' : Task) (shared' : Shared)
      → s.tasks ≡ before ++ t ∷ after
      → task_step s.shared t ≡ some (shared', t')
      → Works bandwidth_limit n (record s { shared = shared'; tasks = before ++ t' ∷ after }) s'
      → Works bandwidth_limit (suc n) s s'

some-pair :
    (x y : Shared) (t u : Task)
    → ◌≡◌ {A = Option (Shared × Task)} (some (x, t)) (some (y, u))
    → t ≡ u
some-pair x y t u h = cc

-- An operation brings its task one step nearer to the end.
todo-drops :
    (shared shared' : Shared) (t t' : Task)
    → task_step shared t ≡ some (shared', t')
    → todo t' < todo t
unfolding task_step
todo-drops shared shared' waiting t' e = elim (Bool-cases (shared.permits == 0)) [
  | inl z ↦ absurd (none-some (rw z at e))
  | inr z ↦ subst (λ u. todo u < 5) (some-pair _ _ _ _ (rw z at e)) (omega arith)
]
  where
    none-some : ◌≢◌ {A = Option (Shared × Task)} none (some (shared', t'))
    none-some h = cc
todo-drops shared shared' permitted t' e = elim (Bool-cases shared.cancelled) [
  | inl z ↦ subst (λ u. todo u < 4) (some-pair _ _ _ _ (rw z at e)) (omega arith)
  | inr z ↦ subst (λ u. todo u < 4) (some-pair _ _ _ _ (rw z at e)) (omega arith)
]
todo-drops shared shared' admitted t' e =
    subst (λ u. todo u < 3) (some-pair _ _ _ _ e) (omega arith)
todo-drops shared shared' serving t' e = subst (λ u. todo u < 2) (some-pair _ _ _ _ e) (omega arith)
todo-drops shared shared' served t' e = subst (λ u. todo u < 1) (some-pair _ _ _ _ e) (omega arith)
todo-drops shared shared' finished t' e = cc

works_bounded :
    (b n : ℕ) (s s' : Server) → Works b n s s' → n + total todo s'.tasks ≤ total todo s.tasks
works_bounded b n s s' (rest _) = omega arith
works_bounded b (suc n) s s' (next _ before after t t' shared' split e w) = omega (
  arith,
  works_bounded b n _ s' w,
  todo-drops s.shared shared' t t' e,
  ap (total todo) split,
  total-append todo before t after,
  total-append todo before t' after,
)

-- A task of positive weight among the tasks.
pick :
    (f : Task → ℕ) (ts : List Task)
    → 1 ≤ total f ts
    → (before : List Task) × (t : Task) × (after : List Task) × (ts ≡ before ++ t ∷ after)
      × (1 ≤ f t)
unfolding total
pick f [] h = absurd (omega arith)
pick f (t ∷ ts) h = elim (Bool-cases (f t == 0)) [
  | inl e ↦
      (let zero_weight = (==_iff (f t) 0).0 e in
        let (before, u, after, split, le) = pick f ts (omega arith) in
        (t ∷ before, u, after, ap (λ z. t ∷ z) split, le))
  | inr e ↦ ([], t, ts, refl, ground arith)
]

-- With a permit in hand or one free, a task that is not finished can go on.
can_step :
    (shared : Shared) (t : Task)
    → 1 ≤ todo t
    → 1 ≤ holds t + shared.permits
    → (shared' : Shared) × (t' : Task) × (task_step shared t ≡ some (shared', t'))
unfolding task_step holds
can_step shared waiting h k = elim (Bool-cases (shared.permits == 0)) [
  | inl e ↦ absurd (ground arith)
  | inr e ↦ rw e (record shared { permits = shared.permits - 1 }, permitted, refl)
]
can_step shared permitted h k = elim (Bool-cases shared.cancelled) [
  | inl e ↦ rw e (_, _, refl)
  | inr e ↦ rw e (_, _, refl)
]
can_step shared admitted h k = (_, _, refl)
can_step shared serving h k = (_, _, refl)
can_step shared served h k = (_, _, refl)
can_step shared finished h k = absurd (omega arith)

holds-todo : (t : Task) → 1 ≤ holds t → 1 ≤ todo t
unfolding holds
holds-todo waiting h = omega arith
holds-todo permitted h = omega arith
holds-todo admitted h = omega arith
holds-todo serving h = omega arith
holds-todo served h = omega arith
holds-todo finished h = omega arith

-- A task that can go on: the holder of a permit, or any task if no permit is out.
choose :
    (m b : ℕ) (s : Server)
    → 1 ≤ m
    → Inv m b s
    → 1 ≤ total todo s.tasks
    → (before : List Task) × (t : Task) × (after : List Task) × (s.tasks ≡ before ++ t ∷ after)
      × (1 ≤ todo t)
      × (1 ≤ holds t + s.shared.permits)
choose m b s big ((p, a, u, d), beats) some_left = elim (Bool-cases (total holds s.tasks == 0)) [
  | inl e ↦
      (let none_out = (==_iff (total holds s.tasks) 0).0 e in
        let (before, t, after, split, le) = pick todo s.tasks some_left in
        (before, t, after, split, le, omega arith))
  | inr e ↦
      (let (before, t, after, split, le) = pick holds s.tasks (ground arith) in
        (before, t, after, split, holds-todo t le, omega arith))
]

run_out :
    (m b k : ℕ) (s : Server)
    → m < u32_mod
    → 1 ≤ m
    → Inv m b s
    → total todo s.tasks ≤ k
    → (n : ℕ) × (s' : Server) × Works b n s s' × Inv m b s' × (total todo s'.tasks ≡ 0)
run_out m b zero s small big inv le = (0, s, rest s, inv, omega arith)
run_out m b (suc k) s small big inv le = elim (Bool-cases (total todo s.tasks == 0)) [
  | inl e ↦ (0, s, rest s, inv, (==_iff (total todo s.tasks) 0).0 e)
  | inr e ↦
      (let (before, t, after, split, left, free) = choose m b s big inv (ground arith) in
        let (shared', t', e') = can_step s.shared t left free in
        let (n, s', w, inv', z) =
          run_out m b k (record s { shared = shared'; tasks = before ++ t' ∷ after }) small big
            (Step-Inv m b s _ small (work s before after t t' shared' split e') inv)
            (omega (
              arith,
              todo-drops s.shared shared' t t' e',
              ap (total todo) split,
              total-append todo before t after,
              total-append todo before t' after,
            )) in
        (suc n, s', next s before after t t' shared' split e' w, inv', z))
]

All-IsFinished : (ts : List Task) → total todo ts ≡ 0 → All IsFinished ts × (total holds ts ≡ 0)
unfolding total holds
All-IsFinished [] e = (tt, refl)
All-IsFinished (finished ∷ ts) e =
    let (f, h) = All-IsFinished ts (omega arith) in ((refl, f), omega arith)
All-IsFinished (waiting ∷ ts) e = absurd (omega arith)
All-IsFinished (permitted ∷ ts) e = absurd (omega arith)
All-IsFinished (admitted ∷ ts) e = absurd (omega arith)
All-IsFinished (serving ∷ ts) e = absurd (omega arith)
All-IsFinished (served ∷ ts) e = absurd (omega arith)

-- From every state that a node with at least one connection allowed, a 32-bit number, can reach, its
-- tasks can run to the end, with every permit given back; and in any order in which they run, they
-- take no more operations than they have left.
pub tasks_drain :
    (max_connections bandwidth_limit : ℕ) (s : Server)
    → max_connections < u32_mod
    → 1 ≤ max_connections
    → Reachable max_connections bandwidth_limit s
    → ((n : ℕ) × (s' : Server) × Works bandwidth_limit n s s'
        × All IsFinished s'.tasks
        × (s'.shared.permits ≡ max_connections))
      × ((n : ℕ) (s' : Server) → Works bandwidth_limit n s s' → n ≤ total todo s.tasks)
tasks_drain m b s small big r =
    let (n, s', w, ((p, a, u, d), beats), z) =
      run_out m b (total todo s.tasks) s small big (Reachable-Inv m b s small r) (omega arith) in
    let (f, h) = All-IsFinished s'.tasks z in
    ((n, s', w, f, omega arith), λ n s' w. omega (arith, works_bounded b n s s' w))
