-- ===== src/Metrics/Balance.antt =====
-- What the calls of the tasks sum up to, those made and those left.
use rust_proxy.Base.{
  ℕ, ◌+◌, ◌≤◌, ◌≡◌, refl, sym, ◌∙◌, String, List, [], ◌∷◌, ◌++◌, map, length, All, total,
  total-append, ◌==◌, ◌&&◌, not, if◌then◌else◌, arith,
}
use rust_proxy.Metrics.{
  Call, counts, raises, lowers, is_open, Recorded, Reachable, initially, then_call,
}

-- The sum of a weight over what is made and what is left stays as it was.
made-left :
    (w : Call → ℕ) (tasks : List (List Call)) (s : Recorded)
    → Reachable tasks s
    → total w s.made + total (total w) s.left ≡ total (total w) tasks
unfolding total
made-left w tasks _ initially = omega arith
made-left w tasks _ (then_call made before after c calls r) = omega (
  arith,
  made-left w tasks (record { made = made; left = before ++ (c ∷ calls) ∷ after }) r,
  total-append (total w) before (c ∷ calls) after,
  total-append (total w) before calls after,
)

-- At every point of a task the gauge is lowered at most once more, and raised only before that.
abbrev pub Balanced : String → List Call → Type 0
Balanced gauge [] = Unit
Balanced gauge (c ∷ calls) =
    (total (raises gauge) (c ∷ calls) ≤ total (lowers gauge) (c ∷ calls))
    × (total (lowers gauge) (c ∷ calls) ≤ 1)
    × Balanced gauge calls

module _ (gauge : String) where
  All-split :
      {A : Type 0} (P : A → Type 0) (before : List A) (x : A) (after : List A)
      → All P (before ++ x ∷ after)
      → P x × ((y : A) → P y → All P (before ++ y ∷ after))
  All-split P [] x after (h, hs) = (h, λ y k. (k, hs))
  All-split P (b ∷ before) x after (h, hs) =
      let (hx, put) = All-split P before x after hs in (hx, λ y k. (h, put y k))

  left-AllBalanced :
      (tasks : List (List Call)) (s : Recorded)
      → All (Balanced gauge) tasks
      → Reachable tasks s
      → All (Balanced gauge) s.left
  left-AllBalanced tasks _ h initially = h
  left-AllBalanced tasks _ h (then_call made before after c calls r) =
      let (hc, put) = All-split (Balanced gauge) before (c ∷ calls) after (
        left-AllBalanced tasks (record { made = made; left = before ++ (c ∷ calls) ∷ after }) h
          r) in
      put calls hc.2

  is_open-Balanced :
      (calls : List Call)
      → Balanced gauge calls
      → total (lowers gauge) calls ≡ total (raises gauge) calls + is_open gauge calls
  unfolding is_open total
  is_open-Balanced [] h = refl
  is_open-Balanced (c ∷ calls) (le, one, _) =
      split (total (raises gauge) (c ∷ calls)) (total (lowers gauge) (c ∷ calls)) le one
    where
      split : (a b : ℕ) → a ≤ b → b ≤ 1 → b ≡ a + (if (a == 0) && not (b == 0) then 1 else 0)
      split a b h k = ground arith

  is_open-AllBalanced :
      (left : List (List Call))
      → All (Balanced gauge) left
      → total (total (lowers gauge)) left
        ≡ total (total (raises gauge)) left + total (is_open gauge) left
  unfolding total
  is_open-AllBalanced [] h = refl
  is_open-AllBalanced (calls ∷ left) (h, hs) =
      omega (arith, is_open-Balanced calls h, is_open-AllBalanced left hs)

  -- The gauge is the number of open tasks, if every task raises it as often as it lowers it.
  gauge-is_open :
      (tasks : List (List Call)) (s : Recorded)
      → All (Balanced gauge) tasks
      → total (total (raises gauge)) tasks ≡ total (total (lowers gauge)) tasks
      → Reachable tasks s
      → total (raises gauge) s.made ≡ total (lowers gauge) s.made + total (is_open gauge) s.left
  gauge-is_open tasks s h even r = omega (
    arith,
    even,
    made-left (raises gauge) tasks s r,
    made-left (lowers gauge) tasks s r,
    is_open-AllBalanced s.left (left-AllBalanced tasks s h r),
  )

-- Sums over tasks that run the calls of some things.
module _ {A : Type 0} (calls : A → List Call) where
  total-calls :
      (w : Call → ℕ) (f : A → ℕ)
      → ((a : A) → total w (calls a) ≡ f a)
      → (xs : List A) → total (total w) (map calls xs) ≡ total f xs
  unfolding total
  total-calls w f h [] = refl
  total-calls w f h (x ∷ xs) = omega (arith, h x, total-calls w f h xs)

  map-AllBalanced :
      (gauge : String)
      → ((a : A) → Balanced gauge (calls a))
      → (xs : List A) → All (Balanced gauge) (map calls xs)
  map-AllBalanced gauge h [] = tt
  map-AllBalanced gauge h (x ∷ xs) = (h x, map-AllBalanced gauge h xs)

-- What a counter holds, and what the tasks that are still open will add to it.
abbrev pub counted : String → Recorded → ℕ
counted counter s = total (counts counter) s.made + total (total (counts counter)) s.left

pub counted-calls :
    {A : Type 0} (calls : A → List Call) (counter : String) (f : A → ℕ) (xs : List A) (s : Recorded)
    → ((a : A) → total (counts counter) (calls a) ≡ f a)
    → Reachable (map calls xs) s
    → counted counter s ≡ total f xs
counted-calls calls counter f xs s h r =
    made-left (counts counter) (map calls xs) s r ∙ total-calls calls (counts counter) f h xs

pub gauge-calls :
    {A : Type 0} (calls : A → List Call) (gauge : String) (xs : List A) (s : Recorded)
    → ((a : A) → Balanced gauge (calls a))
    → ((a : A) → total (raises gauge) (calls a) ≡ 1)
    → ((a : A) → total (lowers gauge) (calls a) ≡ 1)
    → Reachable (map calls xs) s
    → total (raises gauge) s.made ≡ total (lowers gauge) s.made + total (is_open gauge) s.left
gauge-calls calls gauge xs s balanced up down r =
    gauge-is_open gauge (map calls xs) s (map-AllBalanced calls gauge balanced xs)
      (total-calls calls (raises gauge) (λ _. 1) up xs
        ∙ sym (total-calls calls (lowers gauge) (λ _. 1) down xs))
      r

pub total-length : {A : Type 0} (xs : List A) → total (λ _. 1) xs ≡ length xs
unfolding total
total-length [] = refl
total-length (x ∷ xs) = omega (arith, total-length xs)
