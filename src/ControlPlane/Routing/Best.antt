-- ===== src/ControlPlane/Routing/Best.antt =====
-- The node that the selector of crates/control-plane/src/routing.rs returns, among the eligible
-- ones.
use Prim.Native.Nat.{Ordering}
use rust_proxy.Base.{
  ◌≡◌, ◌≢◌, refl, sym, subst, ap, ◌⊎◌, inl, inr, Bool, true, false, Option, some, none, List, [],
  ◌∷◌, ◌++◌, All, Bool-cases,
}
use rust_proxy.ControlPlane.Float.{Float}
use rust_proxy.ControlPlane.Model.{Node, is_selectable}
use rust_proxy.ControlPlane.Routing.{
  ScoreWeights, select_by, keep_max, max_by, or_equal, score, compare_scores, select,
}

Ordering-cases : (o : Ordering) → (o ≡ Ordering.gt) ⊎ (o ≢ Ordering.gt)
Ordering-cases Ordering.gt = inl refl
Ordering-cases Ordering.lt = inr (λ e. cc)
Ordering-cases Ordering.eq = inr (λ e. cc)

pub or_equal-gt : (o : Option Ordering) → or_equal o ≡ Ordering.gt → o ≡ some Ordering.gt
or_equal-gt none e = cc
or_equal-gt (some o) e = ap some e

-- `n` stands in `xs`, satisfies `p`, no earlier element of `p` compares greater, and it compares
-- greater than every later one.
pub IsLastMax {ℓ} : {A : Type ℓ} → (A → A → Ordering) → (A → Bool) → List A → A → Type ℓ
IsLastMax {A = A} cmp p xs n =
    (before : List A) × (after : List A) × (xs ≡ before ++ n ∷ after)
    × (p n ≡ true)
    × All (λ k. p k ≡ true → cmp k n ≢ Ordering.gt) before
    × All (λ k. p k ≡ true → cmp n k ≡ Ordering.gt) after

module _ {ℓ κ} {A : Type ℓ} (cmp : A → A → Ordering) (p : A → Bool) (Good : A → Type κ)
    (total : (a b : A) → Good a → Good b → cmp a b ≡ Ordering.gt → cmp b a ≢ Ordering.gt)
    (trans : (a b c : A)
      → Good a
      → Good b
      → Good c
      → cmp a b ≢ Ordering.gt
      → cmp b c ≢ Ordering.gt
      → cmp a c ≢ Ordering.gt) where
  IsLastMax-later :
      (x : A) (xs : List A) (r : A)
      → (p x ≡ true → cmp x r ≢ Ordering.gt)
      → IsLastMax cmp p xs r
      → IsLastMax cmp p (x ∷ xs) r
  unfolding IsLastMax
  IsLastMax-later x xs r h (before, after, e, pr, lo, hi) =
      (x ∷ before, after, ap (λ zs. x ∷ zs) e, pr, (h, lo), hi)

  IsLastMax-head :
      (x : A) (xs : List A)
      → p x ≡ true
      → All (λ k. p k ≡ true → cmp x k ≡ Ordering.gt) xs
      → IsLastMax cmp p (x ∷ xs) x
  unfolding IsLastMax
  IsLastMax-head x xs px hi = ([], xs, refl, px, tt, hi)

  -- What the fold ends with: the first candidate, above all of `xs`, or a last maximum of `xs`.
  abbrev Kept : A → List A → A → Type (ℓ ⊔ κ)
  Kept best xs r =
      ((r ≡ best) × All (λ k. p k ≡ true → cmp best k ≡ Ordering.gt) xs)
      ⊎ (IsLastMax cmp p xs r × (cmp best r ≢ Ordering.gt) × Good r)

  Kept-skip :
      (best x : A) (xs : List A) (r : A) → p x ≡ false → Kept best xs r → Kept best (x ∷ xs) r
  Kept-skip best x xs r px (inl (e, hi)) = inl (e, (λ q. cc, hi))
  Kept-skip best x xs r px (inr (m, c, g)) = inr (IsLastMax-later x xs r (λ q. cc) m, c, g)

  Kept-stay :
      (best x : A) (xs : List A) (r : A)
      → Good best
      → Good x
      → cmp best x ≡ Ordering.gt
      → Kept best xs r
      → Kept best (x ∷ xs) r
  Kept-stay best x xs r gb gx c (inl (e, hi)) = inl (e, (λ q. c, hi))
  Kept-stay best x xs r gb gx c (inr (m, d, g)) =
      inr (IsLastMax-later x xs r (λ q. trans x best r gx gb g (total best x gb gx c) d) m, d, g)

  Kept-move :
      (best x : A) (xs : List A) (r : A)
      → Good best
      → Good x
      → p x ≡ true
      → cmp best x ≢ Ordering.gt
      → Kept x xs r
      → Kept best (x ∷ xs) r
  Kept-move best x xs r gb gx px c (inl (e, hi)) = inr (
    subst (λ z. IsLastMax cmp p (x ∷ xs) z) (sym e) (IsLastMax-head x xs px hi),
    subst (λ z. cmp best z ≢ Ordering.gt) (sym e) c,
    subst Good (sym e) gx,
  )
  Kept-move best x xs r gb gx px c (inr (m, d, g)) =
      inr (IsLastMax-later x xs r (λ q. d) m, trans best x r gb gx g c d, g)

  keep_head :
      (best x : A) (o : Ordering)
      → o ≢ Ordering.gt
      → (elim o as (λ _. A) [ Ordering.gt ↦ best | _ ↦ x ]) ≡ x
  keep_head best x Ordering.gt h = absurd (h refl)
  keep_head best x Ordering.lt h = refl
  keep_head best x Ordering.eq h = refl

  keep_max-gt :
      (best x : A) (xs : List A)
      → cmp best x ≡ Ordering.gt
      → keep_max cmp best (x ∷ xs) ≡ keep_max cmp best xs
  unfolding keep_max
  keep_max-gt best x xs e =
      ap (λ o. keep_max cmp (elim o as (λ _. A) [ Ordering.gt ↦ best | _ ↦ x ]) xs) e

  keep_max-le :
      (best x : A) (xs : List A)
      → cmp best x ≢ Ordering.gt
      → keep_max cmp best (x ∷ xs) ≡ keep_max cmp x xs
  unfolding keep_max
  keep_max-le best x xs e = ap (λ b. keep_max cmp b xs) (keep_head best x (cmp best x) e)

  select_by-true : (x : A) (xs : List A) → p x ≡ true → select_by p (x ∷ xs) ≡ x ∷ select_by p xs
  unfolding select_by
  select_by-true x xs e = rw e

  select_by-false : (x : A) (xs : List A) → p x ≡ false → select_by p (x ∷ xs) ≡ select_by p xs
  unfolding select_by
  select_by-false x xs e = rw e

  keep_max-Kept :
      (best : A) (xs : List A)
      → Good best
      → All Good xs
      → Kept best xs (keep_max cmp best (select_by p xs))
  unfolding keep_max select_by
  keep_max-Kept best [] gb gs = inl (refl, tt)
  keep_max-Kept best (x ∷ xs) gb (gx, gs) = elim (Bool-cases (p x)) [
    | inr e ↦ rw (select_by-false x xs e) (Kept-skip best x xs _ e (keep_max-Kept best xs gb gs))
    | inl e ↦ elim (Ordering-cases (cmp best x)) [
      | inl c ↦
          rw (select_by-true x xs e, keep_max-gt best x (select_by p xs) c)
            (Kept-stay best x xs _ gb gx c (keep_max-Kept best xs gb gs))
      | inr c ↦
          rw (select_by-true x xs e, keep_max-le best x (select_by p xs) c)
            (Kept-move best x xs _ gb gx e c (keep_max-Kept x xs gx gs))
    ]
  ]

  Kept-IsLastMax :
      (x : A) (xs : List A) (r : A) → p x ≡ true → Kept x xs r → IsLastMax cmp p (x ∷ xs) r
  Kept-IsLastMax x xs r px (inl (e, hi)) =
      subst (λ z. IsLastMax cmp p (x ∷ xs) z) (sym e) (IsLastMax-head x xs px hi)
  Kept-IsLastMax x xs r px (inr (m, d, g)) = IsLastMax-later x xs r (λ q. d) m

  max_by_lem :
      (xs : List A)
      → All Good xs
      → (max_by cmp (select_by p xs) ≡ none → All (λ k. p k ≡ false) xs)
        × ((n : A) → max_by cmp (select_by p xs) ≡ some n → IsLastMax cmp p xs n)
  unfolding max_by select_by
  max_by_lem [] gs = (λ e. tt, λ n e. cc)
  max_by_lem (x ∷ xs) (gx, gs) = elim (Bool-cases (p x)) [
    | inr e ↦ rw (select_by-false x xs e) (
      λ h. (e, (max_by_lem xs gs).0 h),
      λ n h. IsLastMax-later x xs n (λ q. cc) ((max_by_lem xs gs).1 n h),
    )
    | inl e ↦ rw (select_by-true x xs e) (
      λ h. cc,
      λ n h.
          subst (λ z. IsLastMax cmp p (x ∷ xs) z) (cc)
            (Kept-IsLastMax x xs _ e (keep_max-Kept x xs gx gs)),
    )
  ]

module _ (float : Float) where
  open float use {F, partial_cmp}

  -- Where the scores of the nodes (any predicate `Real` on floats that they satisfy, such as not
  -- being NaN) are totally ordered, the selector returns nothing only if no node is eligible, and
  -- otherwise the last eligible node of greatest score: no eligible node before it scores higher and
  -- every eligible node after it scores lower.
  pub select-IsLastMax :
      (Real : F → Type 0)
      (total : (x y : F)
        → Real x
        → Real y
        → partial_cmp x y ≡ some Ordering.gt
        → or_equal (partial_cmp y x) ≢ Ordering.gt)
      (trans : (x y z : F)
        → Real x
        → Real y
        → Real z
        → or_equal (partial_cmp x y) ≢ Ordering.gt
        → or_equal (partial_cmp y z) ≢ Ordering.gt
        → or_equal (partial_cmp x z) ≢ Ordering.gt)
      (w : ScoreWeights F) (nodes : List Node) (real : All (λ n. Real (score float n w)) nodes)
      → (select float w nodes ≡ none → All (λ k. is_selectable k ≡ false) nodes)
        × ((n : Node)
            → select float w nodes ≡ some n
            → IsLastMax (compare_scores float w) is_selectable nodes n)
  unfolding select compare_scores
  select-IsLastMax Real total trans w nodes real =
      max_by_lem (compare_scores float w) is_selectable (λ n. Real (score float n w))
        (λ a b ga gb e. total _ _ ga gb (or_equal-gt _ e)) (λ a b c ga gb gc. trans _ _ _ ga gb gc)
        nodes real
