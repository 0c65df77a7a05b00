-- ===== src/ControlPlane/Routing/Eligible.antt =====
-- The selector of crates/control-plane/src/routing.rs for any scores.
use Prim.Native.Nat.{Ordering}
use rust_proxy.Base.{
  ◌≡◌, ◌≢◌, ◌⊎◌, refl, inl, inr, Bool, true, false, none, some, List, [], ◌∷◌, All, if◌then◌else◌,
  Bool-cases,
}
use rust_proxy.ControlPlane.Routing.{select_by, keep_max, max_by}

module _ {A : Type 0} where
  -- What is chosen is one of the elements, and an element that the filter keeps.
  pub select_by-All :
      (P : A → Type 0) (f : A → Bool) (xs : List A)
      → All P xs
      → All (λ x. P x × (f x ≡ true)) (select_by f xs)
  unfolding select_by
  select_by-All P f [] h = tt
  select_by-All P f (x ∷ xs) (h, hs) = elim (Bool-cases (f x)) [
    | inl e ↦ rw e ((h, e), select_by-All P f xs hs)
    | inr e ↦ rw e (select_by-All P f xs hs)
  ]

  pub select_by-nil : (f : A → Bool) (xs : List A) → select_by f xs ≡ [] → All (λ x. f x ≡ false) xs
  unfolding select_by
  select_by-nil f [] h = tt
  select_by-nil f (x ∷ xs) h = elim (Bool-cases (f x)) [
    | inl e ↦ absurd (kept x (select_by f xs) (f x) e h)
    | inr e ↦ (e, select_by-nil f xs (dropped x (select_by f xs) (f x) e h))
  ]
    where
      kept : (x : A) (rest : List A) (b : Bool) → b ≡ true → (if b then x ∷ rest else rest) ≢ []
      kept x rest true e h = cc
      kept x rest false e h = cc

      dropped :
          (x : A) (rest : List A) (b : Bool)
          → b ≡ false
          → (if b then x ∷ rest else rest) ≡ []
          → rest ≡ []
      dropped x rest true e h = cc
      dropped x rest false e h = h

  keep_max-All :
      (P : A → Type 0) (cmp : A → A → Ordering) (best : A) (xs : List A)
      → P best
      → All P xs
      → P (keep_max cmp best xs)
  unfolding keep_max
  keep_max-All P cmp best [] b h = b
  keep_max-All P cmp best (x ∷ xs) b (h, hs) =
      keep_max-All P cmp (elim (cmp best x) [ Ordering.gt ↦ best | _ ↦ x ]) xs (either (cmp best x))
        hs
    where
      either : (o : Ordering) → P (elim o as (λ _. A) [ Ordering.gt ↦ best | _ ↦ x ])
      either Ordering.gt = b
      either Ordering.lt = h
      either Ordering.eq = h

  -- A maximum is there unless the list is empty.
  pub max_by-All :
      (P : A → Type 0) (cmp : A → A → Ordering) (xs : List A)
      → All P xs
      → ((max_by cmp xs ≡ none) × (xs ≡ [])) ⊎ ((x : A) × (max_by cmp xs ≡ some x) × P x)
  unfolding max_by
  max_by-All P cmp [] h = inl (refl, refl)
  max_by-All P cmp (x ∷ xs) (h, hs) = inr (_, refl, keep_max-All P cmp x xs h hs)
