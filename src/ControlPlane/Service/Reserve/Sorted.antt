-- ===== src/ControlPlane/Service/Reserve/Sorted.antt =====
-- The sort of the candidates in `select_with_bandwidth`, in crates/control-plane/src/service.rs.
use Prim.Native.Nat.{Ordering}
use rust_proxy.Base.{◌≡◌, ◌≢◌, ◌⊎◌, refl, ap, subst, inl, inr, List, [], ◌∷◌, All, All-map}
use rust_proxy.ControlPlane.Service.Reserve.{insert_by, sort_by}

-- Each element stands in a relation to every later one.
abbrev pub Pairwise {ℓ κ} : {A : Type ℓ} → (A → A → Type κ) → List A → Type (ℓ ⊔ κ)
Pairwise R [] = Unit
Pairwise R (x ∷ xs) = All (R x) xs × Pairwise R xs

module _ {A : Type 0} (cmp : A → A → Ordering) where
  -- Where the insertion puts the new element.
  insert_by-gt :
      (x y : A) (ys : List A)
      → cmp x y ≡ Ordering.gt
      → insert_by cmp x (y ∷ ys) ≡ y ∷ insert_by cmp x ys
  unfolding insert_by
  insert_by-gt x y ys e =
      ap (λ o. elim o as (λ _. List A) [ Ordering.gt ↦ y ∷ insert_by cmp x ys | _ ↦ x ∷ y ∷ ys ]) e

  insert_by-le :
      (x y : A) (ys : List A) → cmp x y ≢ Ordering.gt → insert_by cmp x (y ∷ ys) ≡ x ∷ y ∷ ys
  unfolding insert_by
  insert_by-le x y ys ne = put (cmp x y) ne
    where
      put :
          (o : Ordering)
          → o ≢ Ordering.gt
          → (elim o as (λ _. List A) [ Ordering.gt ↦ y ∷ insert_by cmp x ys | _ ↦ x ∷ y ∷ ys ])
            ≡ x ∷ y ∷ ys
      put Ordering.gt ne = absurd (ne refl)
      put Ordering.lt ne = refl
      put Ordering.eq ne = refl

  Ordering-cases : (o : Ordering) → (o ≡ Ordering.gt) ⊎ (o ≢ Ordering.gt)
  Ordering-cases Ordering.gt = inl refl
  Ordering-cases Ordering.lt = inr (λ e. cc)
  Ordering-cases Ordering.eq = inr (λ e. cc)

  module _ (P : A → Type 0) where
    insert_by-All : (x : A) (xs : List A) → P x → All P xs → All P (insert_by cmp x xs)
    unfolding insert_by
    insert_by-All x [] px ps = (px, tt)
    insert_by-All x (y ∷ ys) px (py, ps) = elim (Ordering-cases (cmp x y)) [
      | inl e ↦ rw (insert_by-gt x y ys e) (py, insert_by-All x ys px ps)
      | inr ne ↦ rw (insert_by-le x y ys ne) (px, (py, ps))
    ]

    insert_by-back : (x : A) (xs : List A) → All P (insert_by cmp x xs) → P x × All P xs
    unfolding insert_by
    insert_by-back x [] h = h
    insert_by-back x (y ∷ ys) h = elim (Ordering-cases (cmp x y)) [
      | inl e ↦
          (let (py, later) = subst (All P) (insert_by-gt x y ys e) h in
            let (px, ps) = insert_by-back x ys later in (px, (py, ps)))
      | inr ne ↦ subst (All P) (insert_by-le x y ys ne) h
    ]

    pub sort_by-back : (xs : List A) → All P (sort_by cmp xs) → All P xs
    unfolding sort_by
    sort_by-back [] h = tt
    sort_by-back (x ∷ xs) h =
        let (px, ps) = insert_by-back x (sort_by cmp xs) h in (px, sort_by-back xs ps)

    pub sort_by-All : (xs : List A) → All P xs → All P (sort_by cmp xs)
    unfolding sort_by
    sort_by-All [] h = tt
    sort_by-All (x ∷ xs) (px, ps) = insert_by-All x (sort_by cmp xs) px (sort_by-All xs ps)

  -- A symmetric relation between all pairs is kept.
  module _ (R : A → A → Type 0) (symmetric : (a b : A) → R a b → R b a) where
    insert_by-Pairwise :
        (x : A) (xs : List A) → All (R x) xs → Pairwise R xs → Pairwise R (insert_by cmp x xs)
    unfolding insert_by
    insert_by-Pairwise x [] h k = (tt, tt)
    insert_by-Pairwise x (y ∷ ys) (h, hs) (k, ks) = elim (Ordering-cases (cmp x y)) [
      | inl e ↦
          rw (insert_by-gt x y ys e)
            (insert_by-All (R y) x ys (symmetric x y h) k, insert_by-Pairwise x ys hs ks)
      | inr ne ↦ rw (insert_by-le x y ys ne) ((h, hs), (k, ks))
    ]

    pub sort_by-Pairwise : (xs : List A) → Pairwise R xs → Pairwise R (sort_by cmp xs)
    unfolding sort_by
    sort_by-Pairwise [] h = tt
    sort_by-Pairwise (x ∷ xs) (h, hs) =
        insert_by-Pairwise x (sort_by cmp xs) (sort_by-All (R x) xs h) (sort_by-Pairwise xs hs)

  -- Where the comparison is total and transitive on the elements, the result is in order.
  module _ (Good : A → Type 0)
      (total : (a b : A) → Good a → Good b → cmp a b ≡ Ordering.gt → cmp b a ≢ Ordering.gt)
      (trans : (a b c : A)
        → Good a
        → Good b
        → Good c
        → cmp a b ≢ Ordering.gt
        → cmp b c ≢ Ordering.gt
        → cmp a c ≢ Ordering.gt) where
    abbrev Before : A → A → Type 0
    Before a b = Good b × (cmp a b ≢ Ordering.gt)

    insert_by-Sorted :
        (x : A) (xs : List A)
        → Good x
        → All Good xs
        → Pairwise Before xs
        → Pairwise Before (insert_by cmp x xs)
    unfolding insert_by
    insert_by-Sorted x [] gx gs h = (tt, tt)
    insert_by-Sorted x (y ∷ ys) gx (gy, gs) (h, hs) = elim (Ordering-cases (cmp x y)) [
      | inl e ↦
          rw (insert_by-gt x y ys e) (
            insert_by-All (Before y) x ys (gx, total x y gx gy e) h,
            insert_by-Sorted x ys gx gs hs,
          )
      | inr ne ↦
          rw (insert_by-le x y ys ne)
            (((gy, ne), All-map (λ z (gz, le). (gz, trans x y z gx gy gz ne le)) ys h), (h, hs))
    ]

    pub sort_by-Sorted : (xs : List A) → All Good xs → Pairwise Before (sort_by cmp xs)
    unfolding sort_by
    sort_by-Sorted [] gs = tt
    sort_by-Sorted (x ∷ xs) (gx, gs) =
        insert_by-Sorted x (sort_by cmp xs) gx (sort_by-All Good xs gs) (sort_by-Sorted xs gs)
