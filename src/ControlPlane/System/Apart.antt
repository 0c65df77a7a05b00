-- ===== src/ControlPlane/System/Apart.antt =====
-- The ids of the nodes of a table.
use rust_proxy.Base.{
  true-false, ◌≡◌, ◌≢◌, sym, subst, ◌∙◌, inl, inr, String, Bool, true, false, none, List, [], ◌∷◌,
  All, All-map, str_eq, eq_iff, if◌then◌else◌, ok, Bool-cases,
}
use rust_proxy.ControlPlane.Model.{Node}
use rust_proxy.ControlPlane.Routing.{select_by}
use rust_proxy.ControlPlane.Routing.Eligible.{select_by-All}
use rust_proxy.ControlPlane.Registry.{
  Row, Platform, find, row_into_node, collect, order_by_id, insert_by_id,
}
use rust_proxy.ControlPlane.Registry.Rows.{found_absurd, not_found}
use rust_proxy.ControlPlane.Registry.Keys.{Keyed}
use rust_proxy.ControlPlane.Registry.Register.{and_then-eq-ok, ok-injective}
use rust_proxy.ControlPlane.Service.Reserve.Sorted.{Pairwise}
use rust_proxy.ControlPlane.Service.Reserve.First.{Apart}
use rust_proxy.ControlPlane.System.Answers.{insert_by_id-All, order_by_id-All, decoded_id}

abbrev pub RowApart : Row → Row → Type 0
RowApart a b = a.id ≢ b.id

module _ (p : Platform) where
  none-All : (id : String) (rows : List Row) → find id rows ≡ none → All (λ r. id ≢ r.id) rows
  unfolding find
  none-All id [] h = tt
  none-All id (r ∷ rows) h = elim (Bool-cases (str_eq r.id id)) [
    | inl e ↦ absurd (found_absurd r (str_eq r.id id) (find id rows) e h)
    | inr e ↦ (
      λ q. true-false (sym ((eq_iff r.id id).1 (sym q)) ∙ e),
      none-All id rows (not_found r (str_eq r.id id) (find id rows) e h),
    )
  ]

  pub Keyed-Pairwise : (rows : List Row) → Keyed rows → Pairwise RowApart rows
  Keyed-Pairwise [] k = tt
  Keyed-Pairwise (r ∷ rows) (h, k) = (none-All r.id rows h, Keyed-Pairwise rows k)

  insert_by_id-Pairwise :
      (r : Row) (rows : List Row)
      → All (RowApart r) rows
      → Pairwise RowApart rows
      → Pairwise RowApart (insert_by_id p r rows)
  unfolding insert_by_id
  insert_by_id-Pairwise r [] h k = (tt, tt)
  insert_by_id-Pairwise r (q ∷ rows) (h, hs) (k, ks) = elim (Bool-cases (p.id_le r.id q.id)) [
    | inl e ↦ rw e ((h, hs), (k, ks))
    | inr e ↦ rw e (
      (insert_by_id-All p (RowApart q) r rows (λ z. h (sym z)) k).0,
      insert_by_id-Pairwise r rows hs ks,
    )
  ]

  pub order_by_id-Pairwise :
      (rows : List Row) → Pairwise RowApart rows → Pairwise RowApart (order_by_id p rows)
  unfolding order_by_id
  order_by_id-Pairwise [] h = tt
  order_by_id-Pairwise (r ∷ rows) (h, hs) =
      insert_by_id-Pairwise r (order_by_id p rows) (order_by_id-All p (RowApart r) rows h).0
        (order_by_id-Pairwise rows hs)

  collect-ids :
      (Q : String → Type 0) (rows : List Row) (nodes : List Node)
      → collect p rows ≡ ok nodes
      → All (λ r. Q r.id) rows
      → All (λ n. Q n.id) nodes
  unfolding collect
  collect-ids Q [] nodes e h = subst (All (λ n. Q n.id)) (ok-injective [] nodes e) tt
  collect-ids Q (r ∷ rows) nodes e (h, hs) =
      let (n, e1, e') = and_then-eq-ok (row_into_node p r) _ nodes e in
      let (ns, e2, e3) = and_then-eq-ok (collect p rows) _ nodes e' in
      subst (All (λ n. Q n.id)) (ok-injective (n ∷ ns) nodes e3)
        (subst Q (sym (decoded_id p r n e1)) h, collect-ids Q rows ns e2 hs)

  pub collect-Pairwise :
      (rows : List Row) (nodes : List Node)
      → collect p rows ≡ ok nodes
      → Pairwise RowApart rows
      → Pairwise Apart nodes
  unfolding collect
  collect-Pairwise [] nodes e h = subst (Pairwise Apart) (ok-injective [] nodes e) tt
  collect-Pairwise (r ∷ rows) nodes e (h, hs) =
      let (n, e1, e') = and_then-eq-ok (row_into_node p r) _ nodes e in
      let (ns, e2, e3) = and_then-eq-ok (collect p rows) _ nodes e' in
      subst (Pairwise Apart) (ok-injective (n ∷ ns) nodes e3) (
        subst (λ z. All (λ m. z ≢ m.id) ns) (sym (decoded_id p r n e1))
            (collect-ids (λ z. r.id ≢ z) rows ns e2 h),
        collect-Pairwise rows ns e2 hs,
      )

module _ {A : Type 0} (f : A → Bool) where
  pub select_by-Pairwise :
      (R : A → A → Type 0) (xs : List A) → Pairwise R xs → Pairwise R (select_by f xs)
  unfolding select_by
  select_by-Pairwise R [] h = tt
  select_by-Pairwise R (x ∷ xs) (h, hs) = elim (Bool-cases (f x)) [
    | inl e ↦ rw e (kept_all (R x) xs h, select_by-Pairwise R xs hs)
    | inr e ↦ rw e (select_by-Pairwise R xs hs)
  ]
    where
      kept_all : (P : A → Type 0) (xs : List A) → All P xs → All P (select_by f xs)
      kept_all P xs h = All-map (λ x k. k.0) (select_by f xs) (select_by-All P f xs h)

  -- What holds of the elements that are kept.
  pub select_by-back :
      (P : A → Type 0) (xs : List A) → All P (select_by f xs) → All (λ x. f x ≡ true → P x) xs
  unfolding select_by
  select_by-back P [] h = tt
  select_by-back P (x ∷ xs) h = split (f x) h (select_by-back P xs)
    where
      split :
          (b : Bool)
          → All P (if b then x ∷ select_by f xs else select_by f xs)
          → (All P (select_by f xs) → All (λ x. f x ≡ true → P x) xs)
          → (b ≡ true → P x) × All (λ x. f x ≡ true → P x) xs
      split true (h, hs) later = ((λ _. h), later hs)
      split false h later = ((λ e. cc), later h)
