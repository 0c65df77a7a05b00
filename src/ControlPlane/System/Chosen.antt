-- ===== src/ControlPlane/System/Chosen.antt =====
-- The selection on a reachable table of which one node is selectable.
use rust_proxy.Base.{
  true-false, some-injective, ◌≡◌, ◌≢◌, ◌⊎◌, sym, ap, subst, ◌∙◌, inl, inr, String, Bool, true,
  false, Option, some, List, [], ◌∷◌, All, str_eq, eq_iff, if◌then◌else◌, ok, Bool-cases,
}
use rust_proxy.Base.Int.{ℤ}
use rust_proxy.ControlPlane.Float.{Float}
use rust_proxy.ControlPlane.Model.{Node, is_selectable}
use rust_proxy.ControlPlane.Registry.{
  Row, Platform, find, row_into_node, collect, order_by_id, insert_by_id,
}
use rust_proxy.ControlPlane.Registry.Register.{
  node_of, and_then-eq-ok, ok-injective, transpose-eq-some,
}
use rust_proxy.ControlPlane.Service.Beat.{db_with}
use rust_proxy.ControlPlane.Api.{respond, node_or, service_unavailable, select_node}
use rust_proxy.ControlPlane.System.{Reachable}
use rust_proxy.ControlPlane.System.Sound.{Reachable-Sound}
use rust_proxy.ControlPlane.System.Answers.{Listed, listed_lem, selected-All, select_node-answer}

module _ (p : Platform) where
  -- What holds of a listing holds of the nodes of the rows.
  abbrev Only : (Node → Type 0) → Row → Type 0
  Only P r = (n : Node) → row_into_node p r ≡ ok n → P n

  insert_by_id-back :
      (Q : Row → Type 0) (r : Row) (rows : List Row)
      → All Q (insert_by_id p r rows)
      → Q r × All Q rows
  unfolding insert_by_id
  insert_by_id-back Q r [] h = h
  insert_by_id-back Q r (s ∷ rows) h = split (p.id_le r.id s.id) h (insert_by_id-back Q r rows)
    where
      split :
          (b : Bool)
          → All Q (if b then r ∷ s ∷ rows else s ∷ insert_by_id p r rows)
          → (All Q (insert_by_id p r rows) → Q r × All Q rows)
          → Q r × (Q s × All Q rows)
      split true h later = h
      split false (hs, h) later = let (hr, hrest) = later h in (hr, (hs, hrest))

  order_by_id-back : (Q : Row → Type 0) (rows : List Row) → All Q (order_by_id p rows) → All Q rows
  unfolding order_by_id
  order_by_id-back Q [] h = tt
  order_by_id-back Q (r ∷ rows) h =
      let (hr, hs) = insert_by_id-back Q r (order_by_id p rows) h in
      (hr, order_by_id-back Q rows hs)

  collect-back :
      (P : Node → Type 0) (rows : List Row) (nodes : List Node)
      → collect p rows ≡ ok nodes
      → All P nodes
      → All (Only P) rows
  unfolding collect
  collect-back P [] nodes e h = tt
  collect-back P (r ∷ rows) nodes e h =
      let (n, e1, e') = and_then-eq-ok (row_into_node p r) _ nodes e in
      let (ns, e2, e3) = and_then-eq-ok (collect p rows) _ nodes e' in
      let (hn, hns) = subst (λ z. All P z) (sym (ok-injective (n ∷ ns) nodes e3)) h in
      (λ m em. subst P (ok-injective n m (sym e1 ∙ em)) hn, collect-back P rows ns e2 hns)

  find-All :
      (Q : Row → Type 0) (id : String) (rows : List Row) (r : Row)
      → All Q rows
      → find id rows ≡ some r
      → Q r
  unfolding find
  find-All Q id [] r h e = cc
  find-All Q id (q ∷ rows) r (h, hs) e = test (str_eq q.id id) (find-All Q id rows r hs) e
    where
      test :
          (b : Bool)
          → (find id rows ≡ some r → Q r)
          → (if b then some q else find id rows) ≡ some r
          → Q r
      test true later e = subst Q (some-injective q r e) h
      test false later e = later e

  -- If the node of an id is selectable and no node of another id is, then it is the answer.
  pub select_node-only :
      (float : Float) (id : String) (n : Node) (rows : List Row) (now : ℤ) (rest : List (Option ℤ))
      → Reachable p rows
      → node_of p id rows ≡ ok (some n)
      → is_selectable n ≡ true
      → ((other : String) (m : Node)
          → other ≢ id
          → node_of p other rows ≡ ok (some m)
          → is_selectable m ≡ false)
      → select_node float p (db_with rows (some now ∷ rest)) ≡ (db_with rows rest, ok (respond n))
  select_node-only float id n rows now rest reached here able others =
      let (nodes, e, len, all) = listed_lem p rows (Reachable-Sound p rows reached) in
      elim (selected-All p float (Listed p rows) nodes all) [
        | inl (_, none_able) ↦
            (let (r, found, decodes) = transpose-eq-some p (find id rows) n here in
              absurd (
                true-false (
                  sym able
                  ∙ find-All (Only λ m. is_selectable m ≡ false) id rows r
                      (order_by_id-back (Only λ m. is_selectable m ≡ false) rows (
                        collect-back (λ m. is_selectable m ≡ false) (order_by_id p rows) nodes e
                          none_able))
                      found n decodes)))
        | inr (m, chosen, (listed, _), able') ↦
            select_node-answer p float rows now rest nodes e
            ∙ ap (λ o. (db_with rows rest, node_or service_unavailable o)) chosen
            ∙ ap (λ k. (db_with rows rest, ok (respond k)))
                (same m listed able' (Bool-cases (str_eq m.id id)))
      ]
    where
      same :
          (m : Node)
          → node_of p m.id rows ≡ ok (some m)
          → is_selectable m ≡ true
          → (str_eq m.id id ≡ true) ⊎ (str_eq m.id id ≡ false)
          → m ≡ n
      same m listed able' (inl e) = some-injective m n (
          ok-injective (some m) (some n)
            (sym listed ∙ ap (λ z. node_of p z rows) ((eq_iff m.id id).0 e) ∙ here))
      same m listed able' (inr e) = absurd (
          true-false
            (sym able' ∙ others m.id m (λ q. true-false (sym ((eq_iff m.id id).1 q) ∙ e)) listed))
