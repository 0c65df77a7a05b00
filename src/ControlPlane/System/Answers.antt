-- ===== src/ControlPlane/System/Answers.antt =====
-- What the handlers that read answer on a reachable table.
use rust_proxy.Base.{
  some-injective, suc, ◌≡◌, ◌≢◌, ◌⊎◌, refl, sym, ap, ◌∙◌, inl, inr, String, Bool, true, false,
  Option, none, some, List, [], ◌∷◌, map, length, All, All-map, All-zip, str_eq, eq_iff,
  if◌then◌else◌, ok, err, Bool-cases,
}
use rust_proxy.Base.Int.{ℤ}
use rust_proxy.ControlPlane.Float.{Float}
use rust_proxy.ControlPlane.Model.{Node, is_selectable}
use rust_proxy.ControlPlane.Routing as Routing
use rust_proxy.ControlPlane.Routing.{select_by, compare_scores, default_weights}
use rust_proxy.ControlPlane.Routing.Eligible.{select_by-All, select_by-nil, max_by-All}
use rust_proxy.ControlPlane.Registry as Registry
use rust_proxy.ControlPlane.Registry.{
  Row, Platform, statement, find, row_into_node, transpose, collect, order_by_id, insert_by_id,
}
use rust_proxy.ControlPlane.Registry.Keys.{Keyed}
use rust_proxy.ControlPlane.Registry.Register.{node_of, row_into_node-eq-ok, transpose-some}
use rust_proxy.ControlPlane.Service as Service
use rust_proxy.ControlPlane.Service.Beat.{db_with}
use rust_proxy.ControlPlane.Api.{
  not_found, service_unavailable, respond, node_or, health, list_nodes, get_node, select_node,
}
use rust_proxy.ControlPlane.System.{Reachable}
use rust_proxy.ControlPlane.System.Sound.{IsValidNode, IsSound, Reachable-Sound}

module _ (p : Platform) where
  pub insert_by_id-All :
      (P : Row → Type 0) (r : Row) (rows : List Row)
      → P r
      → All P rows
      → All P (insert_by_id p r rows) × (length (insert_by_id p r rows) ≡ suc (length rows))
  unfolding insert_by_id
  insert_by_id-All P r [] h hs = ((h, tt), refl)
  insert_by_id-All P r (q ∷ rows) h (k, ks) = elim (Bool-cases (p.id_le r.id q.id)) [
    | inl e ↦ rw e ((h, (k, ks)), refl)
    | inr e ↦ rw e (let (all, len) = insert_by_id-All P r rows h ks in ((k, all), ap suc len))
  ]

  pub order_by_id-All :
      (P : Row → Type 0) (rows : List Row)
      → All P rows
      → All P (order_by_id p rows) × (length (order_by_id p rows) ≡ length rows)
  unfolding order_by_id
  order_by_id-All P [] h = (tt, refl)
  order_by_id-All P (r ∷ rows) (h, hs) =
      let (all, len) = order_by_id-All P rows hs in
      let (all', len') = insert_by_id-All P r (order_by_id p rows) h all in
      (all', len' ∙ ap suc len)

  -- A row that decodes to a node with a property.
  abbrev DecodesTo : (Node → Type 0) → Row → Type 0
  DecodesTo P r = (n : Node) × (row_into_node p r ≡ ok n) × P n

  collect-All :
      (P : Node → Type 0) (rows : List Row)
      → All (DecodesTo P) rows
      → (nodes : List Node) × (collect p rows ≡ ok nodes)
        × (length nodes ≡ length rows)
        × All P nodes
  unfolding collect
  collect-All P [] h = ([], refl, refl, tt)
  collect-All P (r ∷ rows) ((n, e, h), hs) =
      let (nodes, es, len, all) = collect-All P rows hs in
      (n ∷ nodes, rw (e, es) refl, ap suc len, (h, all))

  Keyed-found : (rows : List Row) → Keyed rows → All (λ r. find r.id rows ≡ some r) rows
  unfolding find
  Keyed-found [] k = tt
  Keyed-found (q ∷ rows) (h, k) = (
    rw ((eq_iff q.id q.id).1 refl) refl,
    All-map (λ r e. later r e (Bool-cases (str_eq q.id r.id))) rows (Keyed-found rows k),
  )
    where
      nothing : (r : Row) → some r ≢ none
      nothing r e = cc

      later :
          (r : Row)
          → find r.id rows ≡ some r
          → (str_eq q.id r.id ≡ true) ⊎ (str_eq q.id r.id ≡ false)
          → (if str_eq q.id r.id then some q else find r.id rows) ≡ some r
      later r e (inl same) =
          absurd (nothing r (sym e ∙ ap (λ z. find z rows) (sym ((eq_iff q.id r.id).0 same)) ∙ h))
      later r e (inr other) = rw other e

  find-id : (id : String) (rows : List Row) (r : Row) → find id rows ≡ some r → r.id ≡ id
  unfolding find
  find-id id [] r h = cc
  find-id id (q ∷ rows) r h = test (str_eq q.id id) ((eq_iff q.id id).0) (find-id id rows r) h
    where
      test :
          (b : Bool)
          → (b ≡ true → q.id ≡ id)
          → (find id rows ≡ some r → r.id ≡ id)
          → (if b then some q else find id rows) ≡ some r
          → r.id ≡ id
      test true same later e = ap (λ z. z.id) (some-injective r q (sym e)) ∙ same refl
      test false same later e = later e

  pub decoded_id : (r : Row) (n : Node) → row_into_node p r ≡ ok n → n.id ≡ r.id
  decoded_id r n e =
      let (s, active, up, down, created, updated, d, q) = row_into_node-eq-ok p r n e in
      ap (λ m. m.id) q

  -- The node stands in the table, and is valid.
  abbrev pub Listed : List Row → Node → Type 0
  Listed rows n = (node_of p n.id rows ≡ ok (some n)) × IsValidNode n

  DecodesTo-Listed :
      (rows : List Row) (r : Row)
      → (find r.id rows ≡ some r) × IsSound p r
      → DecodesTo (Listed rows) r
  DecodesTo-Listed rows r (found, (n, e, v)) = (
    n,
    e,
    (
      ap (λ z. node_of p z rows) (decoded_id r n e)
          ∙ ap (transpose p) found
          ∙ transpose-some p r n e,
      v,
    ),
  )

  pub listed_lem :
      (rows : List Row)
      → Keyed rows × All (IsSound p) rows
      → (nodes : List Node) × (collect p (order_by_id p rows) ≡ ok nodes)
        × (length nodes ≡ length rows)
        × All (Listed rows) nodes
  listed_lem rows (keyed, sound) =
      let both =
        All-zip (λ r. find r.id rows ≡ some r) (IsSound p) rows (Keyed-found rows keyed) sound in
      let (ordered, len) =
        order_by_id-All (DecodesTo (Listed rows)) rows
          (All-map (DecodesTo-Listed rows) rows both) in
      let (nodes, e, len', all) = collect-All (Listed rows) (order_by_id p rows) ordered in
      (nodes, e, len' ∙ len, all)

  find-All :
      (P : Row → Type 0) (id : String) (rows : List Row)
      → All P rows
      → (find id rows ≡ none) ⊎ ((r : Row) × (find id rows ≡ some r) × (r.id ≡ id) × P r)
  unfolding find
  find-All P id [] h = inl refl
  find-All P id (q ∷ rows) (h, hs) = elim (Bool-cases (str_eq q.id id)) [
    | inl e ↦ rw e (inr (q, refl, (eq_iff q.id id).0 e, h))
    | inr e ↦ rw e (find-All P id rows hs)
  ]

  -- A node by its id.
  pub by_id :
      (id : String) (rows : List Row)
      → All (IsSound p) rows
      → ((find id rows ≡ none) × (node_of p id rows ≡ ok none))
        ⊎ ((n : Node) × (node_of p id rows ≡ ok (some n)) × (n.id ≡ id) × IsValidNode n)
  unfolding transpose
  by_id id rows sound = elim (find-All (IsSound p) id rows sound) [
    | inl e ↦ inl (e, ap (transpose p) e)
    | inr (r, e, same, (n, d, v)) ↦
        inr (n, ap (transpose p) e ∙ transpose-some p r n d, decoded_id r n d ∙ same, v)
  ]

  module _ (float : Float) where
    abbrev pub selected : List Node → Option Node
    selected nodes = Routing.select float (default_weights float) (select_by is_selectable nodes)

    pub selected-All :
        (P : Node → Type 0) (nodes : List Node)
        → All P nodes
        → ((selected nodes ≡ none) × All (λ n. is_selectable n ≡ false) nodes)
          ⊎ ((n : Node) × (selected nodes ≡ some n) × P n × (is_selectable n ≡ true))
    unfolding Routing.select
    selected-All P nodes h =
        let once = select_by-All P is_selectable nodes h in
        let twice =
          select_by-All (λ n. P n × (is_selectable n ≡ true)) is_selectable
            (select_by is_selectable nodes) once in
        elim (max_by-All (λ n. (P n × (is_selectable n ≡ true)) × (is_selectable n ≡ true))
          (compare_scores float (default_weights float))
          (select_by is_selectable (select_by is_selectable nodes)) twice) [
            | inl (e, nil) ↦ inl (
              e,
              select_by-nil is_selectable nodes (
                  none_left (select_by is_selectable nodes) once
                    (select_by-nil is_selectable (select_by is_selectable nodes) nil)),
            )
            | inr (n, e, ((h, _), s)) ↦ inr (n, e, h, s)
          ]
      where
        none_left :
            (xs : List Node)
            → All (λ n. P n × (is_selectable n ≡ true)) xs
            → All (λ n. is_selectable n ≡ false) xs
            → xs ≡ []
        none_left [] h k = refl
        none_left (x ∷ xs) ((_, h), hs) (k, ks) = cc

    module _ (rows : List Row) (now : ℤ) (rest : List (Option ℤ)) where
      pub health_answer :
          (nodes : List Node)
          → collect p (order_by_id p rows) ≡ ok nodes
          → (health p (db_with rows (some now ∷ rest))).1 ≡ ok tt
      unfolding health Service.list Registry.list statement
      health_answer nodes e = rw e refl

      pub list_nodes-answer :
          (nodes : List Node)
          → collect p (order_by_id p rows) ≡ ok nodes
          → (list_nodes p (db_with rows (some now ∷ rest))).1 ≡ ok (map respond nodes)
      unfolding list_nodes Service.list Registry.list statement
      list_nodes-answer nodes e = rw e refl

      pub get_node-answer :
          (id : String) (found : Option Node)
          → node_of p id rows ≡ ok found
          → (get_node p id (db_with rows (some now ∷ rest))).1 ≡ node_or not_found found
      unfolding get_node Service.get Registry.get statement
      get_node-answer id found e = rw e refl

      pub select_node-answer :
          (nodes : List Node)
          → collect p (order_by_id p rows) ≡ ok nodes
          → select_node float p (db_with rows (some now ∷ rest))
            ≡ (db_with rows rest, node_or service_unavailable (selected nodes))
      unfolding select_node Service.select Registry.list statement
      select_node-answer nodes e = rw e refl

    -- On a reachable table, where its statement succeeds, a handler that reads never answers an internal
    -- error: the health check is ok; the listing has one node for each row, and each is what the handler of
    -- its id answers; that handler answers not_found only for an id that no row has, and otherwise a
    -- node of the id; and the selection is a listed, selectable node, or service_unavailable where no
    -- listed node is selectable.
    pub reads_answered :
        (rows : List Row) (now : ℤ) (rest : List (Option ℤ)) (id : String)
        → Reachable p rows
        → let db = db_with rows (some now ∷ rest) in
          ((health p db).1 ≡ ok tt)
          × (nodes : List Node) × ((list_nodes p db).1 ≡ ok (map respond nodes))
          × (length nodes ≡ length rows)
          × All (λ n. (get_node p n.id db).1 ≡ ok (respond n)) nodes
          × (((get_node p id db).1 ≡ err not_found) × (find id rows ≡ none)
              ⊎ ((n : Node) × ((get_node p id db).1 ≡ ok (respond n)) × (n.id ≡ id)))
          × (((select_node float p db).1 ≡ err service_unavailable)
                × All (λ n. is_selectable n ≡ false) nodes
              ⊎ ((n : Node) × ((select_node float p db).1 ≡ ok (respond n))
                  × (is_selectable n ≡ true)
                  × ((get_node p n.id db).1 ≡ ok (respond n))))
    reads_answered rows now rest id reached =
        let (keyed, sound) = Reachable-Sound p rows reached in
        let (nodes, e, len, all) = listed_lem rows (keyed, sound) in
        (
          health_answer rows now rest nodes e,
          nodes,
          list_nodes-answer rows now rest nodes e,
          len,
          All-map (λ n h. get_node-answer rows now rest n.id (some n) h.0) nodes all,
          elim (by_id id rows sound) [
            | inl (e', h) ↦ inl (get_node-answer rows now rest id none h, e')
            | inr (n, h, same, v) ↦ inr (n, get_node-answer rows now rest id (some n) h, same)
          ],
          elim (selected-All (Listed rows) nodes all) [
            | inl (e', h) ↦ inl (
              ap (λ z. z.1) (select_node-answer rows now rest nodes e)
                  ∙ ap (node_or service_unavailable) e',
              h,
            )
            | inr (n, e', h, s) ↦ inr (
              n,
              ap (λ z. z.1) (select_node-answer rows now rest nodes e)
                  ∙ ap (node_or service_unavailable) e',
              s,
              get_node-answer rows now rest n.id (some n) h.0,
            )
          ],
        )
