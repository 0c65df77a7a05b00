-- ===== src/ControlPlane/System/Reserved.antt =====
-- The selection with bandwidth on a reachable table.
use Prim.Native.Nat.{Ordering}
use rust_proxy.Base.{
  ◌≡◌, ◌≢◌, refl, sym, subst, ◌∙◌, true, Option, none, some, List, [], ◌∷◌, ◌++◌, All, All-map,
  All-zip, ok,
}
use rust_proxy.Base.Int.{ℤ}
use rust_proxy.ControlPlane.Float.{Float}
use rust_proxy.ControlPlane.Model.{Node, is_selectable}
use rust_proxy.ControlPlane.Routing.{or_equal, score, select_by, compare_scores, default_weights}
use rust_proxy.ControlPlane.Routing.Best.{or_equal-gt}
use rust_proxy.ControlPlane.Routing.Eligible.{select_by-All}
use rust_proxy.ControlPlane.Registry as Registry
use rust_proxy.ControlPlane.Registry.{
  Row, Platform, Outcome, statement, find, row_into_node, collect, order_by_id, insert_by_id,
}
use rust_proxy.ControlPlane.Registry.Register.{node_of, ok-injective}
use rust_proxy.ControlPlane.Service.Beat.{db_with}
use rust_proxy.ControlPlane.Service.Reserve.{
  SelectedNode, Allocators, reserve_first, sort_by, select_with_bandwidth,
}
use rust_proxy.ControlPlane.Service.Reserve.Sorted.{
  Pairwise, sort_by-back, sort_by-All, sort_by-Pairwise, sort_by-Sorted,
}
use rust_proxy.ControlPlane.Service.Reserve.First.{
  room, Apart, Refused, Taken, reserve_first-Taken, All-before,
}
use rust_proxy.ControlPlane.System.{Reachable}
use rust_proxy.ControlPlane.System.Sound.{Reachable-Sound}
use rust_proxy.ControlPlane.System.Answers.{Listed, listed_lem}
use rust_proxy.ControlPlane.System.Apart.{
  Keyed-Pairwise, order_by_id-Pairwise, collect-Pairwise, select_by-Pairwise, select_by-back,
}

append-All :
    (P : Node → Type 0) (before : List Node) (n : Node) (after : List Node)
    → All P before
    → P n
    → All P after
    → All P (before ++ n ∷ after)
append-All P [] n after h k l = (k, l)
append-All P (b ∷ before) n after (h, hs) k l = (h, append-All P before n after hs k l)

Pairwise-after :
    (R : Node → Node → Type 0) (before : List Node) (n : Node) (after : List Node)
    → Pairwise R (before ++ n ∷ after)
    → All (R n) after
Pairwise-after R [] n after (h, hs) = h
Pairwise-after R (b ∷ before) n after (h, hs) = Pairwise-after R before n after hs

module _ (float : Float) (p : Platform) (rows : List Row) (allocators : Allocators)
    (nodes : List Node) where
  open float use {F, partial_cmp}

  abbrev compared : Node → Node → Ordering
  compared a b = compare_scores float (default_weights float) a b

  abbrev by_score : Node → Node → Ordering
  by_score a b = compared b a

  abbrev eligible : List Node
  eligible = sort_by by_score (select_by is_selectable nodes)

  -- If nothing is reserved, each selectable node is refused; a node that is found stands in the table, is
  -- selectable and has room, and no selectable node that has room scores higher.
  abbrev pub Best : Option SelectedNode → Type 0
  Best none = All (λ n. is_selectable n ≡ true → room allocators n ≡ none) nodes
  Best (some s) =
      (node_of p s.node.id rows ≡ ok (some s.node))
      × (is_selectable s.node ≡ true)
      × (room allocators s.node ≢ none)
      × All
          (λ n.
            is_selectable n ≡ true
            → room allocators n ≢ none
            → compare_scores float (default_weights float) n s.node ≢ Ordering.gt)
          nodes

  eligible-back :
      (P : Node → Type 0) → All P eligible → All (λ n. is_selectable n ≡ true → P n) nodes
  eligible-back P h =
      select_by-back is_selectable P nodes
        (sort_by-back by_score P (select_by is_selectable nodes) h)

  module _ (Good : Node → Type 0)
      (total : (a b : Node)
        → Good a
        → Good b
        → compared a b ≡ Ordering.gt
        → compared b a ≢ Ordering.gt)
      (trans : (a b c : Node)
        → Good a
        → Good b
        → Good c
        → compared a b ≢ Ordering.gt
        → compared b c ≢ Ordering.gt
        → compared a c ≢ Ordering.gt)
      (good : All Good nodes) where
    selectable_good : All (λ n. Good n × (is_selectable n ≡ true)) (select_by is_selectable nodes)
    selectable_good = select_by-All Good is_selectable nodes good

    sorted : Pairwise (λ a b. Good b × (by_score a b ≢ Ordering.gt)) eligible
    sorted =
        sort_by-Sorted by_score Good (λ a b ga gb. total b a gb ga)
          (λ a b c ga gb gc h k. trans c b a gc gb ga k h) (select_by is_selectable nodes)
          (All-map (λ n h. h.0) (select_by is_selectable nodes) selectable_good)

    taken-Best :
        (r : Option SelectedNode) → All (Listed p rows) nodes → Taken eligible allocators r → Best r
    taken-Best none listed h = eligible-back (Refused allocators) h
    taken-Best (some s) listed (before, after, e, refused, fits) =
        let both =
          select_by-All (λ n. Listed p rows n × Good n) is_selectable nodes
            (All-zip (Listed p rows) Good nodes listed good) in
        let (_, (((here, _), good_here), able), _) =
          All-before (λ n. (Listed p rows n × Good n) × (is_selectable n ≡ true)) eligible before
            s.node after e
            (sort_by-All by_score (λ n. (Listed p rows n × Good n) × (is_selectable n ≡ true))
              (select_by is_selectable nodes) both) in
        let later =
          Pairwise-after (λ a b. Good b × (by_score a b ≢ Ordering.gt)) before s.node after
            (subst (Pairwise (λ a b. Good b × (by_score a b ≢ Ordering.gt))) e sorted) in
        let Q = λ (n : Node). room allocators n ≢ none → compared n s.node ≢ Ordering.gt in
        (
          here,
          able,
          fits,
          eligible-back Q (
              subst (All Q) (sym e) (
                append-All Q before s.node after
                  (All-map (λ n no yes. absurd (yes no)) before refused)
                  (λ _ q. total s.node s.node good_here good_here q q)
                  (All-map (λ n h _. h.1) after later))),
        )

module _ (float : Float) (p : Platform) where
  open float use {F, partial_cmp}

  selection-answer :
      (rows : List Row) (now : ℤ) (rest : List (Option ℤ)) (allocators : Allocators)
      (nodes : List Node)
      → collect p (order_by_id p rows) ≡ ok nodes
      → (select_with_bandwidth float p
          (record { db = db_with rows (some now ∷ rest); allocators = allocators })).1
        ≡ ok (reserve_first (eligible float p rows allocators nodes) allocators).1
  unfolding select_with_bandwidth Registry.list statement
  selection-answer rows now rest allocators nodes e = rw (select_with_bandwidth, e) refl

  -- On a reachable table whose listing is `nodes`, where the statement succeeds and the scores (any
  -- predicate `Real` on floats that they satisfy, such as not being NaN) are totally ordered: the selection
  -- with bandwidth returns nothing only if the allocator of every selectable node refuses a share, and
  -- else a selectable node of the table with room for its share, such that no selectable node with room
  -- scores higher. Room is what the allocators of before the call say, or a fresh one where there is none.
  pub select_with_bandwidth-Best :
      (Real : F → Type 0)
      (total : (x y : F)
        → Real x
        → Real y
        → partial_cmp x y ≡ some Ordering.gt
        → or_equal (partial_cmp y x) ≢ Ordering.gt)
      (trans : (x y z : F)
        → Real x
        → Real y
        → Real z
        → or_equal (partial_cmp x y) ≢ Ordering.gt
        → or_equal (partial_cmp y z) ≢ Ordering.gt
        → or_equal (partial_cmp x z) ≢ Ordering.gt)
      (rows : List Row) (now : ℤ) (rest : List (Option ℤ)) (allocators : Allocators)
      (nodes : List Node)
      → Reachable p rows
      → collect p (order_by_id p rows) ≡ ok nodes
      → All (λ n. Real (score float n (default_weights float))) nodes
      → (r : Option SelectedNode) × ((select_with_bandwidth float p
            (record { db = db_with rows (some now ∷ rest); allocators = allocators })).1
          ≡ ok r)
        × Best float p rows allocators nodes r
  unfolding compare_scores
  select_with_bandwidth-Best Real total trans rows now rest allocators nodes reached e real =
      let (keyed, sound) = Reachable-Sound p rows reached in
      let (nodes', e', len, all) = listed_lem p rows (keyed, sound) in
      let listed = subst (All (Listed p rows)) (ok-injective nodes' nodes (sym e' ∙ e)) all in
      let apart =
        sort_by-Pairwise (by_score float p rows allocators nodes) Apart (λ a b ne q. ne (sym q))
          (select_by is_selectable nodes)
          (select_by-Pairwise is_selectable Apart nodes (
            collect-Pairwise p (order_by_id p rows) nodes e
              (order_by_id-Pairwise p rows (Keyed-Pairwise p rows keyed)))) in
      (
        (reserve_first (eligible float p rows allocators nodes) allocators).1,
        selection-answer rows now rest allocators nodes e,
        taken-Best float p rows allocators nodes (λ n. Real (score float n (default_weights float)))
            (λ a b ga gb h. total _ _ ga gb (or_equal-gt _ h))
            (λ a b c ga gb gc. trans _ _ _ ga gb gc) real _ listed
            (reserve_first-Taken (eligible float p rows allocators nodes) allocators apart),
      )
