-- ===== src/ControlPlane/Registry/Keys.antt =====
-- crates/control-plane/src/registry.rs: tables whose ids are distinct, as the primary key demands.
use rust_proxy.Base.{
  true-false, ◌≡◌, ◌≢◌, refl, sym, ap, ◌∙◌, inl, inr, String, false, Option, none, some, List, [],
  ◌∷◌, ◌++◌, str_eq, eq_iff, Bool-cases, Option-cases,
}
use rust_proxy.Base.Int.{ℤ}
use rust_proxy.ControlPlane.Registry.{
  Row, RegisterRequest, find, update, upsert, new_row, merge_row,
}
use rust_proxy.ControlPlane.Registry.Rows.{
  find-update, find-update-other, find-append-other, upsert_new, upsert_old, not_found,
  found_absurd,
}

abbrev pub Keyed : List Row → Type 0
Keyed [] = Unit
Keyed (r ∷ rows) = (find r.id rows ≡ none) × Keyed rows

find-update-none :
    (id other : String) (f : Row → Row) (rows : List Row)
    → ((r : Row) → (f r).id ≡ r.id)
    → find other rows ≡ none
    → find other (update id f rows) ≡ none
find-update-none id other f rows same h = elim (Bool-cases (str_eq other id)) [
  | inl e ↦
      (let q = (eq_iff other id).0 e in
        ap (λ z. find z (update id f rows)) q
        ∙ find-update id f rows same
        ∙ ap (λ o. elim o as (λ _. Option Row) [ none ↦ none | some r ↦ some (f r) ])
            (ap (λ z. find z rows) (sym q) ∙ h))
  | inr e ↦ find-update-other id other f rows same (λ q. no_eq other id e q) ∙ h
]
  where
    no_eq : (a b : String) → str_eq a b ≡ false → a ≢ b
    no_eq a b e q = true-false (sym ((eq_iff a b).1 q) ∙ e)

pub update-Keyed :
    (id : String) (f : Row → Row) (rows : List Row)
    → ((r : Row) → (f r).id ≡ r.id)
    → Keyed rows
    → Keyed (update id f rows)
unfolding update
update-Keyed id f [] same k = tt
update-Keyed id f (r ∷ rows) same (h, k) = elim (Bool-cases (str_eq r.id id)) [
  | inl e ↦ rw (e, same r) (find-update-none id r.id f rows same h, update-Keyed id f rows same k)
  | inr e ↦ rw e (find-update-none id r.id f rows same h, update-Keyed id f rows same k)
]

append-Keyed :
    (r : Row) (rows : List Row) → find r.id rows ≡ none → Keyed rows → Keyed (rows ++ (r ∷ []))
unfolding find
append-Keyed r [] h k = (refl, tt)
append-Keyed r (q ∷ rows) h (hq, k) = elim (Bool-cases (str_eq q.id r.id)) [
  | inl e ↦ absurd (found_absurd q (str_eq q.id r.id) (find r.id rows) e h)
  | inr e ↦ (
    find-append-other q.id rows r (flipped q.id r.id e) ∙ hq,
    append-Keyed r rows (not_found q (str_eq q.id r.id) (find r.id rows) e h) k,
  )
]
  where
    flipped : (a b : String) → str_eq a b ≡ false → str_eq b a ≡ false
    flipped a b e = elim (Bool-cases (str_eq b a)) [
      | inl q ↦ absurd (true-false (sym ((eq_iff a b).1 (sym ((eq_iff b a).0 q))) ∙ e))
      | inr q ↦ q
    ]

pub upsert-Keyed :
    (req : RegisterRequest) (now : ℤ) (rows : List Row) → Keyed rows → Keyed (upsert req now rows)
unfolding new_row merge_row
upsert-Keyed req now rows k = elim (Option-cases (find req.node_id rows)) [
  | inl e ↦ rw (upsert_new req now rows e) (append-Keyed (new_row req now) rows e k)
  | inr (old, e) ↦
      rw (upsert_old req now rows old e)
        (update-Keyed req.node_id (merge_row req now) rows (λ r. refl) k)
]
