-- ===== src/ControlPlane/Registry/Rows.antt =====
-- What the statements do to the rows, row by row.
use rust_proxy.Base.{
  ◌≡◌, ◌≢◌, refl, sym, ap, ◌∙◌, inl, inr, String, Bool, true, false, Option, none, some, List, [],
  ◌∷◌, ◌++◌, str_eq, eq_iff, if◌then◌else◌, Bool-cases, Option-cases,
}
use rust_proxy.Base.Int.{ℤ}
use rust_proxy.ControlPlane.Registry.{
  Row, RegisterRequest, find, update, new_row, merge_row, upsert,
}

pub find-update :
    (id : String) (f : Row → Row) (rows : List Row)
    → ((r : Row) → (f r).id ≡ r.id)
    → find id (update id f rows) ≡ elim (find id rows) [ none ↦ none | some r ↦ some (f r) ]
unfolding find update
find-update id f [] same = refl
find-update id f (r ∷ rows) same = elim (Bool-cases (str_eq r.id id)) [
  | inl e ↦ rw e (rw (same r, e) refl)
  | inr e ↦ rw e (rw e (find-update id f rows same))
]

different : (k id other : String) → str_eq k id ≡ true → other ≢ id → str_eq k other ≡ false
different k id other e ne = elim (Bool-cases (str_eq k other)) [
  | inl e' ↦ absurd (ne (sym ((eq_iff k other).0 e') ∙ (eq_iff k id).0 e))
  | inr e' ↦ e'
]

pub found_absurd :
    (q : Row) (b : Bool) (o : Option Row) → b ≡ true → (if b then some q else o) ≢ none
found_absurd q true o e h = cc
found_absurd q false o e h = cc

pub not_found :
    (q : Row) (b : Bool) (o : Option Row) → b ≡ false → (if b then some q else o) ≡ none → o ≡ none
not_found q true o e h = cc
not_found q false o e h = h

merge_row_id : (req : RegisterRequest) (now : ℤ) (r : Row) → (merge_row req now r).id ≡ r.id
unfolding merge_row
merge_row_id req now r = refl

pub upsert_new :
    (req : RegisterRequest) (now : ℤ) (rows : List Row)
    → find req.node_id rows ≡ none
    → upsert req now rows ≡ rows ++ (new_row req now ∷ [])
unfolding upsert
upsert_new req now rows e = rw (upsert, e) refl

pub upsert_old :
    (req : RegisterRequest) (now : ℤ) (rows : List Row) (old : Row)
    → find req.node_id rows ≡ some old
    → upsert req now rows ≡ update req.node_id (merge_row req now) rows
unfolding upsert
upsert_old req now rows old e = rw (upsert, e) refl

pub find-update-other :
    (id other : String) (f : Row → Row) (rows : List Row)
    → ((r : Row) → (f r).id ≡ r.id)
    → other ≢ id
    → find other (update id f rows) ≡ find other rows
unfolding find update
find-update-other id other f [] same ne = refl
find-update-other id other f (r ∷ rows) same ne = elim (Bool-cases (str_eq r.id id)) [
  | inl e ↦
      rw (e, different r.id id other e ne)
        (rw (same r, different r.id id other e ne) (find-update-other id other f rows same ne))
  | inr e ↦ rw e (
      ap (λ found. if str_eq r.id other then some r else found)
        (find-update-other id other f rows same ne))
]

find-append :
    (id : String) (rows : List Row) (r : Row)
    → find id rows ≡ none
    → find id (rows ++ (r ∷ [])) ≡ (if str_eq r.id id then some r else none)
unfolding find
find-append id [] r h = refl
find-append id (q ∷ rows) r h = elim (Bool-cases (str_eq q.id id)) [
  | inl e ↦ absurd (found_absurd q (str_eq q.id id) (find id rows) e h)
  | inr e ↦ rw e (find-append id rows r (not_found q (str_eq q.id id) (find id rows) e h))
]

pub find-append-other :
    (id : String) (rows : List Row) (r : Row)
    → str_eq r.id id ≡ false
    → find id (rows ++ (r ∷ [])) ≡ find id rows
unfolding find
find-append-other id [] r h = rw h refl
find-append-other id (q ∷ rows) r h =
    ap (λ found. if str_eq q.id id then some q else found) (find-append-other id rows r h)

-- The row that `register` leaves for its node.
abbrev pub registered_row : RegisterRequest → ℤ → Option Row → Row
registered_row req now none = new_row req now
registered_row req now (some old) = merge_row req now old

new_found :
    (req : RegisterRequest) (now : ℤ)
    → (if str_eq (new_row req now).id req.node_id then some (new_row req now) else none)
      ≡ some (registered_row req now none)
unfolding new_row
new_found req now = rw ((eq_iff req.node_id req.node_id).1 refl) refl

merged :
    (req : RegisterRequest) (now : ℤ) (old : Row)
    → some (merge_row req now old) ≡ some (registered_row req now (some old))
merged req now old = refl

new_row_other :
    (req : RegisterRequest) (now : ℤ) (other : String)
    → other ≢ req.node_id
    → str_eq (new_row req now).id other ≡ false
unfolding new_row
new_row_other req now other ne =
    different req.node_id req.node_id other ((eq_iff req.node_id req.node_id).1 refl) ne

pub find-upsert :
    (req : RegisterRequest) (now : ℤ) (rows : List Row)
    → find req.node_id (upsert req now rows) ≡ some (registered_row req now (find req.node_id rows))
find-upsert req now rows = elim (Option-cases (find req.node_id rows)) [
  | inl e ↦
      rw (upsert_new req now rows e, find-append req.node_id rows (new_row req now) e, e)
        (new_found req now)
  | inr (old, e) ↦
      rw
        (
          upsert_old req now rows old e,
          find-update req.node_id (merge_row req now) rows (λ r. merge_row_id req now r),
          e,
        )
        (merged req now old)
]

pub find-upsert-other :
    (req : RegisterRequest) (now : ℤ) (rows : List Row) (other : String)
    → other ≢ req.node_id
    → find other (upsert req now rows) ≡ find other rows
find-upsert-other req now rows other ne = elim (Option-cases (find req.node_id rows)) [
  | inl e ↦
      rw (upsert_new req now rows e)
        (find-append-other other rows (new_row req now) (new_row_other req now other ne))
  | inr (old, e) ↦ rw (upsert_old req now rows old e) (
      find-update-other req.node_id other (merge_row req now) rows (λ r. merge_row_id req now r) ne)
]
