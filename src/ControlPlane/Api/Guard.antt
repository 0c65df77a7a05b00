-- ===== src/ControlPlane/Api/Guard.antt =====
-- The handlers of crates/control-plane/src/api.rs that change the table, with and without the
-- token.
use Prim.Native.String.{len, slice, ◌++◌}
use text.Mathlib.Text.{starts_with}
use text.Mathlib.TextEquality.{starts_with_iff}
use text.Mathlib.TextPositions.{slice-append_right, starts_with-append, len-append}
use rust_proxy.Base.{
  ◌≡◌, ◌≢◌, refl, sym, ap, ◌∙◌, inl, inr, String, Bool, true, false, Option, none, some, str_eq,
  eq_iff, if◌then◌else◌, Result, ok, err, Bool-cases,
}
use rust_proxy.ControlPlane.Float.{Float}
use rust_proxy.ControlPlane.Health.{HealthPolicy}
use rust_proxy.ControlPlane.Registry.{Heartbeat, RegisterRequest, Platform, Db}
use rust_proxy.ControlPlane.Api.{
  no_auth, bearer, Status, unauthorized, HeaderMap, header, strip_prefix, provided, authorize,
  register_node, drain_node, heartbeat_node,
}

-- The request has the header `authorization: Bearer expected`.
abbrev pub Presents : HeaderMap → String → Type 0
Presents headers expected = header headers "authorization" ≡ some (some ("Bearer " ++ expected))

strip_prefix-append : (s t : String) → strip_prefix (s ++ t) s ≡ some t
unfolding strip_prefix
strip_prefix-append s t = rw (starts_with-append s t, len-append s t, slice-append_right s t) refl

strip_prefix-eq-some : (v s t : String) → strip_prefix v s ≡ some t → v ≡ s ++ t
unfolding strip_prefix
strip_prefix-eq-some v s t h = elim (Bool-cases (starts_with v s)) [
  | inr e ↦ absurd (no_prefix (starts_with v s) (slice v (len s) (len v)) e h)
  | inl e ↦
      (let (r, q) = (starts_with_iff v s).0 e in
        sym q
        ∙ ap (λ z. s ++ z)
            (rest r (sym (strip_prefix-append s r) ∙ ap (λ z. strip_prefix z s) q ∙ h)))
]
  where
    no_prefix : (b : Bool) (x : String) → b ≡ false → (if b then some x else none) ≢ some t
    no_prefix true x e h = cc
    no_prefix false x e h = cc

    rest : (r : String) → some r ≡ some t → r ≡ t
    rest r e = cc

-- The verdict on a token.
abbrev judged : String → Option String → Result Status (Unit {0})
judged expected none = err unauthorized
judged expected (some t) = if str_eq t expected then ok tt else err unauthorized

accepted : (expected : String) → judged expected (some expected) ≡ ok tt
accepted expected = rw ((eq_iff expected expected).1 refl) refl

provided-Presents :
    (headers : HeaderMap) (expected : String)
    → Presents headers expected
    → provided headers ≡ some expected
unfolding provided
provided-Presents headers expected h =
    ap
      (λ found. elim found as (λ _. Option String) [
        | some (some v) ↦ strip_prefix v "Bearer "
        | _ ↦ none
      ])
      h
    ∙ strip_prefix-append "Bearer " expected

pub authorize-Presents :
    (headers : HeaderMap) (expected : String)
    → Presents headers expected
    → authorize headers (bearer expected) ≡ ok tt
unfolding authorize
authorize-Presents headers expected h =
    ap (judged expected) (provided-Presents headers expected h) ∙ accepted expected

-- What the header holds, by cases.
token_lem :
    (expected : String) (found : Option (Option String))
    → found ≢ some (some ("Bearer " ++ expected))
    → (token : Option String)
    → token ≡ elim found [ some (some v) ↦ strip_prefix v "Bearer " | _ ↦ none ]
    → judged expected token ≡ err unauthorized
token_lem expected found ne none e = refl
token_lem expected none ne (some t) e = cc
token_lem expected (some none) ne (some t) e = cc
token_lem expected (some (some v)) ne (some t) e = elim (Bool-cases (str_eq t expected)) [
  | inl q ↦ absurd (
      ne (
        ap (λ z. some (some z))
          (strip_prefix-eq-some v "Bearer " t (sym e)
            ∙ ap (λ z. "Bearer " ++ z) ((eq_iff t expected).0 q))))
  | inr q ↦ rw q refl
]

authorize-refused :
    (headers : HeaderMap) (expected : String)
    → (Presents headers expected → ⊥)
    → authorize headers (bearer expected) ≡ err unauthorized
unfolding authorize provided
authorize-refused headers expected ne =
    token_lem expected (header headers "authorization") ne (provided headers) refl

-- Where a token is configured, a registration, a heartbeat and a drain with the header
-- `authorization: Bearer` and the token are handled as if none were configured; without it they are
-- answered as unauthorized, and the table is not touched, not even read.
pub guarded_handlers :
    (float : Float) (p : Platform) (policy : HealthPolicy (float.F)) (headers : HeaderMap)
    (expected id : String) (req : RegisterRequest) (hb : Heartbeat) (db : Db)
    → (Presents headers expected
        → (register_node p (bearer expected) headers req db
            ≡ register_node p no_auth headers req db)
          × (heartbeat_node float p policy (bearer expected) headers id hb db
              ≡ heartbeat_node float p policy no_auth headers id hb db)
          × (drain_node p (bearer expected) headers id db ≡ drain_node p no_auth headers id db))
      × ((Presents headers expected → ⊥)
          → (register_node p (bearer expected) headers req db ≡ (db, err unauthorized))
            × (heartbeat_node float p policy (bearer expected) headers id hb db
                ≡ (db, err unauthorized))
            × (drain_node p (bearer expected) headers id db ≡ (db, err unauthorized)))
unfolding register_node heartbeat_node drain_node authorize
guarded_handlers float p policy headers expected id req hb db = (
  λ h. (
    rw (authorize-Presents headers expected h) refl,
    rw (authorize-Presents headers expected h) refl,
    rw (authorize-Presents headers expected h) refl,
  ),
  λ ne. (
    rw (authorize-refused headers expected ne) refl,
    rw (authorize-refused headers expected ne) refl,
    rw (authorize-refused headers expected ne) refl,
  ),
)
