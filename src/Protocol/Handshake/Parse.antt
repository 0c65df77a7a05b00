-- ===== src/Protocol/Handshake/Parse.antt =====
-- Greetings on the wire.
use rust_proxy.Base.{
  ℕ, ◌+◌, ◌≤◌, ◌<◌, ◌≡◌, ◌≢◌, refl, sym, ap, subst, ◌∙◌, ◌||◌, Bool-cases, inl, inr, ltb, Result,
  err, [], append-nil, ==_iff, List, ◌∷◌, ◌++◌, ◌==◌, length, ok, arith, length-append,
}
use rust_proxy.Protocol.Constants.{version}
use rust_proxy.Protocol.Error.{ProtocolError, bad_version, unsupported}
use rust_proxy.Protocol.Reader.{usize_mod, value}
use rust_proxy.Protocol.Reader.Stream.{
  Parser, bind, byte, bytes, check, raise, Agrees, run_lem, Agrees-bind, Agrees-lift,
  Agrees-require, Agrees-read_u8, Agrees-read_bytes,
}
use rust_proxy.Protocol.Reader.Incremental.{bytes_fit, and_then-eq-ok, check-eq-ok, raise-eq-ok}
use rust_proxy.Protocol.Handshake.{Greeting, finish, parse_greeting, parse, frame_len}

abbrev grammar : Parser Greeting
grammar = bind byte λ ver. bind (check (ver == version) (bad_version ver)) λ _.
    bind byte
      λ nmethods. bind (bytes nmethods) λ methods. raise (finish (record { methods = methods }))

Agrees-parse_greeting : {buf : List ℕ} → Agrees buf parse_greeting grammar
unfolding parse_greeting
Agrees-parse_greeting = Agrees-bind Agrees-read_u8 λ ver. Agrees-bind (Agrees-require _ _) λ _.
    Agrees-bind Agrees-read_u8
      λ nmethods. Agrees-bind (Agrees-read_bytes nmethods) λ methods. Agrees-lift _

finish_lem :
    (methods : List ℕ)
    → 1 ≤ length methods
    → length methods ≤ 255
    → finish (record { methods = methods }) ≡ ok (record { methods = methods })
unfolding finish
finish_lem methods lo hi = ground arith

-- A greeting of 1 to 255 methods is parsed from its frame, whatever follows, and `frame_len` of
-- these bytes is the length of the frame.
pub greeting_round_trip :
    (methods rest : List ℕ)
    → 1 ≤ length methods
    → length methods ≤ 255
    → 257 + length rest < usize_mod
    → let buf = version ∷ length methods ∷ (methods ++ rest) in
      (parse buf ≡ ok (record { methods = methods })) × (frame_len buf ≡ ok (2 + length methods))
unfolding parse frame_len
greeting_round_trip methods rest lo hi small = (
  run_lem _ (omega (arith, length-append methods rest)) Agrees-parse_greeting
      ∙ rw (bytes_fit (length methods) methods rest refl, finish_lem methods lo hi),
  ground arith,
)

-- `finish` returns what it was given.
finish-eq-ok : (g g' : Greeting) → finish g ≡ ok g' → g ≡ g'
unfolding finish
finish-eq-ok g g' h = elim (Bool-cases (length g.methods == 0 || ltb 255 (length g.methods))) [
  | inl e ↦ absurd (no (rw e at h))
  | inr e ↦ same (rw e at h)
]
  where
    no : ◌≢◌ {A = Result ProtocolError Greeting} (err (unsupported 0x00)) (ok g')
    no h = cc

    same : ◌≡◌ {A = Result ProtocolError Greeting} (ok g) (ok g') → g ≡ g'
    same h = cc

bytes_all : (methods : List ℕ) → bytes (length methods) methods ≡ ok (methods, [])
bytes_all methods =
    subst (λ z. bytes (length methods) z ≡ ok (methods, [])) (append-nil methods)
      (bytes_fit (length methods) methods [] refl)

value_greeting :
    (r : Result ProtocolError (Greeting × List ℕ)) (g : Greeting)
    → value r ≡ ok g
    → (rest : List ℕ) × (r ≡ ok (g, rest))
value_greeting (ok (a, rest)) g h = (rest, cc)
value_greeting (err e) g h = cc

-- A header and as many bytes as it says parse to these bytes, and only under the right version.
pub greeting_sound :
    (ver : ℕ) (methods : List ℕ) (g : Greeting)
    → 2 + length methods < usize_mod
    → parse (ver ∷ length methods ∷ methods) ≡ ok g
    → (ver ≡ version) × (g.methods ≡ methods)
unfolding parse
greeting_sound ver methods g small h =
    let (rest, e) =
      value_greeting (grammar (ver ∷ length methods ∷ methods)) g
        (sym (run_lem (ver ∷ length methods ∷ methods) (omega arith) Agrees-parse_greeting) ∙ h) in
    let (u, x2, e2, f2) =
      and_then-eq-ok _ (check (ver == version) (bad_version ver) (length methods ∷ methods)) e in
    let (k, x) =
      check-eq-ok (ver == version) (bad_version ver) (length methods ∷ methods) x2 u e2 in
    let (r, _) =
      raise-eq-ok (finish (record { methods = methods })) [] rest g
        (rw (k, bytes_all methods) at e) in
    (
      (==_iff ver version).0 k,
      sym (ap (λ (z : Greeting). z.methods) (finish-eq-ok (record { methods = methods }) g r)),
    )
