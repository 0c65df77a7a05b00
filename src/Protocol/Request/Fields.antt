-- ===== src/Protocol/Request/Fields.antt =====
-- What each field of the grammar took: its wire form, by inversion of the parser's steps.
use Prim.Native.Nat.{bit_or}
use rust_proxy.Base.{
  ℕ, ◌+◌, ◌*◌, ◌/◌, ◌%◌, ◌≤◌, ◌<◌, ◌≡◌, refl, ◌⊎◌, ap, sym, subst, ◌∙◌, true, not, ◌||◌, List, [],
  ◌∷◌, ◌++◌, length, Result, ok, ok_or, arith, ◌==◌, ltb, All, length-take, inl, inr,
  take-append-drop,
}
use rust_proxy.Base.Bits.{bit_or_bytes}
use rust_proxy.Base.Utf8.{is_utf8, from_utf8}
use rust_proxy.Protocol.Constants.Atyp
use rust_proxy.Protocol.Error.{ProtocolError, unsupported}
use rust_proxy.Protocol.Host.{Host, ip, domain, v4, v6, atyp}
use rust_proxy.Protocol.Host.Layout.{IsByte, IsTyped, IsEncodable, host_field, port_field}
use rust_proxy.Protocol.Reader.Stream.{bind, byte, bytes, word, check, raise}
use rust_proxy.Protocol.Reader.Incremental.{
  and_then-eq-ok, bytes_taken, byte-eq-ok, check-eq-ok, raise-eq-ok,
}
use rust_proxy.Protocol.Request.Frame.{name_grammar, host_grammar}

pub give-eq-ok :
    {A : Type 0} (xs ys : List ℕ) (a b : A)
    → ◌≡◌ {A = Result ProtocolError (A × List ℕ)} (ok (a, xs)) (ok (b, ys))
    → (a ≡ b) × (xs ≡ ys)
give-eq-ok xs ys a b h = (cc, cc)

word_field :
    (hi lo : ℕ)
    → hi < 256
    → lo < 256
    → (port_field (bit_or (hi * 256) lo) ≡ hi ∷ lo ∷ []) × (bit_or (hi * 256) lo < 65536)
word_field hi lo h l = rw (bit_or_bytes hi lo l) (
    let e : (hi * 256 + lo) / 256 ≡ hi = omega arith in
    let e' : (hi * 256 + lo) % 256 ≡ lo = omega arith in (rw (e, e'), omega arith))

pub word_sound :
    (xs ys : List ℕ) (port : ℕ)
    → All IsByte xs
    → word xs ≡ ok (port, ys)
    → (xs ≡ port_field port ++ ys) × (port < 65536)
word_sound [] ys port b h = cc
word_sound (hi ∷ []) ys port b h = cc
word_sound (hi ∷ lo ∷ xs) ys port b h =
    let e : port ≡ bit_or (hi * 256) lo = cc in
    let (f, lt) = word_field hi lo b.0 b.1.0 in
    let rest : xs ≡ ys = cc in (rw (e, rest) (ap (λ zs. zs ++ ys) (sym f)), rw e lt)

pub All-append {κ} : (P : ℕ → Type κ) (xs ys : List ℕ) → All P (xs ++ ys) → All P xs × All P ys
All-append P [] ys h = (tt, h)
All-append P (x ∷ xs) ys h = let (a, b) = All-append P xs ys h.1 in ((h.0, a), b)

bytes_sound : (n : ℕ) (xs a ys : List ℕ) → bytes n xs ≡ ok (a, ys) → (xs ≡ a ++ ys) × (length a ≡ n)
bytes_sound n xs a ys h =
    let (fits, e, e') = bytes_taken n xs a ys h in
    (rw (e, e', take-append-drop n xs), omega (arith, length-take n xs, ap (length {0} {A = ℕ}) e))

from_utf8_sound :
    (name text : List ℕ)
    → ok_or (from_utf8 name) (unsupported Atyp.domain) ≡ ok text
    → (text ≡ name) × (is_utf8 name ≡ true)
unfolding from_utf8
from_utf8_sound name text h = ground arith

name_length : (len : ℕ) → not (len == 0 || ltb 255 len) ≡ true → (1 ≤ len) × (len ≤ 255)
name_length len h = ground arith

-- What the steps of `name_grammar` say together.
name_parts :
    (len : ℕ) (u : Unit {0}) (xs x1 x2 x3 x4 name text ys : List ℕ) (h : Host)
    → All IsByte xs
    → byte xs ≡ ok (len, x1)
    → check (not (len == 0 || ltb 255 len)) (unsupported Atyp.domain) x1 ≡ ok (u, x2)
    → bytes len x2 ≡ ok (name, x3)
    → raise (ok_or (from_utf8 name) (unsupported Atyp.domain)) x3 ≡ ok (text, x4)
    → ◌≡◌ {A = Result ProtocolError (Host × List ℕ)} (ok (domain text, x4)) (ok (h, ys))
    → (h ≡ domain name)
      × (xs ≡ host_field (domain name) ++ ys)
      × IsTyped (domain name)
      × IsEncodable (domain name)
name_parts len u xs x1 x2 x3 x4 name text ys h b e1 e2 e3 e4 e5 =
    let s1 : xs ≡ len ∷ x1 = byte-eq-ok xs x1 len e1 in
    let (s2, t2) = check-eq-ok _ _ x1 x2 u e2 in
    let (s3, t3) = bytes_sound len x2 name x3 e3 in
    let (s4, t4) = raise-eq-ok _ x3 x4 text e4 in
    let (s5, t5) = from_utf8_sound name text s4 in
    let (lo, hi) = name_length len s2 in
    let s6 : x4 ≡ ys = cc in
    let s7 : length name % 256 ≡ len = omega (arith, t3, hi) in
    let s8 : x1 ≡ name ++ ys = cc in
    let all : All IsByte (len ∷ (name ++ ys)) =
      subst (All IsByte) (s1 ∙ ap (λ zs. len ∷ zs) s8) b in
    (
      cc,
      rw s7 (s1 ∙ ap (λ zs. len ∷ zs) s8),
      (t5, (All-append IsByte name ys all.1).0),
      (omega (arith, t3, lo), omega (arith, t3, hi)),
    )

name_sound :
    (xs ys : List ℕ) (h : Host)
    → All IsByte xs
    → name_grammar xs ≡ ok (h, ys)
    → (name : List ℕ) × (h ≡ domain name)
      × (xs ≡ host_field (domain name) ++ ys)
      × IsTyped (domain name)
      × IsEncodable (domain name)
name_sound xs ys h b e =
    let (len, x1, e1, f1) = and_then-eq-ok _ (byte xs) e in
    let (u, x2, e2, f2) =
      and_then-eq-ok _ (check (not (len == 0 || ltb 255 len)) (unsupported Atyp.domain) x1) f1 in
    let (name, x3, e3, f3) = and_then-eq-ok _ (bytes len x2) f2 in
    let (text, x4, e4, f4) =
      and_then-eq-ok _ (raise (ok_or (from_utf8 name) (unsupported Atyp.domain)) x3) f3 in
    let (p1, p2, p3, p4) = name_parts len u xs x1 x2 x3 x4 name text ys h b e1 e2 e3 e4 f4 in
    (name, p1, p2, p3, p4)

octets_sound :
    (n : ℕ) (make : List ℕ → Host) (xs ys : List ℕ) (h : Host)
    → All IsByte xs
    → bind (bytes n) (λ b ws. ok (make b, ws)) xs ≡ ok (h, ys)
    → (b : List ℕ) × (h ≡ make b) × (xs ≡ b ++ ys) × (length b ≡ n) × All IsByte b
octets_sound n make xs ys h all e =
    let (b, ws, e1, f1) = and_then-eq-ok _ (bytes n xs) e in
    let (s, t) = bytes_sound n xs b ws e1 in
    let k : ws ≡ ys = cc in
    (b, cc, rw (← k) s, t, (All-append IsByte b ws (subst (All IsByte) s all)).0)

v4_sound :
    (xs ys : List ℕ) (h : Host)
    → All IsByte xs
    → host_grammar Atyp.ipv4 xs ≡ ok (h, ys)
    → (xs ≡ host_field h ++ ys) × (Atyp.ipv4 ≡ atyp h) × IsTyped h × IsEncodable h
unfolding atyp
v4_sound xs ys h all e =
    let (b, eh, s, n, bs) = octets_sound 4 (λ b. ip (v4 b)) xs ys h all e in
    rw eh (s, refl, (n, bs), tt)

v6_sound :
    (xs ys : List ℕ) (h : Host)
    → All IsByte xs
    → host_grammar Atyp.ipv6 xs ≡ ok (h, ys)
    → (xs ≡ host_field h ++ ys) × (Atyp.ipv6 ≡ atyp h) × IsTyped h × IsEncodable h
unfolding atyp
v6_sound xs ys h all e =
    let (b, eh, s, n, bs) = octets_sound 16 (λ b. ip (v6 b)) xs ys h all e in
    rw eh (s, refl, (n, bs), tt)

domain_sound :
    (xs ys : List ℕ) (h : Host)
    → All IsByte xs
    → host_grammar Atyp.domain xs ≡ ok (h, ys)
    → (xs ≡ host_field h ++ ys) × (Atyp.domain ≡ atyp h) × IsTyped h × IsEncodable h
unfolding atyp
domain_sound xs ys h all e =
    let (name, eh, s, t, n) = name_sound xs ys h all e in rw eh (s, refl, t, n)

code_sound :
    (code : ℕ) (xs ys : List ℕ) (h : Host)
    → host_grammar code xs ≡ ok (h, ys)
    → (code ≡ Atyp.ipv4) ⊎ ((code ≡ Atyp.ipv6) ⊎ (code ≡ Atyp.domain))
code_sound code xs ys h e = ground arith

pub host_sound :
    (code : ℕ) (xs ys : List ℕ) (h : Host)
    → All IsByte xs
    → host_grammar code xs ≡ ok (h, ys)
    → (xs ≡ host_field h ++ ys) × (code ≡ atyp h) × IsTyped h × IsEncodable h
host_sound code xs ys h all e = elim (code_sound code xs ys h e) [
  | inl c ↦ rw c (v4_sound xs ys h all (subst (λ k. host_grammar k xs ≡ ok (h, ys)) c e))
  | inr (inl c) ↦ rw c (v6_sound xs ys h all (subst (λ k. host_grammar k xs ≡ ok (h, ys)) c e))
  | inr (inr c) ↦ rw c (domain_sound xs ys h all (subst (λ k. host_grammar k xs ≡ ok (h, ys)) c e))
]
