-- ===== src/Protocol/Request/Sound.antt =====
-- What `Request::parse` accepts, against the wire form of a request.
use rust_proxy.Base.{
  ℕ, ◌<◌, ◌≡◌, subst, ◌∙◌, List, [], ◌∷◌, ◌++◌, length, take, Result, ok, ◌==◌, ==_iff, All,
  append_assoc, append-nil, take-append,
}
use rust_proxy.Protocol.Constants.{version}
use rust_proxy.Protocol.Error.{ProtocolError, bad_version}
use rust_proxy.Protocol.Command.{Command, to_u8, from_u8, to_u8-from_u8}
use rust_proxy.Protocol.Host.{Host}
use rust_proxy.Protocol.Host.Layout.{IsByte, host_field, port_field}
use rust_proxy.Protocol.Reader.{usize_mod}
use rust_proxy.Protocol.Reader.Stream.{byte, word, check, raise}
use rust_proxy.Protocol.Reader.Incremental.{and_then-eq-ok, byte-eq-ok, check-eq-ok, raise-eq-ok}
use rust_proxy.Protocol.Request.{Request, parse}
use rust_proxy.Protocol.Request.Frame.{host_grammar, frame_grammar}
use rust_proxy.Protocol.Request.RoundTrip.{IsSendable, frame}
use rust_proxy.Protocol.Request.Prefix.{parse-Taken}
use rust_proxy.Protocol.Request.Fields.{give-eq-ok, word_sound, All-append, host_sound}

header_sound :
    (ver cmd rsv code : ℕ) (u : Unit {0}) (command : Command) (xs x1 x2 x3 x4 x5 x6 : List ℕ)
    → byte xs ≡ ok (ver, x1)
    → check (ver == version) (bad_version ver) x1 ≡ ok (u, x2)
    → byte x2 ≡ ok (cmd, x3)
    → raise (from_u8 cmd) x3 ≡ ok (command, x4)
    → byte x4 ≡ ok (rsv, x5)
    → byte x5 ≡ ok (code, x6)
    → xs ≡ version ∷ to_u8 command ∷ rsv ∷ code ∷ x6
header_sound ver cmd rsv code u command xs x1 x2 x3 x4 x5 x6 e1 e2 e3 e4 e5 e6 =
    let (k1, k2) = check-eq-ok (ver == version) (bad_version ver) x1 x2 u e2 in
    let (k3, k4) = raise-eq-ok (from_u8 cmd) x3 x4 command e4 in
    rw (
      byte-eq-ok xs x1 ver e1,
      (==_iff ver version).0 k1,
      k2,
      byte-eq-ok x2 x3 cmd e3,
      ← to_u8-from_u8 cmd command k3,
      k4,
      byte-eq-ok x4 x5 rsv e5,
      byte-eq-ok x5 x6 code e6,
    )

body_sound :
    (rsv code port : ℕ) (command : Command) (host : Host) (xs x6 x7 ys : List ℕ)
    → All IsByte xs
    → xs ≡ version ∷ to_u8 command ∷ rsv ∷ code ∷ x6
    → host_grammar code x6 ≡ ok (host, x7)
    → word x7 ≡ ok (port, ys)
    → let req : Request = record {
      command = command;
      addr = record { host = host; port = port };
    } in
      (xs ≡ frame rsv req ++ ys) × IsSendable req.addr
body_sound rsv code port command host xs x6 x7 ys all e1 e2 e3 =
    let all' = subst (All IsByte) e1 all in
    let (h1, h2, h3, h4) = host_sound code x6 x7 host all'.1.1.1.1 e2 in
    let (w1, w2) =
      word_sound x7 ys port
        (All-append IsByte (host_field host) x7 (subst (All IsByte) h1 all'.1.1.1.1)).1 e3 in
    (
      rw (e1, h1, h2, w1, append_assoc (host_field host) (port_field port) ys),
      record { typed = h3; encodable = h4; port_fits = w2 },
    )

returned :
    (rsv : ℕ) (found req : Request) (xs left ys : List ℕ)
    → ◌≡◌ {A = Result ProtocolError (Request × List ℕ)} (ok (found, left)) (ok (req, ys))
    → xs ≡ frame rsv found ++ left
    → IsSendable found.addr
    → (rsv : ℕ) × (xs ≡ frame rsv req ++ ys) × IsSendable req.addr
returned rsv found req xs left ys e s t =
    let (r1, r2) = give-eq-ok left ys found req e in
    (rsv, rw (← r1, ← r2) s, subst (λ (r : Request). IsSendable r.addr) r1 t)

-- What the grammar took is a frame.
frame_sound :
    (xs ys : List ℕ) (req : Request)
    → All IsByte xs
    → frame_grammar xs ≡ ok (req, ys)
    → (rsv : ℕ) × (xs ≡ frame rsv req ++ ys) × IsSendable req.addr
frame_sound xs ys req all e =
    let (ver, x1, e1, f1) = and_then-eq-ok _ (byte xs) e in
    let (u, x2, e2, f2) = and_then-eq-ok _ (check (ver == version) (bad_version ver) x1) f1 in
    let (cmd, x3, e3, f3) = and_then-eq-ok _ (byte x2) f2 in
    let (command, x4, e4, f4) = and_then-eq-ok _ (raise (from_u8 cmd) x3) f3 in
    let (rsv, x5, e5, f5) = and_then-eq-ok _ (byte x4) f4 in
    let (code, x6, e6, f6) = and_then-eq-ok _ (byte x5) f5 in
    let (host, x7, e7, f7) = and_then-eq-ok _ (host_grammar code x6) f6 in
    let (port, x8, e8, f8) = and_then-eq-ok _ (word x7) f7 in
    let head = header_sound ver cmd rsv code u command xs x1 x2 x3 x4 x5 x6 e1 e2 e3 e4 e5 e6 in
    let (b1, b2) = body_sound rsv code port command host xs x6 x7 x8 all head e7 e8 in
    returned rsv _ req xs x8 ys f8 b1 b2

-- Whatever bytes `parse` accepts are the wire form of the request that it returns: version 5, the
-- command, some reserved byte, the address type, the address and the port, with an address that
-- can be sent, in as many bytes as it counted.
pub parse_sound :
    (buf : List ℕ) (req : Request) (n : ℕ)
    → All IsByte buf
    → length buf < usize_mod
    → parse buf ≡ ok (req, n)
    → (rsv : ℕ) × (take n buf ≡ frame rsv req) × IsSendable req.addr
parse_sound buf req n all small h =
    let (ys, t, e) = parse-Taken buf req n small h in
    let bytes_used : All IsByte t.used =
      (All-append IsByte t.used ys (subst (All IsByte) t.split all)).0 in
    let alone : frame_grammar t.used ≡ ok (req, []) =
      subst (λ zs. frame_grammar zs ≡ ok (req, [])) (append-nil t.used) (t.rest_free []) in
    let (rsv, f, s) = frame_sound t.used [] req bytes_used alone in
    (rsv, rw (t.split, e, take-append t.used ys) (f ∙ append-nil (frame rsv req)), s)
