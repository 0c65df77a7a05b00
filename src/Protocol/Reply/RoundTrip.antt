-- ===== src/Protocol/Reply/RoundTrip.antt =====
-- Replies on the wire and back.
use rust_proxy.Base.{
  ℕ, ◌+◌, ◌%◌, ◌≤◌, ◌<◌, ◌≡◌, ap, ◌∙◌, true, some, List, ◌∷◌, ◌++◌, ◌==◌, length, ok, err, ok_or,
  if◌then◌else◌, arith, length-append, append_assoc,
}
use rust_proxy.Base.Utf8.{is_utf8, from_utf8}
use rust_proxy.Protocol.Constants.{version}
use rust_proxy.Protocol.Constants.Atyp
use rust_proxy.Protocol.Error.{bad_version, unsupported}
use rust_proxy.Protocol.Host.{Host, ip, domain, v4, v6, SocksAddr, atyp, wire_len}
use rust_proxy.Protocol.Host.Layout.{
  IsTyped, host_field, port_field, layout, to_vec_lem, length-layout, join_port,
}
use rust_proxy.Protocol.Reader.{usize_mod, value}
use rust_proxy.Protocol.Reader.Stream.{
  Parser, bind, byte, bytes, word, check, raise, give, Agrees, run_lem, Agrees-bind, Agrees-if,
  Agrees-lift, Agrees-pure, Agrees-require, Agrees-read_u8, Agrees-read_u16, Agrees-read_bytes,
}
use rust_proxy.Protocol.Reader.Incremental.{bytes_fit}
use rust_proxy.Protocol.Reply.{Reply, parse_host, parse_frame, parse, to_bytes}

abbrev host_grammar : ℕ → Parser Host
host_grammar code =
    if code == Atyp.ipv4
    then bind (bytes 4) (λ b. give (ip (v4 b)))
    else if code == Atyp.ipv6
    then bind (bytes 16) (λ b. give (ip (v6 b)))
    else if code == Atyp.domain
    then (bind byte λ len.
        bind (bytes len) λ name.
          bind (raise (ok_or (from_utf8 name) (unsupported code))) λ text. give (domain text))
    else raise (err (unsupported code))

abbrev grammar : Parser Reply
grammar = bind byte λ ver. bind (check (ver == version) (bad_version ver)) λ _. bind byte λ code.
    bind byte λ rsv. bind byte λ kind. bind (host_grammar kind) λ host.
      bind word
        λ port. give (record { code = code; bind_addr = record { host = host; port = port } })

Agrees-parse_host : {buf : List ℕ} (code : ℕ) → Agrees buf (parse_host code) (host_grammar code)
unfolding parse_host
Agrees-parse_host code =
    Agrees-if (code == Atyp.ipv4) (Agrees-bind (Agrees-read_bytes 4) (λ b. Agrees-pure _)) (
      Agrees-if (code == Atyp.ipv6) (Agrees-bind (Agrees-read_bytes 16) (λ b. Agrees-pure _)) (
        Agrees-if (code == Atyp.domain)
          (Agrees-bind Agrees-read_u8 λ len. Agrees-bind (Agrees-read_bytes len) λ name.
            Agrees-bind (Agrees-lift (ok_or (from_utf8 name) (unsupported code)))
              λ text. Agrees-pure (domain text))
          (Agrees-lift (err (unsupported code)))))

Agrees-parse_frame : {buf : List ℕ} → Agrees buf parse_frame grammar
unfolding parse_frame
Agrees-parse_frame = Agrees-bind Agrees-read_u8 λ ver. Agrees-bind (Agrees-require _ _) λ _.
    Agrees-bind Agrees-read_u8 λ code. Agrees-bind Agrees-read_u8 λ rsv.
      Agrees-bind Agrees-read_u8 λ kind.
        Agrees-bind (Agrees-parse_host kind)
          λ host. Agrees-bind Agrees-read_u16 λ port. Agrees-pure _

-- A name of a reply may be empty, but its length must fit a byte.
abbrev pub IsEncodable : Host → Type 0
IsEncodable (domain name) = length name ≤ 255
IsEncodable _ = Unit {0}

pub record IsSendable (addr : SocksAddr) : Type 0 where
  pub typed : IsTyped addr.host
  pub encodable : IsEncodable addr.host
  pub port_fits : addr.port < 65536

text_lem :
    (name : List ℕ)
    → is_utf8 name ≡ true
    → ok_or (from_utf8 name) (unsupported Atyp.domain) ≡ ok name
unfolding from_utf8
text_lem name t = rw t

host_grammar-host_field :
    (h : Host) (ys : List ℕ)
    → IsTyped h
    → IsEncodable h
    → host_grammar (atyp h) (host_field h ++ ys) ≡ ok (h, ys)
unfolding atyp
host_grammar-host_field (ip (v4 octets)) ys t e = rw (bytes_fit 4 octets ys t.0)
host_grammar-host_field (ip (v6 octets)) ys t e = rw (bytes_fit 16 octets ys t.0)
host_grammar-host_field (domain name) ys t e =
    rw (bytes_fit (length name % 256) name ys (omega arith), text_lem name t.0)

abbrev frame : Reply → List ℕ
frame r = version ∷ r.code ∷ 0x00 ∷ atyp r.bind_addr.host ∷ layout r.bind_addr

grammar-frame :
    (r : Reply) (rest : List ℕ) → IsSendable r.bind_addr → grammar (frame r ++ rest) ≡ ok (r, rest)
grammar-frame r rest s =
    rw
      (
        append_assoc (host_field r.bind_addr.host) (port_field r.bind_addr.port) rest,
        host_grammar-host_field r.bind_addr.host (port_field r.bind_addr.port ++ rest) s.typed
            s.encodable,
      )
      (rw (join_port r.bind_addr.port))

wire_len-le : (h : Host) → IsEncodable h → wire_len h ≤ 258
unfolding wire_len
wire_len-le (ip (v4 octets)) e = omega arith
wire_len-le (ip (v6 octets)) e = omega arith
wire_len-le (domain name) e = omega arith

-- A reply whose address can be sent is serialised without a panic, and comes back from the frame,
-- whatever bytes follow it.
pub reply_round_trip :
    (r : Reply) (rest : List ℕ)
    → IsSendable r.bind_addr
    → 262 + length rest < usize_mod
    → (buf : List ℕ) × (to_bytes r ≡ some buf) × (parse (buf ++ rest) ≡ ok r)
unfolding to_bytes parse
reply_round_trip r rest s small = (
  frame r,
  rw (to_vec_lem r.bind_addr s.typed s.port_fits, to_bytes),
  run_lem (frame r ++ rest)
        (omega (
          arith,
          length-append (layout r.bind_addr) rest,
          length-layout r.bind_addr s.typed,
          wire_len-le r.bind_addr.host s.encodable,
        ))
        Agrees-parse_frame
      ∙ ap value (grammar-frame r rest s),
)
