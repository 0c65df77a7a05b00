-- ===== src/Protocol/Request/RoundTrip.antt =====
-- `Request::to_bytes` and then `Request::parse`, and the requests that can be encoded.
use rust_proxy.Base.{
  ℕ, ◌+◌, ◌%◌, ◌≤◌, ◌<◌, ◌≡◌, ap, true, not, ◌||◌, ◌==◌, ltb, some, List, ◌∷◌, ◌++◌, length, ok,
  arith, append_assoc, length-append,
}
use rust_proxy.Base.Utf8.{is_utf8, from_utf8}
use rust_proxy.Protocol.Constants.{version}
use rust_proxy.Protocol.Command.{to_u8, from_u8-to_u8}
use rust_proxy.Protocol.Host.{Host, ip, domain, v4, v6, SocksAddr, atyp, wire_len}
use rust_proxy.Protocol.Host.Layout.{
  IsTyped, IsEncodable, host_field, port_field, layout, to_vec_lem, length-layout, join_port,
}
use rust_proxy.Protocol.Reader.{usize_mod}
use rust_proxy.Protocol.Reader.Incremental.{bytes_fit}
use rust_proxy.Protocol.Request.{Request, parse, to_bytes}
use rust_proxy.Protocol.Request.Frame.{
  name_grammar, host_grammar, frame_grammar, parse-frame_grammar,
}

-- A request as its Rust type and the wire format allow it.
pub record IsSendable (addr : SocksAddr) : Type 0 where
  pub typed : IsTyped addr.host
  pub encodable : IsEncodable addr.host
  pub port_fits : addr.port < 65536

abbrev pub frame : ℕ → Request → List ℕ
frame rsv req = version ∷ to_u8 req.command ∷ rsv ∷ atyp req.addr.host ∷ layout req.addr

pub from_utf8-eq-some : (name : List ℕ) → is_utf8 name ≡ true → from_utf8 name ≡ some name
unfolding from_utf8
from_utf8-eq-some name t = rw t

name_grammar_lem :
    (len : ℕ) (name ys : List ℕ)
    → length name ≡ len
    → 1 ≤ len
    → len ≤ 255
    → is_utf8 name ≡ true
    → name_grammar (len ∷ name ++ ys) ≡ ok (domain name, ys)
name_grammar_lem len name ys e lo hi t =
    let fits : not (len == 0 || ltb 255 len) ≡ true = ground arith in
    rw (fits, bytes_fit len name ys e, from_utf8-eq-some name t)

pub host_grammar-host_field :
    (h : Host) (ys : List ℕ)
    → IsTyped h
    → IsEncodable h
    → host_grammar (atyp h) (host_field h ++ ys) ≡ ok (h, ys)
unfolding atyp
host_grammar-host_field (ip (v4 octets)) ys t e = rw (bytes_fit 4 octets ys t.0)
host_grammar-host_field (ip (v6 octets)) ys t e = rw (bytes_fit 16 octets ys t.0)
host_grammar-host_field (domain name) ys t e =
    name_grammar_lem (length name % 256) name ys (omega (arith, e)) (omega (arith, e))
      (omega (arith, e)) t.0

frame_grammar-frame :
    (rsv : ℕ) (req : Request) (rest : List ℕ)
    → IsSendable req.addr
    → frame_grammar (frame rsv req ++ rest) ≡ ok (req, rest)
frame_grammar-frame rsv req rest s =
    rw
      (
        from_u8-to_u8 req.command,
        append_assoc (host_field req.addr.host) (port_field req.addr.port) rest,
        host_grammar-host_field req.addr.host (port_field req.addr.port ++ rest) s.typed
            s.encodable,
      )
      (rw (join_port req.addr.port))

wire_len-le : (h : Host) → IsEncodable h → wire_len h ≤ 258
unfolding wire_len
wire_len-le (ip (v4 octets)) e = omega arith
wire_len-le (ip (v6 octets)) e = omega arith
wire_len-le (domain name) e = omega arith

-- A frame in front of any bytes is parsed, whatever its reserved byte, and its length is returned.
pub parse-frame :
    (rsv : ℕ) (req : Request) (rest : List ℕ)
    → IsSendable req.addr
    → length (frame rsv req ++ rest) < usize_mod
    → parse (frame rsv req ++ rest) ≡ ok (req, length (frame rsv req))
parse-frame rsv req rest s small =
    rw (parse-frame_grammar _ small, frame_grammar-frame rsv req rest s)
      (ap (λ n. ok (req, n))
        (omega (arith, length-append (host_field req.addr.host ++ port_field req.addr.port) rest)))

-- A request whose address can be sent is serialised as its frame, without a panic.
pub to_bytes-frame : (req : Request) → IsSendable req.addr → to_bytes req ≡ some (frame 0 req)
unfolding to_bytes
to_bytes-frame req s = rw (to_vec_lem req.addr s.typed s.port_fits, to_bytes)

-- A request whose address can be sent is serialised without a panic, and parsing the frame, whatever
-- bytes follow it, gives the request back with the length of the frame.
pub request_round_trip :
    (req : Request) (rest : List ℕ)
    → IsSendable req.addr
    → 262 + length rest < usize_mod
    → (buf : List ℕ) × (to_bytes req ≡ some buf) × (parse (buf ++ rest) ≡ ok (req, length buf))
request_round_trip req rest s small = (
  frame 0 req,
  to_bytes-frame req s,
  parse-frame 0 req rest s (
      omega (
        arith,
        length-append (layout req.addr) rest,
        length-layout req.addr s.typed,
        wire_len-le req.addr.host s.encodable,
      )),
)
