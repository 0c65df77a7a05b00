-- ===== src/Protocol/Host/Layout.antt =====
-- The wire form of an address as a concatenation of fields, and what `write` does to a buffer.
use Prim.Native.Nat.{bit_and, bit_or}
use rust_proxy.Base.{
  ℕ, suc, ◌+◌, ◌*◌, ◌/◌, ◌%◌, ◌≤◌, ◌<◌, ◌≡◌, refl, ap, sym, ◌∙◌, true, some, List, ◌∷◌, [], ◌++◌,
  leb, drop, length, replicate, All, arith, le→leb, take-append, drop-append, drop-drop, drop_all,
  append-nil, length-drop, length-append, length-replicate, append_assoc,
}
use rust_proxy.Base.Bits.{bit_and_byte, bit_or_bytes}
use rust_proxy.Base.Utf8.{is_utf8}
use rust_proxy.Protocol.Host.{
  v4, v6, Host, ip, domain, SocksAddr, wire_len, copy_into, write_host, write_port, write, to_vec,
}

abbrev pub IsByte : ℕ → Type 0
IsByte b = b < 256

-- What the Rust types say of a host: the number of octets, and UTF-8 in a name.
abbrev pub IsTyped : Host → Type 0
IsTyped (ip (v4 octets)) = (length octets ≡ 4) × All IsByte octets
IsTyped (ip (v6 octets)) = (length octets ≡ 16) × All IsByte octets
IsTyped (domain name) = (is_utf8 name ≡ true) × All IsByte name

-- The length of a name fits its byte on the wire, and a request wants one.
abbrev pub IsEncodable : Host → Type 0
IsEncodable (domain name) = (1 ≤ length name) × (length name ≤ 255)
IsEncodable _ = Unit {0}

-- The fields in wire order, RFC 1928 section 5.
abbrev pub host_field : Host → List ℕ
host_field (ip (v4 octets)) = octets
host_field (ip (v6 octets)) = octets
host_field (domain name) = length name % 256 ∷ name

abbrev pub port_field : ℕ → List ℕ
port_field port = port / 256 ∷ port % 256 ∷ []

abbrev pub layout : SocksAddr → List ℕ
layout addr = host_field addr.host ++ port_field addr.port

-- A copy at the end of what is written extends it.
copy_into-append :
    (done bytes old : List ℕ) (pos : ℕ)
    → pos ≡ length done
    → length bytes ≤ length old
    → copy_into (done ++ old) pos bytes ≡ some ((done ++ bytes) ++ drop (length bytes) old)
unfolding copy_into
copy_into-append done bytes old pos e h =
    rw (e, room, take-append done old, beyond, append_assoc done bytes (drop (length bytes) old))
  where
    room : leb (length done + length bytes) (length (done ++ old)) ≡ true
    room = le→leb _ _ (omega (arith, length-append done old))

    beyond : drop (length done + length bytes) (done ++ old) ≡ drop (length bytes) old
    beyond =
        sym (drop-drop (length done) (length bytes) (done ++ old))
        ∙ ap (drop (length bytes)) (drop-append done old)

length-host_field : (h : Host) → IsTyped h → length (host_field h) + 2 ≡ wire_len h
unfolding wire_len
length-host_field (ip (v4 octets)) t = omega (arith, t.0)
length-host_field (ip (v6 octets)) t = omega (arith, t.0)
length-host_field (domain name) t = omega arith

write_host_lem :
    (h : Host) (out : List ℕ)
    → IsTyped h
    → wire_len h ≤ length out
    → write_host h out 0
      ≡ some (host_field h ++ drop (length (host_field h)) out, length (host_field h))
unfolding write_host wire_len
write_host_lem (ip (v4 octets)) out t fits =
    rw (copy_into-append [] octets out 0 refl (omega (arith, t.0)), t.0)
write_host_lem (ip (v6 octets)) out t fits =
    rw (copy_into-append [] octets out 0 refl (omega (arith, t.0)), t.0)
write_host_lem (domain name) out t fits = rw (copy_into-append [] len out 0 refl (omega arith)) (
    rw (copy_into-append len name (drop 1 out) 1 refl (omega (arith, length-drop {0} 1 out)))
      (rw (drop-drop 1 (length name) out, one, none_before)))
  where
    len : List ℕ
    len = length name % 256 ∷ []

    one : 1 + length name ≡ suc (length name)
    one = omega arith

    none_before : 0 + suc (length name) ≡ suc (length name)
    none_before = omega arith

write_port_lem :
    (field left : List ℕ) (port pos : ℕ)
    → pos ≡ length field
    → 2 ≤ length left
    → port < 65536
    → write_port port (field ++ left) pos ≡ some ((field ++ port_field port) ++ drop 2 left)
unfolding write_port
write_port_lem field left port pos e room p =
    rw (copy_into-append field (port / 256 % 256 ∷ []) left pos e (omega arith)) (
      rw
        (copy_into-append (field ++ port / 256 % 256 ∷ []) (bit_and port 0xff % 256 ∷ [])
          (drop 1 left) (pos + 1) (omega (arith, length-append field (port / 256 % 256 ∷ [])))
          (omega (arith, length-drop {0} 1 left)))
        (rw (bit_and_byte port, high, low, drop-drop 1 1 left, append_assoc field)))
  where
    high : port / 256 % 256 ≡ port / 256
    high = omega arith

    low : port % 256 % 256 ≡ port % 256
    low = omega arith

-- With room for the address, `write` puts the wire form at the front of the buffer, leaves the
-- rest of the buffer alone and returns the number of bytes written.
pub write_lem :
    (addr : SocksAddr) (out : List ℕ)
    → IsTyped addr.host
    → addr.port < 65536
    → wire_len addr.host ≤ length out
    → write addr out ≡ some (layout addr ++ drop (wire_len addr.host) out, wire_len addr.host)
unfolding write
write_lem addr out t p fits =
    rw (le→leb _ _ fits, write_host_lem addr.host out t fits)
      (rw
        (write_port_lem (host_field addr.host) (drop (length (host_field addr.host)) out) addr.port
          (length (host_field addr.host)) refl
          (omega (
            arith,
            length-host_field addr.host t,
            length-drop {0} (length (host_field addr.host)) out,
          ))
          p)
        (rw (drop-drop (length (host_field addr.host)) 2 out, length-host_field addr.host t)))

-- So `to_vec` never panics, and gives the fields in wire order.
pub to_vec_lem :
    (addr : SocksAddr) → IsTyped addr.host → addr.port < 65536 → to_vec addr ≡ some (layout addr)
unfolding to_vec
to_vec_lem addr t p =
    rw (write_lem addr zeros t p (omega (arith, full)))
      (rw (drop_all (wire_len addr.host) zeros (omega (arith, full)), append-nil))
  where
    zeros : List ℕ
    zeros = replicate (wire_len addr.host) 0

    full : length zeros ≡ wire_len addr.host
    full = length-replicate _ _

pub length-layout :
    (addr : SocksAddr) → IsTyped addr.host → length (layout addr) ≡ wire_len addr.host
length-layout addr t = omega (
  arith,
  length-append (host_field addr.host) (port_field addr.port),
  length-host_field addr.host t,
)

-- The two bytes of a port make the port again.
pub join_port : (port : ℕ) → bit_or (port / 256 * 256) (port % 256) ≡ port
join_port port = omega (arith, bit_or_bytes (port / 256) (port % 256) (omega arith))
