-- ===== src/Protocol/Request.antt =====
-- crates/protocol/src/request.rs: the client's request.
pub mod Frame
pub mod RoundTrip
pub mod Prefix
pub mod Fields
pub mod Sound
use rust_proxy.Base.{
  ℕ, ◌+◌, Bool, true, Option, none, some, List, [], ◌∷◌, ◌++◌, ◌==◌, ltb, leb, ◌||◌, not,
  if◌then◌else◌, Result, ok, err, ok_or,
}
use rust_proxy.Base.Utf8.{from_utf8}
use rust_proxy.Protocol.Constants.{version, request_header_len}
use rust_proxy.Protocol.Constants.Atyp
use rust_proxy.Protocol.Error.{ProtocolError, bad_version, unsupported}
use rust_proxy.Protocol.Host.{Host, ip, domain, v4, v6, SocksAddr, to_vec, atyp}
use rust_proxy.Protocol.Reader.{
  Reader, Read, ◌>>=◌, ◌>>◌, pure, lift, require, run, position, read_u8, read_u16, read_bytes,
}
use rust_proxy.Protocol.Command.{Command, from_u8, to_u8}

pub record Request : Type 0 where
  pub command : Command
  pub addr : SocksAddr

-- The match on `atyp`. The slices of 4 and 16 bytes are the octets.
unfoldable pub parse_host : ℕ → Read Host
parse_host code =
    if code == Atyp.ipv4
    then (do b ← read_bytes 4; pure (ip (v4 b)))
    else if code == Atyp.ipv6
    then (do b ← read_bytes 16; pure (ip (v6 b)))
    else if code == Atyp.domain
    then (do
      len ← read_u8
      require (not (len == 0 || ltb 255 len)) (unsupported Atyp.domain)
      name ← read_bytes len
      text ← lift (ok_or (from_utf8 name) (unsupported Atyp.domain))
      pure (domain text))
    else lift (err (unsupported code))

unfoldable pub parse_frame : Read (Request × ℕ)
parse_frame = do
  ver ← read_u8
  require (ver == version) (bad_version ver)
  cmd ← read_u8
  command ← lift (from_u8 cmd)
  rsv ← read_u8
  code ← read_u8
  host ← parse_host code
  port ← read_u16
  end ← position
  pure (record { command = command; addr = record { host = host; port = port } }, end)

-- The request and the number of bytes it took.
unfoldable pub parse : List ℕ → Result ProtocolError (Request × ℕ)
unfolding parse_frame run
parse buf = run parse_frame buf

unfoldable pub addr_bytes : Request → Option (List ℕ)
addr_bytes request = to_vec request.addr

-- `none` is the panic of `to_vec`.
unfoldable pub to_bytes : Request → Option (List ℕ)
to_bytes request = elim (to_vec request.addr) [
  | none ↦ none
  | some addr ↦ some (version ∷ to_u8 request.command ∷ 0x00 ∷ atyp request.addr.host ∷ addr)
]

unfoldable pub addr_len : ℕ → Option ℕ → Result ProtocolError ℕ
addr_len code domain_len =
    if code == Atyp.ipv4
    then ok (4 + 2)
    else if code == Atyp.ipv6
    then ok (16 + 2)
    else if code == Atyp.domain
    then (let len : ℕ = elim domain_len [ none ↦ 0 | some n ↦ n ] in
        if len == 0 || ltb 255 len then err (unsupported Atyp.domain) else ok (1 + len + 2))
    else err (unsupported code)
