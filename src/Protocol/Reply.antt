-- ===== src/Protocol/Reply.antt =====
-- crates/protocol/src/reply.rs: the server's reply.
pub mod RoundTrip
use rust_proxy.Base.{
  ℕ, Option, none, some, List, [], ◌∷◌, ◌==◌, if◌then◌else◌, Result, err, ok_or, ◌+◌,
}
use rust_proxy.Base.Utf8.{from_utf8}
use rust_proxy.Protocol.Constants.{version}
use rust_proxy.Protocol.Constants.Atyp
use rust_proxy.Protocol.Constants.Reply as Code
use rust_proxy.Protocol.Error.{ProtocolError, bad_version, unsupported}
use rust_proxy.Protocol.Host.{Host, ip, domain, v4, v6, SocksAddr, to_vec, atyp}
use rust_proxy.Protocol.Reader.{
  Reader, Read, ◌>>=◌, ◌>>◌, pure, lift, require, run, read_u8, read_u16, read_bytes,
}

pub record Reply : Type 0 where
  pub code : ℕ
  pub bind_addr : SocksAddr

-- `none` is the panic of `to_vec`.
unfoldable pub to_bytes : Reply → Option (List ℕ)
to_bytes reply = elim (to_vec reply.bind_addr) [
  | none ↦ none
  | some addr ↦ some (version ∷ reply.code ∷ 0x00 ∷ atyp reply.bind_addr.host ∷ addr)
]

-- The match on `atyp`. Here a name may be empty.
unfoldable pub parse_host : ℕ → Read Host
parse_host code =
    if code == Atyp.ipv4
    then (do b ← read_bytes 4; pure (ip (v4 b)))
    else if code == Atyp.ipv6
    then (do b ← read_bytes 16; pure (ip (v6 b)))
    else if code == Atyp.domain
    then (do
      len ← read_u8
      name ← read_bytes len
      text ← lift (ok_or (from_utf8 name) (unsupported code))
      pure (domain text))
    else lift (err (unsupported code))

unfoldable pub parse_frame : Read Reply
parse_frame = do
  ver ← read_u8
  require (ver == version) (bad_version ver)
  code ← read_u8
  rsv ← read_u8
  kind ← read_u8
  host ← parse_host kind
  port ← read_u16
  pure (record { code = code; bind_addr = record { host = host; port = port } })

unfoldable pub parse : List ℕ → Result ProtocolError Reply
unfolding parse_frame run
parse buf = run parse_frame buf

unfoldable pub simple_reply : ℕ → Reply
simple_reply code = record {
  code = code;
  bind_addr = record { host = ip (v4 (0 ∷ 0 ∷ 0 ∷ 0 ∷ [])); port = 0 };
}

unfoldable pub success : Reply
unfolding simple_reply
success = simple_reply Code.success
