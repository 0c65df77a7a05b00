-- ===== src/Session.antt =====
-- The server's side of SOCKS5, which crates/gateway/src/handler.rs and crates/node/src/handler.rs
-- have in the same words: once here, over the error type of either. Strings are their bytes.
mod Tests
pub mod Socket
pub mod Moves
pub mod Exchange
pub mod Credentials
pub mod Admission
pub mod Stream
pub mod Parsed
pub mod Complete
pub mod Answer
use rust_proxy.Base.{
  ℕ, ◌+◌, ◌-◌, Bool, true, false, not, ◌&&◌, ◌||◌, Option, none, some, List, [], ◌∷◌, ◌++◌, ◌==◌,
  ltb, if◌then◌else◌, get_elem?, bytes_eq, Result, ok, err,
}
use rust_proxy.Base.Utf8.{from_utf8}
use rust_proxy.Protocol.Constants.{auth_version, greeting_header_len, request_header_len}
use rust_proxy.Protocol.Constants.Atyp
use rust_proxy.Protocol.Constants.Method
use rust_proxy.Protocol.Constants.Reply as Code
use rust_proxy.Protocol.Command.{Command, connect, bind, udp_associate}
use rust_proxy.Protocol.Handshake as Handshake
use rust_proxy.Protocol.Handshake.{Greeting, negotiate}
use rust_proxy.Protocol.Auth as Auth
use rust_proxy.Protocol.Auth.{auth_reply_bytes}
use rust_proxy.Protocol.Request as Request
use rust_proxy.Protocol.Request.{Request, addr_len}
use rust_proxy.Protocol.Reply as Reply
use rust_proxy.Protocol.Reply.{simple_reply}
use rust_proxy.Session.Socket.{
  Failure, Action, and_then, ◌>>=◌, ◌>>◌, pure, fail, require, lift, lift_some, read_exact_timeout,
  write_all_timeout,
}

-- `buf[i]`, in range wherever the handlers use it: a read fills its buffer.
abbrev pub byte_at : List ℕ → ℕ → ℕ
byte_at bytes i = elim (get_elem? bytes i) [ none ↦ 0 | some b ↦ b ]

-- The bytes of a serialised value; `none`, a panic, is met by no value of the Rust types.
abbrev pub written : Option (List ℕ) → List ℕ
written none = []
written (some bytes) = bytes

-- The configured username and password, if any.
abbrev pub Credentials : Type 0
Credentials = Option (List ℕ × List ℕ)

abbrev pub is_some : Credentials → Bool
is_some none = false
is_some (some c) = true

-- The match on `ctx.auth`.
abbrev pub matches : Credentials → List ℕ → List ℕ → Bool
matches none username password = false
matches (some (expected_user, expected_pass)) username password =
    bytes_eq username expected_user && bytes_eq password expected_pass

abbrev pub is_connect : Command → Bool
is_connect connect = true
is_connect _ = false

unfoldable pub reply_bytes : ℕ → List ℕ
reply_bytes code = written (Reply.to_bytes (simple_reply code))

module _ {E : Type 0} (failure : Failure E) where
  -- The result of the write is dropped.
  unfoldable pub try_reply : ℕ → Action E (Unit {0})
  try_reply code s = ((write_all_timeout failure (reply_bytes code) s).0, ok tt)

  unfoldable pub read_greeting : Action E Greeting
  read_greeting = do
    hdr ← read_exact_timeout failure greeting_header_len
    require (not (byte_at hdr 1 == 0)) failure.protocol
    methods ← read_exact_timeout failure (byte_at hdr 1)
    lift (Handshake.parse (hdr ++ methods)) failure.protocol

  unfoldable pub handle_user_pass_auth : Credentials → Action E (Unit {0})
  handle_user_pass_auth auth = do
    ver ← read_exact_timeout failure 1
    require (byte_at ver 0 == auth_version) failure.protocol
    ulen ← read_exact_timeout failure 1
    require (not (byte_at ulen 0 == 0 || ltb 255 (byte_at ulen 0))) failure.protocol
    uname ← read_exact_timeout failure (byte_at ulen 0)
    plen ← read_exact_timeout failure 1
    passwd ← read_exact_timeout failure (byte_at plen 0)
    username ← lift_some (from_utf8 uname) failure.protocol
    password ← lift_some (from_utf8 passwd) failure.protocol
    write_all_timeout failure
        (auth_reply_bytes (if matches auth username password then Auth.success else Auth.failure))
    require (matches auth username password) failure.protocol

  -- The parse of the assembled frame.
  abbrev pub parse_request : List ℕ → Action E Request
  parse_request full = do (req, n) ← lift (Request.parse full) failure.protocol; pure req

  -- What follows the header: for a name the length, then the name and the port.
  unfoldable pub read_named : List ℕ → Action E Request
  read_named hdr = do
    len_byte ← read_exact_timeout failure 1
    total ← lift (addr_len (byte_at hdr 3) (some (byte_at len_byte 0))) failure.protocol
    addr_buf ← read_exact_timeout failure (total - 1)
    parse_request (hdr ++ (byte_at len_byte 0 ∷ addr_buf))

  unfoldable pub read_sized : List ℕ → Action E Request
  read_sized hdr = do
    total ← lift (addr_len (byte_at hdr 3) none) failure.protocol
    addr_buf ← read_exact_timeout failure total
    parse_request (hdr ++ addr_buf)

  unfoldable pub read_request : Action E Request
  unfolding read_named read_sized
  read_request = do
    hdr ← read_exact_timeout failure request_header_len
    if byte_at hdr 3 == Atyp.domain then read_named hdr else read_sized hdr

  -- Steps 1 and 2 of `run_with_ctx`: the greeting, the choice of a method, the authentication.
  unfoldable pub authenticate : Credentials → Action E (Unit {0})
  authenticate auth = do
    greeting ← read_greeting
    let method = (negotiate greeting (is_some auth) (not (is_some auth))).method
    write_all_timeout failure (Handshake.to_bytes (record { method = method }))
    require (not (method == Method.no_acceptable)) failure.protocol
    if method == Method.user_pass then handle_user_pass_auth auth else pure tt

  unfoldable pub refuse_command : Action E Request
  refuse_command = do try_reply Code.command_not_supported; fail failure.protocol

  -- Step 3: the request, which must be a CONNECT.
  unfoldable pub accept_connect : Action E Request
  unfolding refuse_command
  accept_connect = do
    request ← read_request
    if is_connect request.command then pure request else refuse_command

  -- Steps 1 to 3.
  unfoldable pub preamble : Credentials → Action E Request
  preamble auth = do authenticate auth; accept_connect
