-- ===== src/Protocol/Handshake.antt =====
-- crates/protocol/src/handshake.rs: the greeting and the choice of an authentication method.
pub mod Parse
pub mod Negotiate
use rust_proxy.Base.{
  ℕ, ◌+◌, Bool, true, false, ◌&&◌, ◌||◌, Option, none, some, List, [], ◌∷◌, ◌==◌, ltb,
  if◌then◌else◌, length, get_elem?, Result, ok, err, ok_or,
}
use rust_proxy.Protocol.Constants.{version, greeting_header_len}
use rust_proxy.Protocol.Constants.Method
use rust_proxy.Protocol.Error.{ProtocolError, bad_version, unsupported, truncated}
use rust_proxy.Protocol.Reader.{
  Reader, Read, ◌>>=◌, ◌>>◌, pure, lift, require, run, read_u8, read_bytes,
}

pub record Greeting : Type 0 where
  pub methods : List ℕ

unfoldable pub finish : Greeting → Result ProtocolError Greeting
finish g =
    if length g.methods == 0 || ltb 255 (length g.methods) then err (unsupported 0x00) else ok g

unfoldable pub parse_greeting : Read Greeting
parse_greeting = do
  ver ← read_u8
  require (ver == version) (bad_version ver)
  nmethods ← read_u8
  methods ← read_bytes nmethods
  lift (finish (record { methods = methods }))

unfoldable pub parse : List ℕ → Result ProtocolError Greeting
unfolding parse_greeting run
parse buf = run parse_greeting buf

-- `buf[1]` is in range behind the test.
unfoldable pub frame_len : List ℕ → Result ProtocolError ℕ
frame_len buf =
    if ltb (length buf) greeting_header_len then err truncated else elim (get_elem? buf 1) [
      | none ↦ err truncated
      | some nmethods ↦ ok (greeting_header_len + nmethods)
    ]

pub record MethodSelection : Type 0 where
  pub method : ℕ

unfoldable pub to_bytes : MethodSelection → List ℕ
to_bytes s = version ∷ s.method ∷ []

abbrev pub no_auth : MethodSelection
no_auth = record { method = Method.no_auth }

abbrev pub user_pass : MethodSelection
user_pass = record { method = Method.user_pass }

abbrev pub no_acceptable_method : MethodSelection
no_acceptable_method = record { method = Method.no_acceptable }

-- `methods.contains(&m)`
unfoldable pub contains : List ℕ → ℕ → Bool
contains [] m = false
contains (x ∷ xs) m = x == m || contains xs m

unfoldable pub negotiate : Greeting → Bool → Bool → MethodSelection
negotiate g allow_user_pass allow_no_auth =
    if allow_no_auth && contains g.methods Method.no_auth
    then no_auth
    else if allow_user_pass && contains g.methods Method.user_pass
    then user_pass
    else no_acceptable_method
