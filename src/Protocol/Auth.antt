-- ===== src/Protocol/Auth.antt =====
-- crates/protocol/src/auth.rs: username and password, RFC 1929. Strings are their bytes.
pub mod RoundTrip
use rust_proxy.Base.{
  ℕ, ◌+◌, ◌%◌, Bool, ◌||◌, not, List, [], ◌∷◌, ◌++◌, ◌==◌, ltb, length, Result, ok_or,
}
use rust_proxy.Base.Utf8.{from_utf8}
use rust_proxy.Protocol.Constants.{auth_version}
use rust_proxy.Protocol.Error.{ProtocolError, bad_version, invalid_credential_length}
use rust_proxy.Protocol.Reader.{
  Reader, Read, ◌>>=◌, ◌>>◌, pure, lift, require, run, read_u8, read_bytes,
}

abbrev pub success : ℕ
success = 0x00

abbrev pub failure : ℕ
failure = 0x01

abbrev pub max_username_len : ℕ
max_username_len = 255

abbrev pub max_password_len : ℕ
max_password_len = 255

pub record UsernamePassword : Type 0 where
  pub username : List ℕ
  pub password : List ℕ

unfoldable pub parse_credentials : Read UsernamePassword
parse_credentials = do
  ver ← read_u8
  require (ver == auth_version) (bad_version ver)
  ulen ← read_u8
  require (not (ulen == 0 || ltb max_username_len ulen)) invalid_credential_length
  username_bytes ← read_bytes ulen
  plen ← read_u8
  require (not (ltb max_password_len plen)) invalid_credential_length
  password_bytes ← read_bytes plen
  username ← lift (ok_or (from_utf8 username_bytes) invalid_credential_length)
  password ← lift (ok_or (from_utf8 password_bytes) invalid_credential_length)
  pure (record { username = username; password = password })

unfoldable pub parse : List ℕ → Result ProtocolError UsernamePassword
unfolding parse_credentials run
parse buf = run parse_credentials buf

unfoldable pub wire_len : UsernamePassword → ℕ
wire_len c = 1 + 1 + length c.username + 1 + length c.password

-- `len() as u8` keeps the low byte.
unfoldable pub to_vec : UsernamePassword → List ℕ
to_vec c =
    auth_version ∷ length c.username % 256 ∷ (c.username ++ (length c.password % 256 ∷ c.password))

unfoldable pub auth_reply_bytes : ℕ → List ℕ
auth_reply_bytes status = auth_version ∷ status ∷ []
