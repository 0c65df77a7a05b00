-- ===== src/Protocol/Error.antt =====
-- crates/protocol/src/error.rs
use rust_proxy.Base.{ℕ, Bool, true, false}

pub data ProtocolError : Type 0 where
  bad_version : ℕ → ProtocolError
  unsupported : ℕ → ProtocolError
  truncated : ProtocolError
  invalid_credential_length : ProtocolError
  no_acceptable_method : ProtocolError

pub is_truncated : ProtocolError → Bool
is_truncated truncated = true
is_truncated _ = false
