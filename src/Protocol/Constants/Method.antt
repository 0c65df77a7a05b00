-- ===== src/Protocol/Constants/Method.antt =====
-- crates/protocol/src/constants.rs: module method, the authentication methods.
use rust_proxy.Base.{ℕ}

abbrev pub no_auth : ℕ
no_auth = 0x00

abbrev pub user_pass : ℕ
user_pass = 0x02

abbrev pub no_acceptable : ℕ
no_acceptable = 0xff
