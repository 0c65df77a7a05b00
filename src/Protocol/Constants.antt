-- ===== src/Protocol/Constants.antt =====
-- crates/protocol/src/constants.rs: versions and header sizes; the code tables are the children.
pub mod Method
pub mod Command
pub mod Atyp
pub mod Reply
use rust_proxy.Base.{ℕ}

abbrev pub version : ℕ
version = 0x05

abbrev pub auth_version : ℕ
auth_version = 0x01

abbrev pub greeting_header_len : ℕ
greeting_header_len = 2

abbrev pub request_header_len : ℕ
request_header_len = 4

abbrev pub reply_header_len : ℕ
reply_header_len = 4
