-- ===== src/Protocol/Constants/Atyp.antt =====
-- crates/protocol/src/constants.rs: module atyp, the address types.
use rust_proxy.Base.{ℕ}

abbrev pub ipv4 : ℕ
ipv4 = 0x01

abbrev pub domain : ℕ
domain = 0x03

abbrev pub ipv6 : ℕ
ipv6 = 0x04
