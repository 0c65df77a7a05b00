-- ===== src/Protocol/Constants/Reply.antt =====
-- crates/protocol/src/constants.rs: module reply, the reply codes.
use rust_proxy.Base.{ℕ}

abbrev pub success : ℕ
success = 0x00

abbrev pub general_failure : ℕ
general_failure = 0x01

abbrev pub not_allowed : ℕ
not_allowed = 0x02

abbrev pub network_unreachable : ℕ
network_unreachable = 0x03

abbrev pub host_unreachable : ℕ
host_unreachable = 0x04

abbrev pub connection_refused : ℕ
connection_refused = 0x05

abbrev pub ttl_expired : ℕ
ttl_expired = 0x06

abbrev pub command_not_supported : ℕ
command_not_supported = 0x07

abbrev pub address_type_not_supported : ℕ
address_type_not_supported = 0x08
