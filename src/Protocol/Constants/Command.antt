-- ===== src/Protocol/Constants/Command.antt =====
-- crates/protocol/src/constants.rs: module command, the client commands.
use rust_proxy.Base.{ℕ}

abbrev pub connect : ℕ
connect = 0x01

abbrev pub bind : ℕ
bind = 0x02

abbrev pub udp_associate : ℕ
udp_associate = 0x03
