-- ===== src/Protocol/Command.antt =====
-- crates/protocol/src/request.rs: the command codes.
use rust_proxy.Base.{ℕ, ◌≡◌, refl, arith, ◌==◌, if◌then◌else◌, Result, ok, err}
use rust_proxy.Protocol.Constants.Command as Code
use rust_proxy.Protocol.Error.{ProtocolError, unsupported}

pub data Command : Type 0 where
  connect bind udp_associate : Command

unfoldable pub from_u8 : ℕ → Result ProtocolError Command
from_u8 v =
    if v == Code.connect
    then ok connect
    else if v == Code.bind
    then ok bind
    else if v == Code.udp_associate
    then ok udp_associate
    else err (unsupported v)

unfoldable pub to_u8 : Command → ℕ
to_u8 connect = Code.connect
to_u8 bind = Code.bind
to_u8 udp_associate = Code.udp_associate

pub from_u8-to_u8 : (c : Command) → from_u8 (to_u8 c) ≡ ok c
unfolding from_u8 to_u8
from_u8-to_u8 connect = refl
from_u8-to_u8 bind = refl
from_u8-to_u8 udp_associate = refl

pub to_u8-from_u8 : (v : ℕ) (c : Command) → from_u8 v ≡ ok c → to_u8 c ≡ v
unfolding from_u8 to_u8
to_u8-from_u8 v c h = ground arith
