-- ===== src/NodeAgent/Handler.antt =====
-- crates/node/src/handler.rs and error.rs: one connection from a gateway.
use rust_proxy.Base.{ℕ, Option, none, some, List, Result, ok, err}
use rust_proxy.Protocol.Constants.Reply as Code
use rust_proxy.Protocol.Host.{SocksAddr}
use rust_proxy.Protocol.Handshake.{Greeting}
use rust_proxy.Protocol.Request.{Request}
use rust_proxy.Session as Session
use rust_proxy.Session.{Credentials, reply_bytes, preamble}
use rust_proxy.Session.Socket as Socket
use rust_proxy.Session.Socket.{Socket, Failure, Action}

pub data NodeError : Type 0 where
  protocol timeout io relay_error : NodeError

abbrev pub failure : Failure NodeError
failure = record { protocol = protocol; timeout = timeout; io = io }

-- The helpers, at this crate's error type.
abbrev pub read_exact_timeout : ℕ → Action NodeError (List ℕ)
read_exact_timeout = Socket.read_exact_timeout failure

abbrev pub write_all_timeout : List ℕ → Action NodeError (Unit {0})
write_all_timeout = Socket.write_all_timeout failure

abbrev pub try_reply : ℕ → Action NodeError (Unit {0})
try_reply = Session.try_reply failure

abbrev pub read_greeting : Action NodeError Greeting
read_greeting = Session.read_greeting failure

abbrev pub handle_user_pass_auth : Credentials → Action NodeError (Unit {0})
handle_user_pass_auth = Session.handle_user_pass_auth failure

abbrev pub read_request : Action NodeError Request
read_request = Session.read_request failure

-- How `timeout(dt, TcpStream::connect(target))` ends.
pub data Dialled : Type 0 where
  connected : Dialled
  refused unreachable dial_timed_out : Dialled

-- How `timeout(idle_timeout, copy_bidirectional(..))` ends.
pub data Copied : Type 0 where
  copied : (up down : ℕ) → Copied
  copy_failed copy_timed_out : Copied

-- The stream from the gateway after the call, the target that was dialled, the byte counts recorded.
pub record Ended : Type 0 where
  pub gateway : Socket
  pub target : Option SocksAddr
  pub recorded : Option (ℕ × ℕ)
  pub result : Result NodeError (Unit {0})

-- The last match: only a relay that ends by itself is counted, and none is an error.
unfoldable pub counted : Copied → Option (ℕ × ℕ)
counted (copied up down) = some (up, down)
counted copy_failed = none
counted copy_timed_out = none

-- Steps 5 and 6.
unfoldable pub splice : SocksAddr → Copied → Socket × Result NodeError (Unit {0}) → Ended
unfolding counted
splice dest copy (gw, err e) = record {
  gateway = gw;
  target = some dest;
  recorded = none;
  result = err e;
}
splice dest copy (gw, ok _) = record {
  gateway = gw;
  target = some dest;
  recorded = counted copy;
  result = ok tt;
}

-- A dial that failed: the reply, and the error.
unfoldable pub refuse : SocksAddr → ℕ → NodeError → Socket → Ended
refuse dest code e gw = record {
  gateway = (try_reply code gw).0;
  target = some dest;
  recorded = none;
  result = err e;
}

-- Steps 4 to 6.
unfoldable pub serve : (SocksAddr → Dialled) → Copied → SocksAddr → Socket → Ended
unfolding splice refuse
serve dial copy dest gw = elim (dial dest) [
  | connected ↦ splice dest copy (write_all_timeout (reply_bytes Code.success) gw)
  | refused ↦ refuse dest Code.connection_refused io gw
  | unreachable ↦ refuse dest Code.network_unreachable io gw
  | dial_timed_out ↦ refuse dest Code.ttl_expired timeout gw
]

-- What follows the preamble.
unfoldable pub requested :
    (SocksAddr → Dialled) → Copied → Socket × Result NodeError Request → Ended
unfolding serve
requested dial copy (gw, err e) = record {
  gateway = gw;
  target = none;
  recorded = none;
  result = err e;
}
requested dial copy (gw, ok request) = serve dial copy request.addr gw

unfoldable pub run_with_ctx : (SocksAddr → Dialled) → Copied → Credentials → Socket → Ended
unfolding requested
run_with_ctx dial copy auth gw = requested dial copy (preamble failure auth gw)
