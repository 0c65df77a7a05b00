-- ===== src/Gateway/Handler.antt =====
-- crates/gateway/src/handler.rs, with error.rs, relay.rs and the result of proxy_client.rs: one client
-- connection from the greeting to the end of the relay.
use rust_proxy.Base.{
  ℕ, ◌+◌, Option, none, some, [], ◌∷◌, String, ◌==◌, if◌then◌else◌, Result, ok, err,
}
use rust_proxy.Protocol.Constants.{version}
use rust_proxy.Protocol.Constants.Atyp
use rust_proxy.Protocol.Constants.Method
use rust_proxy.Protocol.Constants.Reply as Code
use rust_proxy.Protocol.Command.{connect}
use rust_proxy.Protocol.Host.{SocksAddr}
use rust_proxy.Protocol.Request as Request
use rust_proxy.Protocol.Request.{Request}
use rust_proxy.Session.Socket.{
  Socket, Failure, Action, ◌>>=◌, ◌>>◌, pure, fail, require, read_exact_timeout, write_all_timeout,
}
use rust_proxy.Session.{Credentials, byte_at, written, reply_bytes, try_reply, preamble}

pub data GatewayError : Type 0 where
  protocol timeout no_node io relay_error : GatewayError

abbrev pub failure : Failure GatewayError
failure = record { protocol = protocol; timeout = timeout; io = io }

pub record RemoteNode : Type 0 where
  pub id : String
  pub forward_address : String

-- How `timeout(dt, select_node())` ends.
pub data Selection : Type 0 where
  selected : RemoteNode → Selection
  select_failed : GatewayError → Selection
  select_timed_out : Selection

-- How `timeout(dt, TcpStream::connect(address))` ends.
pub data Dialled : Type 0 where
  connected : Socket → Dialled
  refused dial_timed_out : Dialled

pub record RelayStats : Type 0 where
  pub bytes_up : ℕ
  pub bytes_down : ℕ

-- How `timeout(idle_timeout, copy_bidirectional(..))` ends.
pub data Copied : Type 0 where
  copied : (up down : ℕ) → Copied
  copy_failed copy_timed_out : Copied

-- What the network and the control plane answer.
pub record Net : Type 0 where
  pub selection : Selection
  pub dial : String → Dialled
  pub copy : Copied

unfoldable pub relay : Copied → Result GatewayError RelayStats
relay (copied up down) = ok (record { bytes_up = up; bytes_down = down })
relay copy_failed = err relay_error
relay copy_timed_out = err timeout

-- The match on the address type of the node's reply: the bytes that follow the header.
unfoldable pub node_addr_len : ℕ → Action GatewayError ℕ
node_addr_len atyp =
    if atyp == Atyp.ipv4
    then pure (4 + 2)
    else if atyp == Atyp.ipv6
    then pure (16 + 2)
    else if atyp == Atyp.domain
    then (read_exact_timeout failure 1 >>= λ dlen. pure (1 + byte_at dlen 0 + 2))
    else fail protocol

-- `connect_and_chain` on the stream to the node, once connected.
unfoldable pub chain : SocksAddr → Action GatewayError (Unit {0})
unfolding node_addr_len
chain dest = do
  write_all_timeout failure (version ∷ 1 ∷ 0 ∷ [])
  sel ← read_exact_timeout failure 2
  require (byte_at sel 0 == version) protocol
  require (byte_at sel 1 == Method.no_auth) protocol
  write_all_timeout failure (written (Request.to_bytes (record { command = connect; addr = dest })))
  reply_buf ← read_exact_timeout failure 4
  require (byte_at reply_buf 0 == version) protocol
  len ← node_addr_len (byte_at reply_buf 3)
  node_addr ← read_exact_timeout failure len
  require (byte_at reply_buf 1 == Code.success) relay_error

-- The streams after the call, and what it recorded or failed with.
pub record Ended : Type 0 where
  pub client : Socket
  pub node : Option Socket
  pub result : Result GatewayError RelayStats

-- The stream to the node, if there is one, and how the call ended.
unfoldable pub connect_and_chain :
    (String → Dialled) → String → SocksAddr → Option Socket × Result GatewayError (Unit {0})
connect_and_chain dial node_address dest = elim (dial node_address) [
  | connected s ↦ (let (s', r) = chain dest s in (some s', r))
  | refused ↦ (none, err io)
  | dial_timed_out ↦ (none, err timeout)
]

-- Steps 6 and 7: the reply and the relay.
unfoldable pub splice : Copied → Option Socket → Socket × Result GatewayError (Unit {0}) → Ended
unfolding relay
splice copy node (client, err e) = record { client = client; node = node; result = err e }
splice copy node (client, ok _) = record { client = client; node = node; result = relay copy }

-- Steps 5 to 7, with the outcome of step 5.
unfoldable pub forward : Copied → Socket → Option Socket × Result GatewayError (Unit {0}) → Ended
unfolding splice
forward copy client (node, err e) = record { client = client; node = node; result = err e }
forward copy client (node, ok _) =
    splice copy node (write_all_timeout failure (reply_bytes Code.success) client)

-- Steps 4 to 7.
unfoldable pub route : Net → SocksAddr → Socket → Ended
unfolding forward
route net dest client = elim net.selection [
  | selected node ↦ forward net.copy client (connect_and_chain net.dial node.forward_address dest)
  | select_failed e ↦ record {
    client = (try_reply failure Code.host_unreachable client).0;
    node = none;
    result = err e;
  }
  | select_timed_out ↦ record {
    client = (try_reply failure Code.host_unreachable client).0;
    node = none;
    result = err timeout;
  }
]

-- What follows the preamble.
unfoldable pub requested : Net → Socket × Result GatewayError Request → Ended
unfolding route
requested net (client, err e) = record { client = client; node = none; result = err e }
requested net (client, ok request) = route net request.addr client

unfoldable pub run_with_ctx : Net → Credentials → Socket → Ended
unfolding requested
run_with_ctx net auth client = requested net (preamble failure auth client)
