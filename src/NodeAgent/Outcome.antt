-- ===== src/NodeAgent/Outcome.antt =====
-- What a node answers a gateway, by how the dial of the target ends.
use rust_proxy.Base.{ℕ, ◌≡◌, refl, Option, none, some, List, ◌++◌, Result, ok, err}
use rust_proxy.Protocol.Constants.Reply as Code
use rust_proxy.Protocol.Command.{connect}
use rust_proxy.Protocol.Host.{SocksAddr}
use rust_proxy.Protocol.Request.{Request}
use rust_proxy.Protocol.Request.RoundTrip.{IsSendable, frame}
use rust_proxy.Session.Moves.{clear, write-clear}
use rust_proxy.Session.{Credentials}
use rust_proxy.Session.Complete.{entry, welcome, IsEntry, preamble-clear}
use rust_proxy.Session.Answer.{answer_frame, reply_bytes-frame, try_reply-clear}
use rust_proxy.NodeAgent.Handler.{
  NodeError, io, timeout, failure, Dialled, connected, refused, unreachable, dial_timed_out, Copied,
  copied, copy_failed, copy_timed_out, Ended, splice, refuse, serve, run_with_ctx,
}

-- The reply code of RFC 1928 for how a dial ended.
abbrev pub code_of : Dialled → ℕ
code_of connected = Code.success
code_of refused = Code.connection_refused
code_of unreachable = Code.network_unreachable
code_of dial_timed_out = Code.ttl_expired

abbrev pub result_of : Dialled → Result NodeError (Unit {0})
result_of connected = ok tt
result_of refused = err io
result_of unreachable = err io
result_of dial_timed_out = err timeout

-- The bytes that count towards the statistics: those of a relay that ended by itself.
abbrev pub tally : Dialled → Copied → Option (ℕ × ℕ)
tally connected (copied up down) = some (up, down)
tally connected copy_failed = none
tally connected copy_timed_out = none
tally refused c = none
tally unreachable c = none
tally dial_timed_out c = none

-- A whole connection: what it leaves on the stream, the target, the count and the result.
abbrev pub outcome : List ℕ → List ℕ → SocksAddr → Dialled → Copied → Ended
outcome rest sent dest d copy = record {
  gateway = clear rest (sent ++ answer_frame (code_of d));
  target = some dest;
  recorded = tally d copy;
  result = result_of d;
}

splice-clear :
    (dest : SocksAddr) (copy : Copied) (inbox sent : List ℕ)
    → splice dest copy (clear inbox sent, ok tt) ≡ record {
      gateway = clear inbox sent;
      target = some dest;
      recorded = tally connected copy;
      result = ok tt;
    }
unfolding splice
splice-clear dest (copied up down) inbox sent = refl
splice-clear dest copy_failed inbox sent = refl
splice-clear dest copy_timed_out inbox sent = refl

refuse-clear :
    (dest : SocksAddr) (code : ℕ) (e : NodeError) (inbox sent : List ℕ)
    → refuse dest code e (clear inbox sent) ≡ record {
      gateway = clear inbox (sent ++ answer_frame code);
      target = some dest;
      recorded = none;
      result = err e;
    }
unfolding refuse
refuse-clear dest code e inbox sent = rw (try_reply-clear failure code inbox sent) refl

serve-clear :
    (dial : SocksAddr → Dialled) (copy : Copied) (dest : SocksAddr) (inbox sent : List ℕ)
    (d : Dialled)
    → dial dest ≡ d
    → serve dial copy dest (clear inbox sent) ≡ outcome inbox sent dest d copy
unfolding serve
serve-clear dial copy dest inbox sent connected e =
    rw (e, serve, reply_bytes-frame Code.success)
      (rw (write-clear failure (answer_frame Code.success) inbox sent)
        (splice-clear dest copy inbox (sent ++ answer_frame Code.success)))
serve-clear dial copy dest inbox sent refused e =
    rw (e, serve) (refuse-clear dest Code.connection_refused io inbox sent)
serve-clear dial copy dest inbox sent unreachable e =
    rw (e, serve) (refuse-clear dest Code.network_unreachable io inbox sent)
serve-clear dial copy dest inbox sent dial_timed_out e =
    rw (e, serve) (refuse-clear dest Code.ttl_expired timeout inbox sent)

-- A peer that keeps to the protocol and asks for a target that can be sent, on a stream without
-- faults: the node dials this target, answers the code of how the dial ended, counts the bytes of
-- a relay that ended by itself, and fails exactly if the dial did.
pub run_with_ctx-outcome :
    (dial : SocksAddr → Dialled) (copy : Copied) (auth : Credentials) (methods rest sent : List ℕ)
    (rsv : ℕ) (dest : SocksAddr)
    → IsEntry auth methods
    → IsSendable dest
    → let req : Request = record { command = connect; addr = dest } in
      run_with_ctx dial copy auth (clear (entry auth methods ++ (frame rsv req ++ rest)) sent)
      ≡ outcome rest (sent ++ welcome auth) dest (dial dest) copy
unfolding run_with_ctx
run_with_ctx-outcome dial copy auth methods rest sent rsv dest ready send =
    rw (preamble-clear failure auth methods rest sent rsv dest ready send)
      (serve-clear dial copy dest rest (sent ++ welcome auth) (dial dest) refl)
