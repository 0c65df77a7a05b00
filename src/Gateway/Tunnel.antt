-- ===== src/Gateway/Tunnel.antt =====
-- A client, the gateway and a node together, on streams on which nothing fails.
use rust_proxy.Base.{
  ℕ, ◌≡◌, refl, sym, ap, subst, ◌∙◌, Option, none, some, List, [], ◌∷◌, ◌++◌, append-nil, Result,
  err, arith,
}
use rust_proxy.Protocol.Constants.Reply as Code
use rust_proxy.Protocol.Command.{connect}
use rust_proxy.Protocol.Handshake.{contains}
use rust_proxy.Protocol.Host.{ip, v4, SocksAddr, atyp}
use rust_proxy.Protocol.Request.{Request}
use rust_proxy.Protocol.Request.RoundTrip.{IsSendable, frame}
use rust_proxy.Session.{Credentials}
use rust_proxy.Session.Socket.{Socket}
use rust_proxy.Session.Moves.{clear, write-clear}
use rust_proxy.Session.Complete.{entry, welcome, IsEntry, preamble-clear}
use rust_proxy.Session.Answer.{answer_frame, reply_bytes-frame}
use rust_proxy.NodeAgent.Handler as NodeAgent
use rust_proxy.NodeAgent.Outcome.{outcome, code_of, run_with_ctx-outcome}
use rust_proxy.Gateway.Handler.{
  GatewayError, relay_error, failure, RemoteNode, selected, connected, RelayStats, Copied, Net,
  relay, chain, connect_and_chain, forward, route, run_with_ctx,
}
use rust_proxy.Gateway.Chain.{asked, answered, verdict, chain-ip-answer}

-- The node's whole connection, fed with what the gateway sends.
abbrev pub at_node :
    (SocksAddr → NodeAgent.Dialled) → NodeAgent.Copied → SocksAddr → NodeAgent.Ended
at_node dial copy dest = NodeAgent.run_with_ctx dial copy none (clear (asked dest) [])

at_node-outcome :
    (dial : SocksAddr → NodeAgent.Dialled) (copy : NodeAgent.Copied) (dest : SocksAddr)
    → IsSendable dest
    → at_node dial copy dest ≡ outcome [] (welcome none) dest (dial dest) copy
unfolding contains
at_node-outcome dial copy dest send =
    let req : Request = record { command = connect; addr = dest } in
    subst
      (λ z.
        NodeAgent.run_with_ctx dial copy none (clear (entry none (0 ∷ []) ++ z) [])
        ≡ outcome [] (welcome none) dest (dial dest) copy)
      (append-nil (frame 0 req))
      (run_with_ctx-outcome dial copy none (0 ∷ []) [] [] 0 dest (omega arith, omega arith, refl)
        send)

-- 0.0.0.0:0
abbrev nowhere : SocksAddr
nowhere = record { host = ip (v4 (0 ∷ 0 ∷ 0 ∷ 0 ∷ [])); port = 0 }

node_answer : (code : ℕ) → welcome none ++ answer_frame code ≡ answered code nowhere
unfolding atyp
node_answer code = refl

-- The gateway and the node understand each other: a node fed with what the gateway sends dials the
-- target that the gateway was asked for, and the gateway fed with what the node answers succeeds if
-- the dial did, and else fails with a relay error; neither leaves a byte of the other unread.
pub chain-at_node :
    (dial : SocksAddr → NodeAgent.Dialled) (copy : NodeAgent.Copied) (dest : SocksAddr)
    → IsSendable dest
    → let node : NodeAgent.Ended = at_node dial copy dest in
      (node.target ≡ some dest)
      × (node.gateway.inbox ≡ [])
      × (chain dest (clear node.gateway.sent [])
          ≡ (clear [] (asked dest), verdict (code_of (dial dest))))
chain-at_node dial copy dest send =
    rw (at_node-outcome dial copy dest send) (refl, refl, understood (code_of (dial dest)))
  where
    understood :
        (code : ℕ)
        → chain dest (clear (welcome none ++ answer_frame code) [])
          ≡ (clear [] (asked dest), verdict code)
    understood code =
        ap (λ z. chain dest (clear z []))
          (node_answer code ∙ sym (append-nil (answered code nowhere)))
        ∙ chain-ip-answer dest code (v4 (0 ∷ 0 ∷ 0 ∷ 0 ∷ [])) 0 [] [] send
            (refl, (omega arith, (omega arith, (omega arith, (omega arith, tt)))))

-- What the client reads after the welcome, and how the call ends, by how the node's dial ended.
abbrev pub told : NodeAgent.Dialled → List ℕ
told NodeAgent.connected = answer_frame Code.success
told _ = []

abbrev pub ended : NodeAgent.Dialled → Copied → Result GatewayError RelayStats
ended NodeAgent.connected copy = relay copy
ended _ copy = err relay_error

forward-clear :
    (d : NodeAgent.Dialled) (copy : Copied) (n : Option Socket) (inbox sent : List ℕ)
    → forward copy (clear inbox sent) (n, verdict (code_of d))
      ≡ record { client = clear inbox (sent ++ told d); node = n; result = ended d copy }
unfolding forward
forward-clear NodeAgent.connected copy n inbox sent =
    rw (reply_bytes-frame Code.success)
      (rw (write-clear failure (answer_frame Code.success) inbox sent) refl)
forward-clear NodeAgent.refused copy n inbox sent = rw (append-nil sent) refl
forward-clear NodeAgent.unreachable copy n inbox sent = rw (append-nil sent) refl
forward-clear NodeAgent.dial_timed_out copy n inbox sent = rw (append-nil sent) refl

module _ (net : Net) (auth : Credentials) (methods rest sent : List ℕ) (rsv : ℕ) (dest : SocksAddr)
    (ready : IsEntry auth methods) (send : IsSendable dest) where
  -- A client that keeps to the protocol, and what follows its request.
  abbrev pub visitor : Socket
  visitor =
      clear (entry auth methods ++ (frame rsv (record { command = connect; addr = dest }) ++ rest))
        sent

  abbrev pub greeted : List ℕ
  greeted = sent ++ welcome auth

  routed : run_with_ctx net auth visitor ≡ route net dest (clear rest greeted)
  unfolding run_with_ctx
  routed = rw (preamble-clear failure auth methods rest sent rsv dest ready send) refl

  -- A client that keeps to the protocol, and a node that is selected and can be reached: the node
  -- dials the client's target. If it connects, the client is told of success and the call ends as the
  -- relay does; if not, the call ends with a relay error and the client is told nothing.
  pub run_with_ctx-tunnel :
      (remote : RemoteNode) (dial : SocksAddr → NodeAgent.Dialled) (copy : NodeAgent.Copied)
      → net.selection ≡ selected remote
      → net.dial remote.forward_address ≡ connected (clear (at_node dial copy dest).gateway.sent [])
      → ((at_node dial copy dest).target ≡ some dest)
        × (run_with_ctx net auth visitor ≡ record {
          client = clear rest (greeted ++ told (dial dest));
          node = some (clear [] (asked dest));
          result = ended (dial dest) net.copy;
        })
  unfolding route connect_and_chain
  run_with_ctx-tunnel remote dial copy chosen reached =
      let (t, i, c) = chain-at_node dial copy dest send in
      (
        t,
        routed
            ∙ rw (chosen, route)
                (rw (reached, connect_and_chain)
                  (rw c (
                    forward-clear (dial dest) net.copy (some (clear [] (asked dest))) rest
                      greeted))),
      )
