-- ===== src/Gateway/Tests.antt =====
-- A concrete client, and the theorems of the gateway at it.
use rust_proxy.Base.{ℕ, ◌≡◌, refl, some, List, [], ◌∷◌, ◌++◌, ok, err, arith}
use rust_proxy.Base.Utf8.{is_utf8}
use rust_proxy.Protocol.Constants.Reply as Code
use rust_proxy.Protocol.Handshake.{contains}
use rust_proxy.Protocol.Host.{domain, SocksAddr}
use rust_proxy.Protocol.Request.RoundTrip.{IsSendable}
use rust_proxy.Session.{Credentials}
use rust_proxy.Session.Moves.{clear}
use rust_proxy.Session.Answer.{answer_frame}
use rust_proxy.Session.Complete.{IsEntry}
use rust_proxy.NodeAgent.Handler as NodeAgent
use rust_proxy.Gateway.Handler.{
  io, timeout, relay, selected, connected, copy_timed_out, Net, chain, run_with_ctx,
}
use rust_proxy.Gateway.Chain.{asked, answered, chain-domain-answer}
use rust_proxy.Protocol.Command.{connect}
use rust_proxy.Protocol.Request.{Request}
use rust_proxy.Session.{read_request}
use rust_proxy.Session.Admission.{Admitted}
use rust_proxy.Base.{◌≤◌, ap, true, false, All, total, ◌↔◌}
use rust_proxy.Session.Socket.{Socket}
use rust_proxy.Gateway.Handler.{Ended, failure, copied}
use rust_proxy.Gateway.Relayed.{IsRelayed, run_with_ctx-IsRelayed}
use rust_proxy.Gateway.Server.{
  GatewayConfig, Gateway, waiting, new, accept, Reachable, initially, then_step, active, drained,
}
use rust_proxy.Gateway.Server.Limit.{IsFinished, clients_limited}
use rust_proxy.Gateway.Tunnel.{at_node, chain-at_node, visitor, run_with_ctx-tunnel}

-- `ab:443`
abbrev target : SocksAddr
target = record { host = domain (0x61 ∷ 0x62 ∷ []); port = 443 }

target-IsSendable : IsSendable target
unfolding is_utf8
target-IsSendable = record {
  typed = (refl, (omega arith, (omega arith, tt)));
  encodable = (omega arith, omega arith);
  port_fits = omega arith;
}

-- A gateway with credentials, and a client that has them.
abbrev login : Credentials
login = some (0x75 ∷ [], 0x70 ∷ [])

login-IsEntry : IsEntry login (0 ∷ 2 ∷ [])
unfolding is_utf8 contains
login-IsEntry = (omega arith, omega arith, refl, omega arith, omega arith, refl, refl)

abbrev dial : SocksAddr → NodeAgent.Dialled
dial _ = NodeAgent.connected

-- The relay runs into its deadline after the node connected.
abbrev net : Net
net = record {
  selection = selected (record { id = "a"; forward_address = "10.0.0.1:7000" });
  dial = λ _. connected (clear (at_node dial (NodeAgent.copied 1 2) target).gateway.sent []);
  copy = copy_timed_out;
}

run_with_ctx-tunnel_example :
    ((at_node dial (NodeAgent.copied 1 2) target).target ≡ some target)
    × (run_with_ctx net login
          (visitor net login (0 ∷ 2 ∷ []) (9 ∷ []) [] 0 target login-IsEntry target-IsSendable)
        ≡ record {
          client = clear (9 ∷ []) ((5 ∷ 2 ∷ 1 ∷ 0 ∷ []) ++ answer_frame Code.success);
          node = some (clear [] (asked target));
          result = err timeout;
        })
unfolding relay
run_with_ctx-tunnel_example =
    run_with_ctx-tunnel net login (0 ∷ 2 ∷ []) (9 ∷ []) [] 0 target login-IsEntry target-IsSendable
      (record { id = "a"; forward_address = "10.0.0.1:7000" }) dial (NodeAgent.copied 1 2) refl refl

chain-at_node_example :
    ((at_node dial (NodeAgent.copied 1 2) target).target ≡ some target)
    × ((at_node dial (NodeAgent.copied 1 2) target).gateway.inbox ≡ [])
    × (chain target (clear (at_node dial (NodeAgent.copied 1 2) target).gateway.sent [])
        ≡ (clear [] (asked target), ok tt))
chain-at_node_example = chain-at_node dial (NodeAgent.copied 1 2) target target-IsSendable

chain-domain-answer_example :
    (chain target (clear (answered 0 target) []) ≡ (clear [] (asked target), err io))
    × ((b : ℕ) (rest : List ℕ)
        → chain target (clear (answered 0 target ++ (b ∷ rest)) [])
          ≡ (clear rest (asked target), ok tt))
chain-domain-answer_example =
    chain-domain-answer target 0 (0x61 ∷ 0x62 ∷ []) 443 [] target-IsSendable (omega arith)

-- The relay ends by itself.
abbrev done : Net
done = record net { copy = copied 3 4 }

abbrev visit : Socket
visit = visitor done login (0 ∷ 2 ∷ []) (9 ∷ []) [] 0 target login-IsEntry target-IsSendable

done_ok : (run_with_ctx done login visit).result ≡ ok (record { bytes_up = 3; bytes_down = 4 })
unfolding relay
done_ok =
    ap (λ (e : Ended). e.result)
      (run_with_ctx-tunnel done login (0 ∷ 2 ∷ []) (9 ∷ []) [] 0 target login-IsEntry
        target-IsSendable (record { id = "a"; forward_address = "10.0.0.1:7000" }) dial
        (NodeAgent.copied 1 2) refl refl).1

run_with_ctx-IsRelayed_example :
    (admitted : Socket) × (before : Socket) × (req : Request) × Admitted login visit admitted
    × (read_request failure admitted ≡ (before, ok req))
    × (req.command ≡ connect)
    × IsRelayed done req.addr before
        (record { bytes_up = 3; bytes_down = 4 })
        (run_with_ctx done login visit).client
run_with_ctx-IsRelayed_example =
    run_with_ctx-IsRelayed done login visit (record { bytes_up = 3; bytes_down = 4 }) (omega arith)
      done_ok

-- A gateway with credentials for one client, which waits.
abbrev config : GatewayConfig
config = record {
  socks_username = some (0x75 ∷ []);
  socks_password = some (0x70 ∷ []);
  max_connections = 1;
  connect_timeout = 10000000000;
  idle_timeout = 300000000000;
}

abbrev one_waiting : Gateway
one_waiting = record {
  ctx = record { auth = login; connect_timeout = 10000000000; idle_timeout = 300000000000 };
  permits = 1;
  cancelled = false;
  accepting = true;
  tasks = waiting ∷ [];
}

one_waiting-Reachable : Reachable config one_waiting
unfolding new
one_waiting-Reachable = then_step initially (accept (new config) refl)

clients_limited_example :
    (total active (waiting ∷ []) ≤ 1)
    × (one_waiting.ctx.auth ≡ login)
    × ((drained false one_waiting ≡ true) ↔ All IsFinished (waiting ∷ []))
clients_limited_example = clients_limited config one_waiting one_waiting-Reachable
