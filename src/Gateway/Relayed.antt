-- ===== src/Gateway/Relayed.antt =====
-- What a connection that was relayed can rely on, whatever the streams do.
use rust_proxy.Base.{
  ℕ, String, ◌≡◌, ◌≢◌, ◌<◌, refl, sym, ap, subst, ◌∙◌, true, Option, List, ◌++◌, length,
  if◌then◌else◌, Result, ok, err, Bool-cases, inl, inr,
}
use rust_proxy.Protocol.Constants.Reply as Code
use rust_proxy.Protocol.Reader.{usize_mod}
use rust_proxy.Protocol.Command.{Command, connect, bind, udp_associate}
use rust_proxy.Protocol.Host.{SocksAddr}
use rust_proxy.Protocol.Request.{Request}
use rust_proxy.Session.{
  Credentials, is_connect, reply_bytes, authenticate, read_request, try_reply, refuse_command,
  accept_connect, preamble,
}
use rust_proxy.Session.Socket.{Socket, Action, pure, write_all_timeout}
use rust_proxy.Session.Moves.{Took, and_then-eq-ok, IsWrite, IsWrite-Took}
use rust_proxy.Session.Admission.{Admitted, authenticate-Admitted}
use rust_proxy.Gateway.Chained.{Chained, chain-Meets}
use rust_proxy.Gateway.Handler.{
  GatewayError, failure, protocol, chain, RemoteNode, Selection, selected, select_failed,
  select_timed_out, Dialled, connected, refused, dial_timed_out, RelayStats, Copied, copied,
  copy_failed, copy_timed_out, Net, relay, connect_and_chain, splice, forward, route, requested,
  run_with_ctx,
}

-- A call that ended with statistics for the request `dest`, from the client's stream `before`: the node
-- was selected and dialled, the chain succeeded, the client was told of success, and the relay ended by
-- itself with these counts.
abbrev pub IsRelayed : Net → SocksAddr → Socket → RelayStats → Socket → Type 0
IsRelayed net dest before stats after =
    (remote : RemoteNode) × (node : Socket) × (node' : Socket) × (net.selection ≡ selected remote)
    × (net.dial remote.forward_address ≡ connected node)
    × Took node (Chained dest) (chain dest node)
    × (chain dest node ≡ (node', ok tt))
    × (after.inbox ≡ before.inbox)
    × (after.sent ≡ before.sent ++ reply_bytes Code.success)
    × (net.copy ≡ copied stats.bytes_up stats.bytes_down)

same_stats :
    (a b : RelayStats)
    → ◌≡◌ {A = Result GatewayError RelayStats} (ok a) (ok b)
    → (a.bytes_up ≡ b.bytes_up) × (a.bytes_down ≡ b.bytes_down)
same_stats a b h = (cc, cc)

relay-eq-ok :
    (c : Copied) (stats : RelayStats)
    → relay c ≡ ok stats
    → c ≡ copied stats.bytes_up stats.bytes_down
unfolding relay
relay-eq-ok (copied up down) stats h =
    let (a, b) = same_stats (record { bytes_up = up; bytes_down = down }) stats h in rw (a, b) refl
relay-eq-ok copy_failed stats h = cc
relay-eq-ok copy_timed_out stats h = cc

written_out :
    (s s' : Socket) (bytes : List ℕ)
    → write_all_timeout failure bytes s ≡ (s', ok tt)
    → (s'.inbox ≡ s.inbox) × (s'.sent ≡ s.sent ++ bytes)
written_out s s' bytes h =
    let (t, g, i, o, (z, e)) = subst (Took s (IsWrite bytes)) h (IsWrite-Took failure bytes s) in
    (sym (i ∙ ap (λ x. x ++ s'.inbox) z), o ∙ ap (λ x. s.sent ++ x) e)

splice-eq-ok :
    (copy : Copied) (n : Option Socket) (p : Socket × Result GatewayError (Unit {0}))
    (stats : RelayStats)
    → (splice copy n p).result ≡ ok stats
    → (p ≡ ((splice copy n p).client, ok tt)) × (relay copy ≡ ok stats)
unfolding splice
splice-eq-ok copy n (s, ok u) stats h = (refl, h)
splice-eq-ok copy n (s, err e) stats h = cc

forward-eq-ok :
    (copy : Copied) (s : Socket) (q : Option Socket × Result GatewayError (Unit {0}))
    (stats : RelayStats)
    → (forward copy s q).result ≡ ok stats
    → (q.1 ≡ ok tt)
      × ((forward copy s q).client.inbox ≡ s.inbox)
      × ((forward copy s q).client.sent ≡ s.sent ++ reply_bytes Code.success)
      × (copy ≡ copied stats.bytes_up stats.bytes_down)
unfolding forward
forward-eq-ok copy s (n, ok u) stats h =
    let (e, r) =
      splice-eq-ok copy n (write_all_timeout failure (reply_bytes Code.success) s) stats h in
    let (i, o) =
      written_out s (splice copy n (write_all_timeout failure (reply_bytes Code.success) s)).client
        (reply_bytes Code.success) e in
    (refl, i, o, relay-eq-ok copy stats r)
forward-eq-ok copy s (n, err e) stats h = cc

no_err : {e : GatewayError} → ◌≢◌ {A = Result GatewayError (Unit {0})} (err e) (ok tt)
no_err h = cc

no_stats :
    {e : GatewayError} {stats : RelayStats}
    → ◌≢◌ {A = Result GatewayError RelayStats} (err e) (ok stats)
no_stats h = cc

connect_and_chain-eq-ok :
    (dial : String → Dialled) (addr : String) (dest : SocksAddr) (d : Dialled)
    → dial addr ≡ d
    → (connect_and_chain dial addr dest).1 ≡ ok tt
    → (node : Socket) × (node' : Socket) × (d ≡ connected node) × (chain dest node ≡ (node', ok tt))
unfolding connect_and_chain
connect_and_chain-eq-ok dial addr dest (connected s) e h =
    (s, (chain dest s).0, refl, ap (λ x. ((chain dest s).0, x)) (rw (e, connect_and_chain) at h))
connect_and_chain-eq-ok dial addr dest refused e h =
    absurd (no_err (rw (e, connect_and_chain) at h))
connect_and_chain-eq-ok dial addr dest dial_timed_out e h =
    absurd (no_err (rw (e, connect_and_chain) at h))

route-eq-ok :
    (net : Net) (dest : SocksAddr) (s : Socket) (stats : RelayStats) (sel : Selection)
    → net.selection ≡ sel
    → (route net dest s).result ≡ ok stats
    → IsRelayed net dest s stats (route net dest s).client
unfolding route
route-eq-ok net dest s stats (selected remote) e h =
    let (c, i, o, r) =
      forward-eq-ok net.copy s (connect_and_chain net.dial remote.forward_address dest) stats
        (rw (e, route) at h) in
    let (n, n', d, k) = connect_and_chain-eq-ok net.dial remote.forward_address dest _ refl c in
    (remote, n, n', e, d, (chain-Meets dest).run n, k, rw (e, route) i, rw (e, route) o, r)
route-eq-ok net dest s stats (select_failed f) e h = absurd (no_stats (rw (e, route) at h))
route-eq-ok net dest s stats select_timed_out e h = absurd (no_stats (rw (e, route) at h))

-- The request that the preamble accepted.
abbrev pub Asked : Credentials → Socket → Socket → Request → Type 0
Asked auth client before req =
    (admitted : Socket) × (authenticate failure auth client ≡ (admitted, ok tt))
    × (read_request failure admitted ≡ (before, ok req))
    × (req.command ≡ connect)

is_connect-eq-true : (c : Command) → is_connect c ≡ true → c ≡ connect
is_connect-eq-true connect h = refl
is_connect-eq-true bind h = cc
is_connect-eq-true udp_associate h = cc

same_request :
    (s t : Socket) (r q : Request)
    → ◌≡◌ {A = Socket × Result GatewayError Request} (s, ok r) (t, ok q)
    → (s ≡ t) × (r ≡ q)
same_request s t r q h = (cc, cc)

no_request :
    (s t : Socket) (e : GatewayError) (q : Request)
    → ◌≢◌ {A = Socket × Result GatewayError Request} (s, err e) (t, ok q)
no_request s t e q h = cc

accepted :
    (r req : Request) (s before : Socket)
    → (if is_connect r.command then pure r else refuse_command failure) s ≡ (before, ok req)
    → (s ≡ before) × (r ≡ req) × (r.command ≡ connect)
unfolding refuse_command try_reply
accepted r req s before h = elim (Bool-cases (is_connect r.command)) [
  | inl e ↦
      (let (x, y) = same_request s before r req (rw e at h) in
        (x, y, is_connect-eq-true r.command e))
  | inr e ↦ absurd (no_request _ before protocol req (rw e at h))
]

preamble-eq-ok :
    (auth : Credentials) (client before : Socket) (req : Request)
    → preamble failure auth client ≡ (before, ok req)
    → Asked auth client before req
unfolding preamble accept_connect
preamble-eq-ok auth client before req h =
    let answer : Request → Action GatewayError Request =
      λ r. if is_connect r.command then pure r else refuse_command failure in
    let (s1, u, e1, f1) =
      and_then-eq-ok (λ _. accept_connect failure) (authenticate failure auth client) before req
        h in
    let (s2, r, e2, f2) = and_then-eq-ok answer (read_request failure s1) before req f1 in
    let (x, y, c) = accepted r req s2 before f2 in
    (
      s1,
      e1,
      e2
          ∙ ap (λ (z : Socket × Request). (z.0, ok z.1))
              (ap (λ z. (z, r)) x ∙ ap (λ z. (before, z)) y),
      ap (λ (z : Request). z.command) (sym y) ∙ c,
    )

requested-eq-ok :
    (net : Net) (p : Socket × Result GatewayError Request) (stats : RelayStats)
    → (requested net p).result ≡ ok stats
    → (before : Socket) × (req : Request) × (p ≡ (before, ok req))
      × IsRelayed net req.addr before stats (requested net p).client
unfolding requested
requested-eq-ok net (s, ok req) stats h =
    (s, req, refl, route-eq-ok net req.addr s stats net.selection refl h)
requested-eq-ok net (s, err e) stats h = absurd (no_stats h)

-- Whatever the streams do: a call that ends with statistics has admitted the client, under the
-- credentials that are configured, and read a CONNECT request from it; the control plane selected a
-- node that accepted the connection, was asked for the client's target and for nothing else, and
-- answered success; the client was told of success and read no further; and the statistics are the
-- counts of a relay that ended by itself. Fewer than 2 ^ 64 bytes of the client are waiting.
pub run_with_ctx-IsRelayed :
    (net : Net) (auth : Credentials) (client : Socket) (stats : RelayStats)
    → length client.inbox < usize_mod
    → (run_with_ctx net auth client).result ≡ ok stats
    → (admitted : Socket) × (before : Socket) × (req : Request) × Admitted auth client admitted
      × (read_request failure admitted ≡ (before, ok req))
      × (req.command ≡ connect)
      × IsRelayed net req.addr before stats (run_with_ctx net auth client).client
unfolding run_with_ctx
run_with_ctx-IsRelayed net auth client stats small h =
    let (before, req, e, r) = requested-eq-ok net (preamble failure auth client) stats h in
    let (s1, a, q, c) = preamble-eq-ok auth client before req e in
    (s1, before, req, authenticate-Admitted failure auth client s1 small a, q, c, r)
