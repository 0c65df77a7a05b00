-- ===== src/Gateway/Chain.antt =====
-- The gateway's end of the conversation with a node, on a stream on which nothing fails.
use rust_proxy.Base.{
  Bool-cases, inl, inr, gt→leb, subst, ℕ, ◌+◌, ◌<◌, ◌≤◌, ◌%◌, ◌≡◌, refl, ap, ◌∙◌, List, [], ◌∷◌,
  ◌++◌, append_assoc, length, ◌==◌, if◌then◌else◌, Result, ok, err, arith, length-append,
}
use rust_proxy.Protocol.Constants.{version}
use rust_proxy.Protocol.Constants.Atyp
use rust_proxy.Protocol.Constants.Method
use rust_proxy.Protocol.Constants.Reply as Code
use rust_proxy.Protocol.Command.{connect}
use rust_proxy.Protocol.Host.{IpAddr, v4, v6, ip, domain, SocksAddr, atyp}
use rust_proxy.Protocol.Host.Layout.{IsTyped, port_field, layout}
use rust_proxy.Protocol.Request.RoundTrip.{IsSendable, frame, to_bytes-frame}
use rust_proxy.Session.Socket.{Socket, Action, ◌>>=◌, require, read_exact_timeout}
use rust_proxy.Session.Moves.{clear, read-clear, write-clear}
use rust_proxy.Gateway.Handler.{GatewayError, io, relay_error, failure, node_addr_len, chain}

-- What the gateway sends to the node.
abbrev pub asked : SocksAddr → List ℕ
asked dest = version ∷ 1 ∷ 0 ∷ frame 0 (record { command = connect; addr = dest })

-- What a node answers: the method, and a reply.
abbrev pub answered : ℕ → SocksAddr → List ℕ
answered code bind = version ∷ Method.no_auth ∷ version ∷ code ∷ 0 ∷ atyp bind.host ∷ layout bind

abbrev pub verdict : ℕ → Result GatewayError (Unit {0})
verdict code = if code == Code.success then ok tt else err relay_error

-- The end of `chain`, after the header of the reply.
abbrev finish_chain : ℕ → ℕ → Action GatewayError (Unit {0})
finish_chain code kind = do
  len ← node_addr_len kind
  node_addr ← read_exact_timeout failure len
  require (code == Code.success) relay_error

require-verdict :
    (s : Socket) (code : ℕ) → require (code == Code.success) relay_error s ≡ (s, verdict code)
require-verdict s code = elim (Bool-cases (code == Code.success)) [
  | inl e ↦ rw e refl
  | inr e ↦ rw e refl
]

chain-finish :
    (dest : SocksAddr) (code kind : ℕ) (rest sent : List ℕ)
    → IsSendable dest
    → chain dest (clear (version ∷ Method.no_auth ∷ version ∷ code ∷ 0 ∷ kind ∷ rest) sent)
      ≡ finish_chain code kind (clear rest (sent ++ asked dest))
unfolding chain
chain-finish dest code kind rest sent send =
    rw
      (write-clear failure (version ∷ 1 ∷ 0 ∷ [])
        (version ∷ Method.no_auth ∷ version ∷ code ∷ 0 ∷ kind ∷ rest) sent)
      (rw
        (read-clear failure 2 (version ∷ Method.no_auth ∷ []) (version ∷ code ∷ 0 ∷ kind ∷ rest)
          (sent ++ (version ∷ 1 ∷ 0 ∷ [])) refl)
        (rw (to_bytes-frame (record { command = connect; addr = dest }) send) (
          rw
            (write-clear failure (frame 0 (record { command = connect; addr = dest }))
              (version ∷ code ∷ 0 ∷ kind ∷ rest) (sent ++ (version ∷ 1 ∷ 0 ∷ [])))
            (rw
              (read-clear failure 4 (version ∷ code ∷ 0 ∷ kind ∷ []) rest
                ((sent ++ (version ∷ 1 ∷ 0 ∷ []))
                  ++ frame 0 (record { command = connect; addr = dest }))
                refl)
              (ap (λ z. finish_chain code kind (clear rest z))
                (append_assoc sent (version ∷ 1 ∷ 0 ∷ [])
                  (frame 0 (record { command = connect; addr = dest }))))))))

finish-read :
    (code n : ℕ) (addr rest sent : List ℕ)
    → length addr ≡ n
    → (read_exact_timeout failure n >>= λ node_addr. require (code == Code.success) relay_error)
        (clear (addr ++ rest) sent)
      ≡ (clear rest sent, verdict code)
finish-read code n addr rest sent e =
    rw (read-clear failure n addr rest sent e) (require-verdict (clear rest sent) code)

finish_chain-ip :
    (code : ℕ) (a : IpAddr) (port : ℕ) (rest sent : List ℕ)
    → IsTyped (ip a)
    → finish_chain code
        (atyp (ip a))
        (clear (layout (record { host = ip a; port = port }) ++ rest) sent)
      ≡ (clear rest sent, verdict code)
unfolding node_addr_len atyp
finish_chain-ip code (v4 octets) port rest sent t =
    finish-read code 6 (octets ++ port_field port) rest sent
      (omega (arith, t.0, length-append octets (port_field port)))
finish_chain-ip code (v6 octets) port rest sent t =
    finish-read code 18 (octets ++ port_field port) rest sent
      (omega (arith, t.0, length-append octets (port_field port)))

-- A node that accepts the method and answers with an IP address: the chain asks for the target, takes
-- the answer and no byte more, and succeeds if the code is success, else it is a relay error.
pub chain-ip-answer :
    (dest : SocksAddr) (code : ℕ) (a : IpAddr) (port : ℕ) (rest sent : List ℕ)
    → IsSendable dest
    → IsTyped (ip a)
    → chain dest (clear (answered code (record { host = ip a; port = port }) ++ rest) sent)
      ≡ (clear rest (sent ++ asked dest), verdict code)
chain-ip-answer dest code a port rest sent send t =
    chain-finish dest code (atyp (ip a)) (layout (record { host = ip a; port = port }) ++ rest) sent
      send
    ∙ finish_chain-ip code a port rest (sent ++ asked dest) t

read_short :
    (n : ℕ) (xs sent : List ℕ)
    → length xs < n
    → read_exact_timeout failure n (clear xs sent) ≡ (clear [] sent, err io)
unfolding read_exact_timeout
read_short n xs sent lt = rw (gt→leb n (length xs) lt) refl

finish_chain-domain :
    (code : ℕ) (name : List ℕ) (port : ℕ) (sent : List ℕ)
    → length name ≤ 255
    → (finish_chain code Atyp.domain
          (clear (layout (record { host = domain name; port = port })) sent)
        ≡ (clear [] sent, err io))
      × ((b : ℕ) (rest : List ℕ)
          → finish_chain code Atyp.domain
              (clear (layout (record { host = domain name; port = port }) ++ (b ∷ rest)) sent)
            ≡ (clear rest sent, verdict code))
unfolding node_addr_len
finish_chain-domain code name port sent hi = (
  rw (read-clear failure 1 (length name % 256 ∷ []) (name ++ port_field port) sent refl) (
      rw
        (read_short (1 + length name % 256 + 2) (name ++ port_field port) sent
          (omega (arith, length-append name (port_field port))))
        refl),
  λ b rest.
      rw
        (read-clear failure 1 (length name % 256 ∷ []) ((name ++ port_field port) ++ (b ∷ rest))
          sent refl)
        (subst
          (λ z.
            (read_exact_timeout failure (1 + length name % 256 + 2) >>= λ node_addr.
            require (code == Code.success) relay_error)
              (clear z sent)
            ≡ (clear rest sent, verdict code))
          (append_assoc (name ++ port_field port) (b ∷ []) rest)
          (finish-read code (1 + length name % 256 + 2) ((name ++ port_field port) ++ (b ∷ [])) rest
            sent
            (omega (
              arith,
              length-append name (port_field port),
              length-append (name ++ port_field port) (b ∷ []),
            )))),
)

-- A node that answers with a domain name as RFC 1928 lays it out: the gateway reads one byte more
-- than the answer has. With nothing behind the answer the chain fails, whatever its code, and with
-- bytes behind it the first of them is lost.
pub chain-domain-answer :
    (dest : SocksAddr) (code : ℕ) (name : List ℕ) (port : ℕ) (sent : List ℕ)
    → IsSendable dest
    → length name ≤ 255
    → let answer : List ℕ = answered code (record { host = domain name; port = port }) in
      (chain dest (clear answer sent) ≡ (clear [] (sent ++ asked dest), err io))
      × ((b : ℕ) (rest : List ℕ)
          → chain dest (clear (answer ++ (b ∷ rest)) sent)
            ≡ (clear rest (sent ++ asked dest), verdict code))
unfolding atyp
chain-domain-answer dest code name port sent send hi =
    let wire : List ℕ = layout (record { host = domain name; port = port }) in
    let (short, long) = finish_chain-domain code name port (sent ++ asked dest) hi in
    (
      chain-finish dest code Atyp.domain wire sent send ∙ short,
      λ b rest. chain-finish dest code Atyp.domain (wire ++ (b ∷ rest)) sent send ∙ long b rest,
    )
