-- ===== src/Gateway/Chained.antt =====
-- What a chain that succeeded exchanged with the node, whatever the stream did.
use rust_proxy.Base.{
  ℕ, ◌+◌, ◌≡◌, refl, ap, ◌∙◌, List, [], ◌∷◌, ◌++◌, append-nil, length, ◌==◌, arith, ==_iff,
}
use rust_proxy.Protocol.Constants.{version}
use rust_proxy.Protocol.Constants.Atyp
use rust_proxy.Protocol.Constants.Method
use rust_proxy.Protocol.Constants.Reply as Code
use rust_proxy.Protocol.Command.{connect}
use rust_proxy.Protocol.Host.{SocksAddr}
use rust_proxy.Protocol.Request as Request
use rust_proxy.Protocol.Request.{Request}
use rust_proxy.Session.{byte_at, written}
use rust_proxy.Session.Socket.{pure}
use rust_proxy.Session.Exchange.{
  Spec, Meets, Meets-reads, Meets-checks, Meets-writes, Meets-bind, Meets-pure, Meets-fail,
  Meets-require, Meets-if, Meets-weaken,
}
use rust_proxy.Session.Admission.{two}
use rust_proxy.Gateway.Handler.{GatewayError, failure, protocol, relay_error, node_addr_len, chain}

-- Nothing is sent.
abbrev Quiet : Spec ℕ
Quiet n taken given = given ≡ []

Quiet-pure : (n : ℕ) → Meets (pure {E = GatewayError} n) Quiet
Quiet-pure n = Meets-weaken (λ a taken given (t, g, e). g) (Meets-pure n)

node_addr_len-Meets : (kind : ℕ) → Meets (node_addr_len kind) Quiet
unfolding node_addr_len
node_addr_len-Meets kind =
    Meets-if (kind == Atyp.ipv4) (λ e. Quiet-pure 6)
      (λ e.
        Meets-if (kind == Atyp.ipv6) (λ e. Quiet-pure 18)
          (λ e.
            Meets-if (kind == Atyp.domain)
              (λ e.
                Meets-weaken (λ n taken given (bytes, rest, t, l, (z, g, q)). g)
                  (Meets-reads failure 1 (λ dlen. Meets-pure (1 + byte_at dlen 0 + 2))))
              (λ e. Meets-fail Quiet protocol)))

-- The greeting and the request are sent, the method and a reply of success are received.
abbrev pub Chained : SocksAddr → Spec (Unit {0})
Chained dest _ taken given =
    (rsv : ℕ) × (kind : ℕ) × (bind : List ℕ) × (taken
      ≡ version ∷ Method.no_auth ∷ version ∷ Code.success ∷ rsv ∷ kind ∷ bind)
    × (given
        ≡ version ∷ 1 ∷ 0 ∷ written (Request.to_bytes (record { command = connect; addr = dest })))

pair :
    (bs rest : List ℕ) (a b : ℕ)
    → length bs ≡ 2
    → byte_at bs 0 ≡ a
    → byte_at bs 1 ≡ b
    → bs ++ rest ≡ a ∷ b ∷ rest
pair bs rest a b l e f = ap (λ z. z ++ rest) (two bs l) ∙ rw (e, f) refl

four :
    (bs : List ℕ)
    → length bs ≡ 4
    → bs ≡ byte_at bs 0 ∷ byte_at bs 1 ∷ byte_at bs 2 ∷ byte_at bs 3 ∷ []
four [] h = absurd (omega arith)
four (b ∷ []) h = absurd (omega arith)
four (b ∷ c ∷ []) h = absurd (omega arith)
four (b ∷ c ∷ d ∷ []) h = absurd (omega arith)
four (b ∷ c ∷ d ∷ e ∷ []) h = refl
four (b ∷ c ∷ d ∷ e ∷ f ∷ bs) h = absurd (omega arith)

quad :
    (bs rest : List ℕ) (a b : ℕ)
    → length bs ≡ 4
    → byte_at bs 0 ≡ a
    → byte_at bs 1 ≡ b
    → bs ++ rest ≡ a ∷ b ∷ byte_at bs 2 ∷ byte_at bs 3 ∷ rest
quad bs rest a b l e f = ap (λ z. z ++ rest) (four bs l) ∙ rw (e, f) refl

pub chain-Meets : (dest : SocksAddr) → Meets (chain dest) (Chained dest)
unfolding chain
chain-Meets dest =
    Meets-weaken
      (λ _ taken given
          (
            g1,
            eg1,
            (
              sel,
              r1,
              e1,
              l1,
              (
                _,
                v1,
                (
                  _,
                  m1,
                  (
                    g2,
                    eg2,
                    (
                      buf,
                      r2,
                      e2,
                      l2,
                      (_, v2, (len, t3, g3, t4, g4, e3, eg3, q3, (addr, r5, e5, l5, (z, zq, c)))),
                    ),
                  ),
                ),
              ),
            ),
          ).
        (
          byte_at buf 2,
          byte_at buf 3,
          r2,
          e1
              ∙ pair sel r1 _ _ l1 ((==_iff _ _).0 v1) ((==_iff _ _).0 m1)
              ∙ ap (λ x. version ∷ Method.no_auth ∷ x)
                  (e2 ∙ quad buf r2 _ _ l2 ((==_iff _ _).0 v2) ((==_iff _ _).0 c)),
          eg1
              ∙ ap (λ x. version ∷ 1 ∷ 0 ∷ x)
                  (eg2
                    ∙ ap
                        (λ x.
                          written (Request.to_bytes (record { command = connect; addr = dest }))
                          ++ x)
                        (eg3 ∙ ap (λ x. x ++ g4) q3 ∙ zq)
                    ∙ append-nil _),
        ))
      (Meets-writes failure (version ∷ 1 ∷ 0 ∷ []) (
        Meets-reads failure 2 λ sel. Meets-checks (byte_at sel 0 == version) protocol (
          Meets-checks (byte_at sel 1 == Method.no_auth) protocol (
            Meets-writes failure _ (
              Meets-reads failure 4 λ buf. Meets-checks (byte_at buf 0 == version) protocol (
                Meets-bind (node_addr_len-Meets (byte_at buf 3)) λ len.
                  Meets-reads failure len
                    λ addr. Meets-require (byte_at buf 1 == Code.success) relay_error))))))
