-- ===== src/Session/Complete.antt =====
-- The greeting, the authentication and the request of a peer that keeps to the protocol, on a
-- stream on which nothing fails.
use rust_proxy.Base.{
  ℕ, ◌≤◌, ◌≡◌, refl, subst, ◌∙◌, true, not, ◌||◌, ltb, none, some, List, [], ◌∷◌, ◌++◌,
  append_assoc, append-nil, length, ◌==◌, ok, arith, bytes_eq_iff,
}
use rust_proxy.Base.Utf8.{is_utf8}
use rust_proxy.Protocol.Constants.{version, auth_version}
use rust_proxy.Protocol.Constants.Method
use rust_proxy.Protocol.Handshake as Handshake
use rust_proxy.Protocol.Handshake.{Greeting, negotiate, contains}
use rust_proxy.Protocol.Handshake.Parse.{greeting_round_trip}
use rust_proxy.Protocol.Auth as Auth
use rust_proxy.Protocol.Auth.{auth_reply_bytes}
use rust_proxy.Protocol.Command.{connect}
use rust_proxy.Protocol.Host.{SocksAddr}
use rust_proxy.Protocol.Request.{Request}
use rust_proxy.Protocol.Request.RoundTrip.{IsSendable, frame, from_utf8-eq-some}
use rust_proxy.Session.Socket.{Failure}
use rust_proxy.Session.Moves.{clear, read-clear, write-clear}
use rust_proxy.Session.Stream.{read_request-frame}
use rust_proxy.Session.{
  Credentials, read_greeting, handle_user_pass_auth, authenticate, accept_connect, preamble,
}

-- What a peer sends to be let in: a greeting that offers the method, and the credentials if any.
abbrev pub entry : Credentials → List ℕ → List ℕ
entry none methods = version ∷ length methods ∷ methods
entry (some (u, p)) methods =
    version ∷ length methods ∷ (methods ++ (auth_version ∷ length u ∷ (u ++ (length p ∷ p))))

-- What it is answered.
abbrev pub welcome : Credentials → List ℕ
welcome none = version ∷ Method.no_auth ∷ []
welcome (some c) = version ∷ Method.user_pass ∷ auth_version ∷ Auth.success ∷ []

-- What the peer must offer, and which credentials can be presented.
abbrev pub IsEntry : Credentials → List ℕ → Type 0
IsEntry none methods =
    (1 ≤ length methods) × (length methods ≤ 255) × (contains methods Method.no_auth ≡ true)
IsEntry (some (u, p)) methods =
    (1 ≤ length methods)
    × (length methods ≤ 255)
    × (contains methods Method.user_pass ≡ true)
    × (1 ≤ length u)
    × (length u ≤ 255)
    × (is_utf8 u ≡ true)
    × (is_utf8 p ≡ true)

module _ {E : Type 0} (failure : Failure E) where
  read_greeting-clear :
      (methods rest sent : List ℕ)
      → 1 ≤ length methods
      → length methods ≤ 255
      → read_greeting failure (clear (version ∷ length methods ∷ (methods ++ rest)) sent)
        ≡ (clear rest sent, ok (record { methods = methods }))
  unfolding read_greeting
  read_greeting-clear methods rest sent lo hi =
      let some_methods : not (length methods == 0) ≡ true = ground arith in
      let parsed : Handshake.parse (version ∷ length methods ∷ methods)
          ≡ ok (record { methods = methods }) =
        subst
          (λ z. Handshake.parse (version ∷ length methods ∷ z) ≡ ok (record { methods = methods }))
          (append-nil methods) (greeting_round_trip methods [] lo hi (omega arith)).0 in
      rw (read-clear failure 2 (version ∷ length methods ∷ []) (methods ++ rest) sent refl) (
        rw some_methods
          (rw (read-clear failure (length methods) methods rest sent refl) (rw parsed refl)))

  handle_user_pass_auth-clear :
      (u p rest sent : List ℕ)
      → 1 ≤ length u
      → length u ≤ 255
      → is_utf8 u ≡ true
      → is_utf8 p ≡ true
      → handle_user_pass_auth failure
          (some (u, p))
          (clear (auth_version ∷ length u ∷ (u ++ (length p ∷ (p ++ rest)))) sent)
        ≡ (clear rest (sent ++ (auth_version ∷ Auth.success ∷ [])), ok tt)
  unfolding handle_user_pass_auth auth_reply_bytes
  handle_user_pass_auth-clear u p rest sent lo hi tu tp =
      let fits : not (length u == 0 || ltb 255 (length u)) ≡ true = ground arith in
      rw
        (read-clear failure 1 (auth_version ∷ []) (length u ∷ (u ++ (length p ∷ (p ++ rest)))) sent
          refl)
        (rw (read-clear failure 1 (length u ∷ []) (u ++ (length p ∷ (p ++ rest))) sent refl) (
          rw fits (
            rw (read-clear failure (length u) u (length p ∷ (p ++ rest)) sent refl) (
              rw (read-clear failure 1 (length p ∷ []) (p ++ rest) sent refl) (
                rw (read-clear failure (length p) p rest sent refl) (
                  rw (from_utf8-eq-some u tu, from_utf8-eq-some p tp)
                    (rw ((bytes_eq_iff u u).1 refl, (bytes_eq_iff p p).1 refl)
                      (rw (write-clear failure (auth_version ∷ Auth.success ∷ []) rest sent)
                        refl))))))))

  -- A peer that offers the method, and presents the credentials if there are any, is let in.
  pub authenticate-clear :
      (auth : Credentials) (methods rest sent : List ℕ)
      → IsEntry auth methods
      → authenticate failure auth (clear (entry auth methods ++ rest) sent)
        ≡ (clear rest (sent ++ welcome auth), ok tt)
  unfolding authenticate negotiate Handshake.to_bytes
  authenticate-clear none methods rest sent (lo, hi, c) =
      rw (read_greeting-clear methods rest sent lo hi)
        (rw c (rw (write-clear failure (version ∷ Method.no_auth ∷ []) rest sent) refl))
  authenticate-clear (some (u, p)) methods rest sent (lo, hi, c, lu, hu, tu, tp) =
      let after : List ℕ = auth_version ∷ length u ∷ (u ++ (length p ∷ (p ++ rest))) in
      rw
        (
          append_assoc methods (auth_version ∷ length u ∷ (u ++ (length p ∷ p))) rest,
          append_assoc u (length p ∷ p) rest,
        )
        (rw (read_greeting-clear methods after sent lo hi) (
          rw c (
            rw (write-clear failure (version ∷ Method.user_pass ∷ []) after sent) (
              handle_user_pass_auth-clear u p rest (sent ++ (version ∷ Method.user_pass ∷ [])) lu hu
                tu tp
              ∙ rw (
                  append_assoc sent (version ∷ Method.user_pass ∷ [])
                    (auth_version ∷ Auth.success ∷ []))))))

  -- And its CONNECT request is accepted, with nothing taken beyond it.
  pub preamble-clear :
      (auth : Credentials) (methods rest sent : List ℕ) (rsv : ℕ) (dest : SocksAddr)
      → IsEntry auth methods
      → IsSendable dest
      → let req : Request = record { command = connect; addr = dest } in
        preamble failure auth (clear (entry auth methods ++ (frame rsv req ++ rest)) sent)
        ≡ (clear rest (sent ++ welcome auth), ok req)
  unfolding preamble accept_connect
  preamble-clear auth methods rest sent rsv dest ready send =
      let req : Request = record { command = connect; addr = dest } in
      rw (authenticate-clear auth methods (frame rsv req ++ rest) sent ready)
        (rw (read_request-frame failure rsv req rest (sent ++ welcome auth) send) refl)
