-- ===== src/Protocol/Handshake/Negotiate.antt =====
-- The choice of a method, against the methods that the client offered and the policy of the server.
use rust_proxy.Base.{ℕ, ◌≡◌, ◌≤◌, ◌≢◌, Bool, true, ◌&&◌, ◌||◌, ◌==◌, arith}
use rust_proxy.Protocol.Constants.Method
use rust_proxy.Protocol.Handshake.{Greeting, contains, negotiate}

-- The server's policy, as a test of a method.
abbrev pub permitted : Bool → Bool → ℕ → Bool
permitted allow_user_pass allow_no_auth m =
    (m == Method.user_pass && allow_user_pass) || (m == Method.no_auth && allow_no_auth)

-- The choice is a method that the client offered and the policy permits, unless it is
-- NO_ACCEPTABLE, which is the answer only if no method offered is permitted. Of the methods that
-- are offered and permitted it is the one of the lowest code, so that NO_AUTH goes before USER_PASS.
pub negotiate_sound :
    (g : Greeting) (allow_user_pass allow_no_auth : Bool)
    → let m = (negotiate g allow_user_pass allow_no_auth).method in
      (m ≢ Method.no_acceptable
        → (contains g.methods m ≡ true) × (permitted allow_user_pass allow_no_auth m ≡ true))
      × ((k : ℕ)
          → contains g.methods k ≡ true
          → permitted allow_user_pass allow_no_auth k ≡ true
          → (m ≢ Method.no_acceptable) × (m ≤ k))
unfolding negotiate
negotiate_sound g up na = (ground arith, λ k c p. (ground arith, ground arith))
