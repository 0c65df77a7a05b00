-- ===== src/Session/Socket.antt =====
-- A TCP stream as the two `handler.rs` see it, and the helpers `read_exact_timeout` and
-- `write_all_timeout` on it. tokio's sockets and timers are not code of the repository: how each
-- operation ends is a schedule of the environment, and any schedule is possible.
use rust_proxy.Base.{
  ℕ, Bool, true, false, Option, none, some, List, [], ◌∷◌, ◌++◌, length, take, drop, leb, Result,
  ok, err, if◌then◌else◌,
}

-- An operation is served, or the deadline passes or the connection breaks after some bytes moved.
pub data Fate : Type 0 where
  served : Fate
  timed_out broken : (moved : ℕ) → Fate

-- The bytes that the peer will send, those sent to it, and the fates of the operations to come; an
-- operation beyond the schedule is served.
pub record Socket : Type 0 where
  pub inbox : List ℕ
  pub sent : List ℕ
  pub fates : List Fate

-- The variants of an error type that the helpers build; messages are left out.
pub record Failure (E : Type 0) : Type 0 where
  pub protocol : E
  pub timeout : E
  pub io : E

-- An operation on a socket; the socket is as the operation left it after an error too.
abbrev pub Action : Type 0 → Type 0 → Type 0
Action E A = Socket → Socket × Result E A

-- What follows `?`.
abbrev pub and_then :
    {E A B : Type 0} → (A → Action E B) → Socket × Result E A → Socket × Result E B
and_then f (s, ok a) = f a s
and_then f (s, err e) = (s, err e)

infixl 5 ◌>>=◌ ◌>>◌
abbrev pub ◌>>=◌ : {E A B : Type 0} → Action E A → (A → Action E B) → Action E B
◌>>=◌ m f s = and_then f (m s)

abbrev pub ◌>>◌ : {E B : Type 0} → Action E (Unit {0}) → Action E B → Action E B
m >> k = m >>= λ _. k

abbrev pub pure : {E A : Type 0} → A → Action E A
pure a s = (s, ok a)

abbrev pub fail : {E A : Type 0} → E → Action E A
fail e s = (s, err e)

-- `if !test { return Err(e) }`
abbrev pub require : {E : Type 0} → Bool → E → Action E (Unit {0})
require true e = pure tt
require false e = fail e

-- `result.map_err(|_| e)?`
abbrev pub lift {ℓ} : {E A : Type 0} {F : Type ℓ} → Result F A → E → Action E A
lift (ok a) e = pure a
lift (err _) e = fail e

abbrev pub lift_some : {E A : Type 0} → Option A → E → Action E A
lift_some (some a) e = pure a
lift_some none e = fail e

-- The next fate, and those after it.
abbrev pub next_fate : List Fate → Fate × List Fate
next_fate [] = (served, [])
next_fate (f ∷ fs) = (f, fs)

module _ {E : Type 0} (failure : Failure E) where
  -- A read that is served fills the buffer, or meets the end of the stream: `UnexpectedEof`.
  abbrev pub receive : ℕ → Socket → Fate × List Fate → Socket × Result E (List ℕ)
  receive n s (served, rest) =
      if leb n (length s.inbox)
      then (record s { inbox = drop n s.inbox; fates = rest }, ok (take n s.inbox))
      else (record s { inbox = []; fates = rest }, err failure.io)
  receive n s (timed_out k, rest) =
      (record s { inbox = drop k s.inbox; fates = rest }, err failure.timeout)
  receive n s (broken k, rest) = (record s { inbox = drop k s.inbox; fates = rest }, err failure.io)

  -- The buffer of `n` bytes, filled.
  unfoldable pub read_exact_timeout : ℕ → Action E (List ℕ)
  read_exact_timeout n s = receive n s (next_fate s.fates)

  abbrev pub transmit : List ℕ → Socket → Fate × List Fate → Socket × Result E (Unit {0})
  transmit bytes s (served, rest) = (record s { sent = s.sent ++ bytes; fates = rest }, ok tt)
  transmit bytes s (timed_out k, rest) =
      (record s { sent = s.sent ++ take k bytes; fates = rest }, err failure.timeout)
  transmit bytes s (broken k, rest) =
      (record s { sent = s.sent ++ take k bytes; fates = rest }, err failure.io)

  unfoldable pub write_all_timeout : List ℕ → Action E (Unit {0})
  write_all_timeout bytes s = transmit bytes s (next_fate s.fates)
