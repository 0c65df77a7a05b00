-- ===== src/Session/Answer.antt =====
-- The bytes of the replies that the handlers send.
use rust_proxy.Base.{ℕ, some, ◌≡◌, refl, List, [], ◌∷◌, ◌++◌, ok, arith}
use rust_proxy.Protocol.Constants.{version}
use rust_proxy.Protocol.Constants.Atyp
use rust_proxy.Protocol.Host.{SocksAddr, ip, v4, atyp, to_vec}
use rust_proxy.Protocol.Host.Layout.{to_vec_lem}
use rust_proxy.Protocol.Reply as Reply
use rust_proxy.Protocol.Reply.{simple_reply}
use rust_proxy.Session.Socket.{Failure}
use rust_proxy.Session.Moves.{clear, write-clear}
use rust_proxy.Session.{written, reply_bytes, try_reply}

-- A reply without an address: the code, and 0.0.0.0:0.
abbrev pub answer_frame : ℕ → List ℕ
answer_frame code = version ∷ code ∷ 0 ∷ Atyp.ipv4 ∷ 0 ∷ 0 ∷ 0 ∷ 0 ∷ 0 ∷ 0 ∷ []

-- 0.0.0.0:0
abbrev nowhere : SocksAddr
nowhere = record { host = ip (v4 (0 ∷ 0 ∷ 0 ∷ 0 ∷ [])); port = 0 }

nowhere-layout : to_vec nowhere ≡ some (0 ∷ 0 ∷ 0 ∷ 0 ∷ 0 ∷ 0 ∷ [])
nowhere-layout =
    to_vec_lem nowhere (refl, (omega arith, (omega arith, (omega arith, (omega arith, tt)))))
      (omega arith)

pub reply_bytes-frame : (code : ℕ) → reply_bytes code ≡ answer_frame code
unfolding reply_bytes Reply.to_bytes simple_reply atyp
reply_bytes-frame code = rw (nowhere-layout, Reply.to_bytes, written) refl

pub try_reply-clear :
    {E : Type 0} (failure : Failure E) (code : ℕ) (inbox sent : List ℕ)
    → try_reply failure code (clear inbox sent) ≡ (clear inbox (sent ++ answer_frame code), ok tt)
unfolding try_reply
try_reply-clear failure code inbox sent =
    rw (reply_bytes-frame code) (rw (write-clear failure (answer_frame code) inbox sent) refl)
