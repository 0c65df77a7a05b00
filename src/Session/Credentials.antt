-- ===== src/Session/Credentials.antt =====
-- Authentication with a username and a password: what the peer presented, and what it was answered.
use rust_proxy.Base.{
  ℕ, ◌≡◌, ◌≢◌, refl, sym, ap, subst, ◌∙◌, Bool, true, false, ◌&&◌, none, some, List, [], ◌∷◌, ◌++◌,
  append-nil, length, ◌==◌, bytes_eq, if◌then◌else◌, arith, Bool-cases, inl, inr, ==_iff,
  bytes_eq_iff,
}
use rust_proxy.Base.Utf8.{is_utf8, from_utf8}
use rust_proxy.Protocol.Constants.{auth_version}
use rust_proxy.Protocol.Auth as Auth
use rust_proxy.Protocol.Auth.{auth_reply_bytes}
use rust_proxy.Session.Socket.{Failure}
use rust_proxy.Session.Exchange.{
  Spec, Meets, Meets-reads, Meets-checks, Meets-lifts_some, Meets-writes, Meets-require,
  Meets-weaken,
}
use rust_proxy.Session.{byte_at, matches, handle_user_pass_auth}

from_utf8_same : (x y : List ℕ) → from_utf8 x ≡ some y → y ≡ x
unfolding from_utf8
from_utf8_same x y h = elim (Bool-cases (is_utf8 x)) [
  | inl e ↦ sym (same (rw e at h))
  | inr e ↦ absurd (no (rw e at h))
]
  where
    same : some x ≡ some y → x ≡ y
    same h = cc

    no : none ≢ some y
    no h = cc

pub one : (bs : List ℕ) → length bs ≡ 1 → bs ≡ byte_at bs 0 ∷ []
one [] h = absurd (omega arith)
one (b ∷ []) h = refl
one (b ∷ c ∷ bs) h = absurd (omega arith)

both : (a b : Bool) → (a && b) ≡ true → (a ≡ true) × (b ≡ true)
both a b h = ground arith

-- A field of one byte, and what follows it.
headed :
    (n : ℕ) (xs bs rest : List ℕ)
    → xs ≡ bs ++ rest
    → length bs ≡ 1
    → n ≡ byte_at bs 0
    → xs ≡ n ∷ rest
headed n xs bs rest e l h = e ∙ ap (λ z. z ++ rest) (one bs l) ∙ ap (λ z. z ∷ rest) (sym h)

-- The fields of the frame, put together.
fields :
    (taken ver ulen uname plen passwd r1 r2 r3 r4 : List ℕ)
    → taken ≡ ver ++ r1
    → length ver ≡ 1
    → byte_at ver 0 ≡ auth_version
    → r1 ≡ ulen ++ r2
    → length ulen ≡ 1
    → r2 ≡ uname ++ r3
    → length uname ≡ byte_at ulen 0
    → r3 ≡ plen ++ r4
    → length plen ≡ 1
    → r4 ≡ passwd ++ []
    → length passwd ≡ byte_at plen 0
    → taken ≡ auth_version ∷ length uname ∷ (uname ++ (length passwd ∷ passwd))
fields taken ver ulen uname plen passwd r1 r2 r3 r4 e1 l1 c1 e2 l2 e3 l3 e4 l4 e5 l5 =
    headed auth_version taken ver r1 e1 l1 (sym c1)
    ∙ ap (λ z. auth_version ∷ z) (headed (length uname) r1 ulen r2 e2 l2 l3)
    ∙ ap (λ z. auth_version ∷ length uname ∷ z)
        (e3
          ∙ ap (λ z. uname ++ z)
              (headed (length passwd) r3 plen r4 e4 l4 l5
                ∙ ap (λ z. length passwd ∷ z) (e5 ∙ append-nil passwd)))

answer :
    (b : Bool) (given g : List ℕ)
    → given ≡ auth_reply_bytes (if b then Auth.success else Auth.failure) ++ g
    → g ≡ []
    → b ≡ true
    → given ≡ auth_reply_bytes Auth.success
answer true given g e z m = e ∙ ap (λ x. auth_reply_bytes Auth.success ++ x) z ∙ append-nil _
answer false given g e z m = cc

module _ {E : Type 0} (failure : Failure E) where
  -- The frame of the credentials, RFC 1929, taken from the peer; the answer is a success.
  abbrev pub Presented : List ℕ → List ℕ → Spec (Unit {0})
  Presented u p _ taken given =
      (taken ≡ auth_version ∷ length u ∷ (u ++ (length p ∷ p)))
      × (given ≡ auth_reply_bytes Auth.success)

  pub handle_user_pass_auth-Meets :
      (u p : List ℕ) → Meets (handle_user_pass_auth failure (some (u, p))) (Presented u p)
  unfolding handle_user_pass_auth
  handle_user_pass_auth-Meets u p =
      Meets-weaken
        (λ _ taken given
            (
              ver,
              r1,
              e1,
              l1,
              (
                _,
                c1,
                (
                  ulen,
                  r2,
                  e2,
                  l2,
                  (
                    _,
                    c2,
                    (
                      uname,
                      r3,
                      e3,
                      l3,
                      (
                        plen,
                        r4,
                        e4,
                        l4,
                        (passwd, r5, e5, l5, (username, h1, (password, h2, (g, eg, (z1, z2, m))))),
                      ),
                    ),
                  ),
                ),
              ),
            ).
          let (m1, m2) = both (bytes_eq username u) (bytes_eq password p) m in
          let name : uname ≡ u =
            sym (from_utf8_same uname username h1) ∙ (bytes_eq_iff username u).0 m1 in
          let word : passwd ≡ p =
            sym (from_utf8_same passwd password h2) ∙ (bytes_eq_iff password p).0 m2 in
          let frame =
            fields taken ver ulen uname plen passwd r1 r2 r3 r4 e1 l1
              ((==_iff (byte_at ver 0) auth_version).0 c1) e2 l2 e3 l3 e4 l4 (rw z1 at e5) l5 in
          (
            subst (λ z. taken ≡ auth_version ∷ length z ∷ (z ++ (length p ∷ p))) name
                (subst (λ z. taken ≡ auth_version ∷ length uname ∷ (uname ++ (length z ∷ z))) word
                  frame),
            answer (matches (some (u, p)) username password) given g eg z2 m,
          ))
        (Meets-reads failure 1 λ ver.
          Meets-checks (byte_at ver 0 == auth_version) failure.protocol (
            Meets-reads failure 1 λ ulen. Meets-checks _ failure.protocol (
              Meets-reads failure (byte_at ulen 0) λ uname. Meets-reads failure 1 λ plen.
                Meets-reads failure (byte_at plen 0) λ passwd.
                  Meets-lifts_some (from_utf8 uname) failure.protocol λ username.
                    Meets-lifts_some (from_utf8 passwd) failure.protocol λ password.
                      Meets-writes failure _ (
                        Meets-require (matches (some (u, p)) username password) failure.protocol))))
