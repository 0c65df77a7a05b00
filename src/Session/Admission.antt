-- ===== src/Session/Admission.antt =====
-- The greeting and the authentication, seen from a peer that was let in.
use rust_proxy.Base.{
  ℕ, ◌<◌, ◌≡◌, refl, sym, ap, subst, ◌∙◌, true, false, not, none, some, List, [], ◌∷◌, ◌++◌,
  append_assoc, append-nil, length, ◌==◌, if◌then◌else◌, ok, arith, Bool-cases, inl, inr,
  length-append,
}
use rust_proxy.Protocol.Constants.{version, auth_version}
use rust_proxy.Protocol.Constants.Method
use rust_proxy.Protocol.Reader.{usize_mod}
use rust_proxy.Protocol.Handshake as Handshake
use rust_proxy.Protocol.Handshake.{Greeting, negotiate, contains}
use rust_proxy.Protocol.Handshake.Parse.{greeting_sound}
use rust_proxy.Protocol.Auth as Auth
use rust_proxy.Protocol.Auth.{auth_reply_bytes}
use rust_proxy.Session.Socket.{Socket, Failure, Action, ◌>>◌, pure, require, write_all_timeout}
use rust_proxy.Session.Moves.{Took}
use rust_proxy.Session.Exchange.{
  Spec, Then, Silent, Writes, Meets, Meets-reads, Meets-checks, Meets-lift, Meets-writes,
  Meets-bind, Meets-pure, Meets-fail, Meets-weaken,
}
use rust_proxy.Session.{Credentials, byte_at, read_greeting, handle_user_pass_auth, authenticate}
use rust_proxy.Session.Credentials.{Presented, handle_user_pass_auth-Meets}

-- A greeting as the handler reads it: a header of two bytes, and as many methods as it says.
abbrev Greeted : Spec Greeting
Greeted g taken given =
    (ver : ℕ) × (methods : List ℕ) × (taken ≡ ver ∷ length methods ∷ methods)
    × (given ≡ [])
    × (Handshake.parse (ver ∷ length methods ∷ methods) ≡ ok g)

pub two : (bs : List ℕ) → length bs ≡ 2 → bs ≡ byte_at bs 0 ∷ byte_at bs 1 ∷ []
two [] h = absurd (omega arith)
two (b ∷ []) h = absurd (omega arith)
two (b ∷ c ∷ []) h = refl
two (b ∷ c ∷ d ∷ bs) h = absurd (omega arith)

header :
    (hdr methods rest : List ℕ)
    → length hdr ≡ 2
    → length methods ≡ byte_at hdr 1
    → hdr ++ rest ≡ byte_at hdr 0 ∷ length methods ∷ rest
header hdr methods rest l m =
    ap (λ z. z ++ rest) (two hdr l) ∙ ap (λ z. byte_at hdr 0 ∷ z ∷ rest) (sym m)

-- What the peer and the server exchanged when the server let the peer in.
abbrev pub Admitted : Credentials → Socket → Socket → Type 0
Admitted none s s' =
    (methods : List ℕ) × (s.inbox ≡ version ∷ length methods ∷ (methods ++ s'.inbox))
    × (contains methods Method.no_auth ≡ true)
    × (s'.sent ≡ s.sent ++ (version ∷ Method.no_auth ∷ []))
Admitted (some (u, p)) s s' =
    (methods : List ℕ) × (s.inbox
      ≡ version
        ∷ length methods
        ∷ (methods ++ (auth_version ∷ length u ∷ (u ++ (length p ∷ (p ++ s'.inbox))))))
    × (contains methods Method.user_pass ≡ true)
    × (s'.sent ≡ s.sent ++ (version ∷ Method.user_pass ∷ auth_version ∷ Auth.success ∷ []))

module _ {E : Type 0} (failure : Failure E) where
  read_greeting-Meets : Meets (read_greeting failure) Greeted
  unfolding read_greeting
  read_greeting-Meets =
      Meets-weaken
        (λ g taken given (hdr, r, e, l, (_, c, (methods, r2, e2, m, (z, w, h)))). (
          byte_at hdr 0,
          methods,
          e
              ∙ ap (λ x. hdr ++ x) (e2 ∙ ap (λ x. methods ++ x) z ∙ append-nil methods)
              ∙ header hdr methods methods l m,
          w,
          sym (ap Handshake.parse (header hdr methods methods l m)) ∙ h,
        ))
        (Meets-reads failure 2 λ hdr. Meets-checks (not (byte_at hdr 1 == 0)) failure.protocol (
          Meets-reads failure (byte_at hdr 1)
            λ methods. Meets-lift (Handshake.parse (hdr ++ methods)) failure.protocol))

  -- The step after the greeting, by the answer of `negotiate`.
  abbrev answer_greeting : Credentials → ℕ → Action E (Unit {0})
  answer_greeting auth method = do
    write_all_timeout failure (Handshake.to_bytes (record { method = method }))
    require (not (method == Method.no_acceptable)) failure.protocol
    if method == Method.user_pass then handle_user_pass_auth failure auth else pure tt

  rejected :
      (auth : Credentials) (P : Spec (Unit {0}))
      → Meets (answer_greeting auth Method.no_acceptable) P
  rejected auth P =
      Meets-weaken (λ _ taken given (g, e, impossible). cc)
        (Meets-writes failure _ (Meets-fail (λ _ _ _. false ≡ true) failure.protocol))

  opened :
      Meets
        (answer_greeting none Method.no_auth)
        (Writes (version ∷ Method.no_auth ∷ []) (Silent (λ a. a ≡ tt)))
  unfolding Handshake.to_bytes
  opened = Meets-writes failure _ (Meets-pure tt)

  challenged :
      (u p : List ℕ)
      → Meets
          (answer_greeting (some (u, p)) Method.user_pass)
          (Writes (version ∷ Method.user_pass ∷ []) (Presented failure u p))
  unfolding Handshake.to_bytes
  challenged u p = Meets-writes failure _ (handle_user_pass_auth-Meets failure u p)

  -- What follows the greeting, for either kind of server.
  abbrev Opened : List ℕ → Spec (Unit {0})
  Opened methods _ taken given =
      (contains methods Method.no_auth ≡ true)
      × (taken ≡ [])
      × (given ≡ version ∷ Method.no_auth ∷ [])

  opened-Meets :
      (g : Greeting)
      → Meets (answer_greeting none (negotiate g false true).method) (Opened g.methods)
  unfolding negotiate
  opened-Meets g = elim (Bool-cases (contains g.methods Method.no_auth)) [
    | inl e ↦ rw e (
        Meets-weaken
          (λ _ taken given (rest, eg, (z, w, _)).
            (e, z, eg ∙ ap (λ x. version ∷ Method.no_auth ∷ x) w))
          opened)
    | inr e ↦ rw e (rejected none (Opened g.methods))
  ]

  abbrev Challenged : List ℕ → List ℕ → List ℕ → Spec (Unit {0})
  Challenged u p methods _ taken given =
      (contains methods Method.user_pass ≡ true)
      × (taken ≡ auth_version ∷ length u ∷ (u ++ (length p ∷ p)))
      × (given ≡ version ∷ Method.user_pass ∷ auth_version ∷ Auth.success ∷ [])

  challenged-Meets :
      (u p : List ℕ) (g : Greeting)
      → Meets
          (answer_greeting (some (u, p)) (negotiate g true false).method)
          (Challenged u p g.methods)
  unfolding negotiate auth_reply_bytes
  challenged-Meets u p g = elim (Bool-cases (contains g.methods Method.user_pass)) [
    | inl e ↦ rw e (
        Meets-weaken
          (λ _ taken given (rest, eg, (z, w)).
            (e, z, eg ∙ ap (λ x. version ∷ Method.user_pass ∷ x) w))
          (challenged u p))
    | inr e ↦ rw e (rejected (some (u, p)) (Challenged u p g.methods))
  ]

  -- What a greeting and then the bytes `t2` leave.
  greeted :
      (s s' : Socket) (ver : ℕ) (methods taken t1 t2 : List ℕ) (g : Greeting)
      → length s.inbox < usize_mod
      → s.inbox ≡ taken ++ s'.inbox
      → taken ≡ t1 ++ t2
      → t1 ≡ ver ∷ length methods ∷ methods
      → Handshake.parse (ver ∷ length methods ∷ methods) ≡ ok g
      → (s.inbox ≡ version ∷ length g.methods ∷ (g.methods ++ (t2 ++ s'.inbox)))
  greeted s s' ver methods taken t1 t2 g small i et e h =
      let whole : s.inbox ≡ ver ∷ length methods ∷ (methods ++ (t2 ++ s'.inbox)) =
        i
        ∙ ap (λ x. x ++ s'.inbox) (et ∙ ap (λ x. x ++ t2) e)
        ∙ ap (λ x. ver ∷ length methods ∷ x) (append_assoc methods t2 s'.inbox) in
      let (ve, me) =
        greeting_sound ver methods g
          (omega (arith, ap (length {0} {A = ℕ}) whole, length-append methods (t2 ++ s'.inbox)))
          h in
      whole ∙ rw (ve, me)

  Admitted-open :
      (s s' : Socket)
      → length s.inbox < usize_mod
      → Took {E = E} s (Then Greeted (λ g. Opened g.methods)) (s', ok tt)
      → Admitted none s s'
  Admitted-open s s' small
        (taken, given, i, o, (g, t1, g1, t2, g2, et, eg, (ver, methods, e, z, h), (c, z2, w))) =
      (
        g.methods,
        greeted s s' ver methods taken t1 t2 g small i et e h ∙ rw z2,
        c,
        o ∙ ap (λ x. s.sent ++ x) (eg ∙ ap (λ x. x ++ g2) z ∙ w),
      )

  Admitted-challenged :
      (u p : List ℕ) (s s' : Socket)
      → length s.inbox < usize_mod
      → Took {E = E} s (Then Greeted (λ g. Challenged u p g.methods)) (s', ok tt)
      → Admitted (some (u, p)) s s'
  Admitted-challenged u p s s' small
        (taken, given, i, o, (g, t1, g1, t2, g2, et, eg, (ver, methods, e, z, h), (c, z2, w))) =
      (
        g.methods,
        greeted s s' ver methods taken t1 t2 g small i et e h
            ∙ rw (z2, append_assoc u (length p ∷ p) s'.inbox),
        c,
        o ∙ ap (λ x. s.sent ++ x) (eg ∙ ap (λ x. x ++ g2) z ∙ w),
      )

  -- A server that lets a peer in has read a greeting that offers the method that its configuration
  -- asks for, of exactly as many methods as its header says; with configured credentials it has read
  -- exactly them, and without them nothing more. It has answered the method and, after credentials,
  -- their success, and nothing else. Fewer than 2 ^ 64 bytes are waiting.
  pub authenticate-Admitted :
      (auth : Credentials) (s s' : Socket)
      → length s.inbox < usize_mod
      → authenticate failure auth s ≡ (s', ok tt)
      → Admitted auth s s'
  unfolding authenticate
  authenticate-Admitted none s s' small h = Admitted-open s s' small (
      subst (Took s (Then Greeted (λ g. Opened g.methods))) h
        ((Meets-bind read_greeting-Meets opened-Meets).run s))
  authenticate-Admitted (some (u, p)) s s' small h = Admitted-challenged u p s s' small (
      subst (Took s (Then Greeted (λ g. Challenged u p g.methods))) h
        ((Meets-bind read_greeting-Meets (challenged-Meets u p)).run s))
