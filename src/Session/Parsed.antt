-- ===== src/Session/Parsed.antt =====
-- A request that was read from a stream, against the parser on a buffer.
use rust_proxy.Base.{
  ℕ, ◌-◌, ◌≤◌, ◌<◌, ◌≡◌, refl, sym, ap, subst, ◌∙◌, Option, none, some, List, [], ◌∷◌, ◌++◌,
  append_assoc, append-nil, take, drop, take-append-drop, length, length-drop, length-append, ◌==◌,
  ok, arith,
}
use rust_proxy.Protocol.Constants.Atyp
use rust_proxy.Protocol.Reader.{usize_mod}
use rust_proxy.Protocol.Request as Request
use rust_proxy.Protocol.Request.{Request, addr_len}
use rust_proxy.Protocol.Request.Prefix.{parse_prefix}
use rust_proxy.Session.{byte_at, parse_request, read_named, read_sized, read_request}
use rust_proxy.Session.Socket.{Socket, Failure}
use rust_proxy.Session.Moves.{Took}
use rust_proxy.Session.Exchange.{
  Spec, Silent, Meets, Meets-reads, Meets-lifts, Meets-pure, Meets-if, Meets-weaken,
}
use rust_proxy.Session.Credentials.{one}

-- The address of a request has at most 258 bytes.
addr_len-le : (code : ℕ) (o : Option ℕ) (n : ℕ) → addr_len code o ≡ ok n → n ≤ 258
unfolding addr_len
addr_len-le code none n h = ground arith
addr_len-le code (some len) n h = ground arith

-- The bytes taken are at most those of a header and an address, and parse to the request.
abbrev pub ReadAs : List ℕ → Spec Request
ReadAs hdr req taken given =
    (n : ℕ) × (Request.parse (hdr ++ taken) ≡ ok (req, n)) × (given ≡ []) × (length taken ≤ 258)

module _ {E : Type 0} (failure : Failure E) where
  parse_request-Meets :
      (full : List ℕ)
      → Meets
          (parse_request failure full)
          (Silent (λ req. (n : ℕ) × (Request.parse full ≡ ok (req, n))))
  parse_request-Meets full =
      Meets-weaken (λ req taken given ((r, n), h, (z, w, e)). (z, w, (n, h ∙ rw e refl)))
        (Meets-lifts (Request.parse full) failure.protocol λ p. Meets-pure p.0)

  read_sized-Meets : (hdr : List ℕ) → Meets (read_sized failure hdr) (ReadAs hdr)
  unfolding read_sized
  read_sized-Meets hdr =
      Meets-weaken
        (λ req taken given (total, h, (buf, rest, e, l, (z, w, (n, p)))).
          (let whole : taken ≡ buf = e ∙ ap (λ x. buf ++ x) z ∙ append-nil buf in
            (
              n,
              rw whole p,
              w,
              omega (arith, ap (length {0} {A = ℕ}) whole, addr_len-le _ _ total h),
            )))
        (Meets-lifts (addr_len (byte_at hdr 3) none) failure.protocol
          λ total. Meets-reads failure total λ buf. parse_request-Meets (hdr ++ buf))

  read_named-Meets : (hdr : List ℕ) → Meets (read_named failure hdr) (ReadAs hdr)
  unfolding read_named
  read_named-Meets hdr =
      Meets-weaken
        (λ req taken given (len, r1, e1, l1, (total, h, (buf, rest, e, l, (z, w, (n, p))))).
          (let whole : taken ≡ byte_at len 0 ∷ buf =
              e1
              ∙ ap (λ x. x ++ r1) (one len l1)
              ∙ ap (λ x. byte_at len 0 ∷ x) (e ∙ ap (λ x. buf ++ x) z ∙ append-nil buf) in
            (
              n,
              rw whole p,
              w,
              omega (arith, ap (length {0} {A = ℕ}) whole, addr_len-le _ _ total h),
            )))
        (Meets-reads failure 1 λ len.
          Meets-lifts (addr_len (byte_at hdr 3) (some (byte_at len 0))) failure.protocol λ total.
            Meets-reads failure (total - 1)
              λ buf. parse_request-Meets (hdr ++ (byte_at len 0 ∷ buf)))

  read_request-Meets : Meets (read_request failure) (λ req taken given.
      (n : ℕ) × (Request.parse taken ≡ ok (req, n)) × (given ≡ []) × (length taken ≤ 262))
  unfolding read_request
  read_request-Meets =
      Meets-weaken
        (λ req taken given (hdr, rest, e, l, (n, p, w, le)).
          (n, rw e p, w, omega (arith, ap (length {0} {A = ℕ}) e, length-append hdr rest)))
        (Meets-reads failure 4 λ hdr.
          Meets-if (byte_at hdr 3 == Atyp.domain) (λ e. read_named-Meets hdr)
            (λ e. read_sized-Meets hdr))

  -- Whatever the stream does: a request that is read is the one that the bytes waiting parse to, at
  -- most 262 bytes of them are taken, not fewer than the parser counts, and nothing is sent. Fewer
  -- than 2 ^ 64 bytes are waiting.
  pub read_request_sound :
      (s s' : Socket) (req : Request)
      → length s.inbox < usize_mod
      → read_request failure s ≡ (s', ok req)
      → (taken : List ℕ) × (n : ℕ) × (s.inbox ≡ taken ++ s'.inbox)
        × (Request.parse s.inbox ≡ ok (req, n))
        × (n ≤ length taken)
        × (length taken ≤ 262)
        × (s'.sent ≡ s.sent)
  read_request_sound s s' req small h =
      let (taken, given, i, o, (n, p, w, le)) = subst (Took s _) h (read_request-Meets.run s) in
      let size = ap (length {0} {A = ℕ}) i ∙ length-append taken s'.inbox in
      let (fits, any, short) = parse_prefix taken req n (omega arith) p in
      let split : s.inbox ≡ take n taken ++ (drop n taken ++ s'.inbox) =
        i
        ∙ ap (λ x. x ++ s'.inbox) (sym (take-append-drop n taken))
        ∙ append_assoc (take n taken) (drop n taken) s'.inbox in
      (
        taken,
        n,
        i,
        rw split (
            any (drop n taken ++ s'.inbox)
              (omega (arith, length-append (drop n taken) s'.inbox, length-drop n taken))),
        fits,
        le,
        o ∙ ap (λ x. s.sent ++ x) w ∙ append-nil s.sent,
      )
