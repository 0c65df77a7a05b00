-- ===== src/Session/Stream.antt =====
-- A request that is in a buffer, read from a stream in pieces.
use rust_proxy.Base.{
  ℕ, ◌+◌, ◌<◌, ◌%◌, ◌≤◌, ◌≡◌, refl, sym, ap, subst, ◌∙◌, some, List, [], ◌∷◌, ◌++◌, append-nil,
  length, ok, arith, length-append, drop, ◌-◌, All, take-append-drop,
}
use rust_proxy.Protocol.Constants.{version}
use rust_proxy.Protocol.Constants.Atyp
use rust_proxy.Protocol.Reader.{usize_mod}
use rust_proxy.Protocol.Command.{Command, to_u8}
use rust_proxy.Protocol.Host.{Host, IpAddr, ip, v4, v6, domain, atyp}
use rust_proxy.Protocol.Host.Layout.{IsByte, layout, port_field}
use rust_proxy.Protocol.Request as Request
use rust_proxy.Protocol.Request.{Request, addr_len}
use rust_proxy.Protocol.Request.RoundTrip.{IsSendable, frame, parse-frame}
use rust_proxy.Protocol.Request.Sound.{parse_sound}
use rust_proxy.Session.Socket.{Socket, Failure}
use rust_proxy.Session.Moves.{clear, read-clear}
use rust_proxy.Session.{parse_request, read_named, read_sized, read_request}

abbrev head : ℕ → Request → List ℕ
head rsv req = version ∷ to_u8 req.command ∷ rsv ∷ atyp req.addr.host ∷ []

abbrev ask : Command → Host → ℕ → Request
ask c h port = record { command = c; addr = record { host = h; port = port } }

module _ {E : Type 0} (failure : Failure E) where
  parse_request-frame :
      (rsv : ℕ) (req : Request) (s : Socket)
      → IsSendable req.addr
      → length (frame rsv req) < usize_mod
      → parse_request failure (frame rsv req) s ≡ (s, ok req)
  parse_request-frame rsv req s send small =
      let e =
        subst (λ z. Request.parse z ≡ ok (req, length (frame rsv req))) (append-nil (frame rsv req))
          (parse-frame rsv req [] send (omega (arith, length-append (frame rsv req) []))) in
      rw e

  -- The two branches, after the header.
  read_sized-frame :
      (rsv : ℕ) (c : Command) (a : IpAddr) (port : ℕ) (rest sent : List ℕ)
      → IsSendable (record { host = ip a; port = port })
      → let req : Request = ask c (ip a) port in
        read_sized failure (head rsv req) (clear (layout req.addr ++ rest) sent)
        ≡ (clear rest sent, ok req)
  unfolding read_sized atyp addr_len
  read_sized-frame rsv c (v4 octets) port rest sent send =
      let req : Request = ask c (ip (v4 octets)) port in
      let total : length (layout req.addr) ≡ 6 =
        omega (arith, send.typed.0, length-append octets (port_field port)) in
      rw (read-clear failure 6 (layout req.addr) rest sent total)
        (parse_request-frame rsv req (clear rest sent) send (omega (arith, total)))
  read_sized-frame rsv c (v6 octets) port rest sent send =
      let req : Request = ask c (ip (v6 octets)) port in
      let total : length (layout req.addr) ≡ 18 =
        omega (arith, send.typed.0, length-append octets (port_field port)) in
      rw (read-clear failure 18 (layout req.addr) rest sent total)
        (parse_request-frame rsv req (clear rest sent) send (omega (arith, total)))

  addr_len-domain :
      (n : ℕ) → 1 ≤ n → n ≤ 255 → addr_len Atyp.domain (some (n % 256)) ≡ ok (1 + n + 2)
  unfolding addr_len
  addr_len-domain n lo hi = ground arith

  read_named-frame :
      (rsv : ℕ) (c : Command) (name : List ℕ) (port : ℕ) (rest sent : List ℕ)
      → IsSendable (record { host = domain name; port = port })
      → let req : Request = ask c (domain name) port in
        read_named failure (head rsv req) (clear (layout req.addr ++ rest) sent)
        ≡ (clear rest sent, ok req)
  unfolding read_named atyp
  read_named-frame rsv c name port rest sent send =
      let req : Request = ask c (domain name) port in
      rw
        (read-clear failure 1 (length name % 256 ∷ []) ((name ++ port_field port) ++ rest) sent
          refl)
        (rw (addr_len-domain (length name) send.encodable.0 send.encodable.1) (
          rw
            (read-clear failure (1 + length name + 2 - 1) (name ++ port_field port) rest sent
              (omega (arith, length-append name (port_field port))))
            (parse_request-frame rsv req (clear rest sent) send
              (omega (arith, send.encodable.1, length-append name (port_field port))))))

  read_host :
      (rsv : ℕ) (c : Command) (h : Host) (port : ℕ) (rest sent : List ℕ)
      → IsSendable (record { host = h; port = port })
      → let req : Request = ask c h port in
        read_request failure (clear (frame rsv req ++ rest) sent) ≡ (clear rest sent, ok req)
  unfolding read_request atyp
  read_host rsv c (ip (v4 octets)) port rest sent send =
      rw
        (read-clear failure 4 (version ∷ to_u8 c ∷ rsv ∷ Atyp.ipv4 ∷ [])
          ((octets ++ port_field port) ++ rest) sent refl)
        (read_sized-frame rsv c (v4 octets) port rest sent send)
  read_host rsv c (ip (v6 octets)) port rest sent send =
      rw
        (read-clear failure 4 (version ∷ to_u8 c ∷ rsv ∷ Atyp.ipv6 ∷ [])
          ((octets ++ port_field port) ++ rest) sent refl)
        (read_sized-frame rsv c (v6 octets) port rest sent send)
  read_host rsv c (domain name) port rest sent send =
      rw
        (read-clear failure 4 (version ∷ to_u8 c ∷ rsv ∷ Atyp.domain ∷ [])
          (layout (record { host = domain name; port = port }) ++ rest) sent refl)
        (read_named-frame rsv c name port rest sent send)

  -- The frame of a request that can be sent is read from a stream without faults, and no byte more.
  pub read_request-frame :
      (rsv : ℕ) (req : Request) (rest sent : List ℕ)
      → IsSendable req.addr
      → read_request failure (clear (frame rsv req ++ rest) sent) ≡ (clear rest sent, ok req)
  read_request-frame rsv req rest sent send =
      read_host rsv req.command req.addr.host req.addr.port rest sent send

  -- Reading a request from a stream without faults and parsing it from a buffer agree: a buffer of
  -- bytes that `Request::parse` accepts is read as the same request, in as many bytes.
  pub read_request-parse :
      (buf sent : List ℕ) (req : Request) (n : ℕ)
      → All IsByte buf
      → length buf < usize_mod
      → Request.parse buf ≡ ok (req, n)
      → read_request failure (clear buf sent) ≡ (clear (drop n buf) sent, ok req)
  read_request-parse buf sent req n all small h =
      let (rsv, e, send) = parse_sound buf req n all small h in
      subst (λ z. read_request failure (clear z sent) ≡ (clear (drop n buf) sent, ok req))
        (ap (λ z. z ++ drop n buf) (sym e) ∙ take-append-drop n buf)
        (read_request-frame rsv req (drop n buf) sent send)
