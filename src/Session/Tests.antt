-- ===== src/Session/Tests.antt =====
-- A concrete peer, and the theorems of the sessions at it.
use rust_proxy.Base.{ℕ, ◌≤◌, length, ◌≡◌, refl, some, List, [], ◌∷◌, ◌++◌, All, ok, arith}
use rust_proxy.Base.Utf8.{is_utf8, from_utf8}
use rust_proxy.Protocol.Reader.{read_u8, read_u16, read_bytes, position, new, run}
use rust_proxy.Protocol.Handshake.{contains}
use rust_proxy.Protocol.Host.{domain}
use rust_proxy.Protocol.Host.Layout.{IsByte}
use rust_proxy.Protocol.Command.{connect, from_u8}
use rust_proxy.Protocol.Request as Request
use rust_proxy.Protocol.Request.{Request}
use rust_proxy.Session.{Credentials, read_request}
use rust_proxy.Session.Socket.{Failure}
use rust_proxy.Session.Moves.{clear}
use rust_proxy.Session.Complete.{entry, IsEntry, authenticate-clear}
use rust_proxy.Session.Admission.{Admitted, authenticate-Admitted}
use rust_proxy.Session.Stream.{read_request-parse}
use rust_proxy.Session.Parsed.{read_request_sound}

-- Errors, by number.
abbrev failure : Failure ℕ
failure = record { protocol = 0; timeout = 1; io = 2 }

-- User `u` with the password `p`.
abbrev login : Credentials
login = some (0x75 ∷ [], 0x70 ∷ [])

login-IsEntry : IsEntry login (0 ∷ 2 ∷ [])
unfolding is_utf8 contains
login-IsEntry = (omega arith, omega arith, refl, omega arith, omega arith, refl, refl)

authenticate-Admitted_example :
    Admitted login
      (clear (entry login (0 ∷ 2 ∷ []) ++ (7 ∷ 8 ∷ [])) [])
      (clear (7 ∷ 8 ∷ []) (5 ∷ 2 ∷ 1 ∷ 0 ∷ []))
authenticate-Admitted_example =
    authenticate-Admitted failure login (clear (entry login (0 ∷ 2 ∷ []) ++ (7 ∷ 8 ∷ [])) [])
      (clear (7 ∷ 8 ∷ []) (5 ∷ 2 ∷ 1 ∷ 0 ∷ [])) (omega arith)
      (authenticate-clear failure login (0 ∷ 2 ∷ []) (7 ∷ 8 ∷ []) [] login-IsEntry)

-- A CONNECT to `ab:443`, and two bytes behind it.
abbrev request : Request
request = record {
  command = connect;
  addr = record { host = domain (0x61 ∷ 0x62 ∷ []); port = 443 };
}

abbrev request_bytes : List ℕ
request_bytes = 5 ∷ 1 ∷ 0 ∷ 3 ∷ 2 ∷ 0x61 ∷ 0x62 ∷ 1 ∷ 187 ∷ 7 ∷ 8 ∷ []

parsed : Request.parse request_bytes ≡ ok (request, 9)
unfolding Request.parse Request.parse_frame Request.parse_host run read_u8 read_u16 read_bytes
    position new from_u8 is_utf8 from_utf8
parsed = refl

request_bytes_small : All IsByte request_bytes
request_bytes_small = (
  omega arith,
  (
    omega arith,
    (
      omega arith,
      (
        omega arith,
        (
          omega arith,
          (
            omega arith,
            (omega arith, (omega arith, (omega arith, (omega arith, (omega arith, tt))))),
          ),
        ),
      ),
    ),
  ),
)

read_request-parse_example :
    read_request failure (clear request_bytes []) ≡ (clear (7 ∷ 8 ∷ []) [], ok request)
read_request-parse_example =
    read_request-parse failure request_bytes [] request 9 request_bytes_small (omega arith) parsed

read_request_sound_example :
    (taken : List ℕ) × (n : ℕ) × (request_bytes ≡ taken ++ (7 ∷ 8 ∷ []))
    × (Request.parse request_bytes ≡ ok (request, n))
    × (n ≤ length taken)
    × (length taken ≤ 262)
    × ((clear (7 ∷ 8 ∷ []) []).sent ≡ [])
read_request_sound_example =
    read_request_sound failure (clear request_bytes []) (clear (7 ∷ 8 ∷ []) []) request
      (omega arith)
      (read_request-parse failure request_bytes [] request 9 request_bytes_small (omega arith)
        parsed)
