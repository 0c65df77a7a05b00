-- ===== src/Protocol/Tests.antt =====
-- Concrete messages, and the theorems of crates/protocol at them.
use rust_proxy.Base.{
  ℕ, ◌+◌, ◌<◌, ◌≤◌, ◌≡◌, ◌≢◌, refl, true, some, List, [], ◌∷◌, ◌++◌, length, take, drop, replicate,
  All, ok, err, arith,
}
use rust_proxy.Base.Utf8.{is_utf8, from_utf8}
use rust_proxy.Protocol.Constants.Method
use rust_proxy.Protocol.Error.{truncated}
use rust_proxy.Protocol.Reader.{usize_mod, run, read_u8, read_u16, read_bytes, position, new}
use rust_proxy.Protocol.Host.{SocksAddr, ip, v4, domain, write, wire_len}
use rust_proxy.Protocol.Host.Layout.{layout, IsByte, write_lem}
use rust_proxy.Protocol.Command.{connect, from_u8}
use rust_proxy.Protocol.Request as Request
use rust_proxy.Protocol.Request.RoundTrip as RoundTrip
use rust_proxy.Protocol.Request.RoundTrip.{frame, request_round_trip}
use rust_proxy.Protocol.Request.Prefix.{parse_prefix}
use rust_proxy.Protocol.Request.Sound.{parse_sound}
use rust_proxy.Protocol.Reply as Reply
use rust_proxy.Protocol.Reply.RoundTrip as ReplyTrip
use rust_proxy.Protocol.Reply.RoundTrip.{reply_round_trip}
use rust_proxy.Protocol.Auth as Auth
use rust_proxy.Protocol.Auth.RoundTrip as AuthTrip
use rust_proxy.Protocol.Auth.RoundTrip.{credentials_round_trip}
use rust_proxy.Protocol.Handshake as Handshake
use rust_proxy.Protocol.Handshake.{contains, negotiate, frame_len}
use rust_proxy.Protocol.Handshake.Parse.{greeting_round_trip}
use rust_proxy.Protocol.Handshake.Negotiate.{permitted, negotiate_sound}

-- `ab:443`
abbrev address : SocksAddr
address = record { host = domain (0x61 ∷ 0x62 ∷ []); port = 443 }

abbrev request : Request.Request
request = record { command = connect; addr = address }

abbrev request_bytes : List ℕ
request_bytes = 5 ∷ 1 ∷ 0 ∷ 3 ∷ 2 ∷ 0x61 ∷ 0x62 ∷ 1 ∷ 187 ∷ []

parsed : Request.parse request_bytes ≡ ok (request, 9)
unfolding Request.parse Request.parse_frame Request.parse_host run read_u8 read_u16 read_bytes
    position new from_u8 is_utf8 from_utf8
parsed = refl

bytes_small : All IsByte request_bytes
bytes_small = (
  omega arith,
  (
    omega arith,
    (
      omega arith,
      (omega arith, (omega arith, (omega arith, (omega arith, (omega arith, (omega arith, tt)))))),
    ),
  ),
)

request_ok : RoundTrip.IsSendable address
unfolding is_utf8
request_ok = record {
  typed = (refl, (omega arith, (omega arith, tt)));
  encodable = (omega arith, omega arith);
  port_fits = omega arith;
}

parse_sound_example :
    (rsv : ℕ) × (take 9 request_bytes ≡ frame rsv request) × RoundTrip.IsSendable address
parse_sound_example = parse_sound request_bytes request 9 bytes_small (omega arith) parsed

request_round_trip_example :
    (buf : List ℕ) × (Request.to_bytes request ≡ some buf)
    × (Request.parse (buf ++ (7 ∷ [])) ≡ ok (request, length buf))
request_round_trip_example = request_round_trip request (7 ∷ []) request_ok (omega arith)

parse_prefix_example :
    (9 ≤ length request_bytes)
    × ((zs : List ℕ)
        → 9 + length zs < usize_mod
        → Request.parse (take 9 request_bytes ++ zs) ≡ ok (request, 9))
    × ((k : ℕ) → k < 9 → Request.parse (take k request_bytes) ≡ err truncated)
parse_prefix_example = parse_prefix request_bytes request 9 (omega arith) parsed

abbrev reply : Reply.Reply
reply = record {
  code = 0;
  bind_addr = record { host = ip (v4 (10 ∷ 0 ∷ 0 ∷ 1 ∷ [])); port = 8080 };
}

reply_ok : ReplyTrip.IsSendable reply.bind_addr
reply_ok = record {
  typed = (refl, (omega arith, (omega arith, (omega arith, (omega arith, tt)))));
  encodable = tt;
  port_fits = omega arith;
}

reply_round_trip_example :
    (buf : List ℕ) × (Reply.to_bytes reply ≡ some buf) × (Reply.parse (buf ++ []) ≡ ok reply)
reply_round_trip_example = reply_round_trip reply [] reply_ok (omega arith)

abbrev credentials : Auth.UsernamePassword
credentials = record { username = 0x75 ∷ []; password = 0x70 ∷ 0x77 ∷ [] }

credentials_ok : AuthTrip.IsSendable credentials
unfolding is_utf8
credentials_ok = record {
  named = omega arith;
  name_fits = omega arith;
  word_fits = omega arith;
  name_utf8 = refl;
  word_utf8 = refl;
}

credentials_round_trip_example :
    (Auth.parse (Auth.to_vec credentials ++ (1 ∷ [])) ≡ ok credentials)
    × (length (Auth.to_vec credentials) ≡ Auth.wire_len credentials)
credentials_round_trip_example =
    credentials_round_trip credentials (1 ∷ []) credentials_ok (omega arith)

greeting_round_trip_example :
    (Handshake.parse (5 ∷ 2 ∷ 0 ∷ 2 ∷ 9 ∷ []) ≡ ok (record { methods = 0 ∷ 2 ∷ [] }))
    × (frame_len (5 ∷ 2 ∷ 0 ∷ 2 ∷ 9 ∷ []) ≡ ok 4)
greeting_round_trip_example =
    greeting_round_trip (0 ∷ 2 ∷ []) (9 ∷ []) (omega arith) (omega arith) (omega arith)

abbrev greeting : Handshake.Greeting
greeting = record { methods = 0 ∷ 2 ∷ [] }

negotiate_sound_example :
    ((negotiate greeting true true).method ≢ Method.no_acceptable
      → (contains (0 ∷ 2 ∷ []) (negotiate greeting true true).method ≡ true)
        × (permitted true true (negotiate greeting true true).method ≡ true))
    × ((k : ℕ)
        → contains (0 ∷ 2 ∷ []) k ≡ true
        → permitted true true k ≡ true
        → ((negotiate greeting true true).method ≢ Method.no_acceptable)
          × ((negotiate greeting true true).method ≤ k))
negotiate_sound_example = negotiate_sound greeting true true

write_lem_example :
    write address (replicate 6 9)
    ≡ some (layout address ++ drop (wire_len address.host) (replicate 6 9), wire_len address.host)
unfolding wire_len
write_lem_example = write_lem address (replicate 6 9) request_ok.typed (omega arith) (omega arith)
