-- ===== src/Protocol/Request/Frame.antt =====
-- A request as a grammar over a list of bytes, and the agreement of `parse` with it.
use rust_proxy.Base.{ℕ, ◌<◌, ◌≡◌, ◌||◌, not, List, ◌==◌, ltb, if◌then◌else◌, length, err, ok_or}
use rust_proxy.Base.Utf8.{from_utf8}
use rust_proxy.Protocol.Constants.{version}
use rust_proxy.Protocol.Constants.Atyp
use rust_proxy.Protocol.Command.{from_u8}
use rust_proxy.Protocol.Error.{bad_version, unsupported}
use rust_proxy.Protocol.Host.{Host, ip, domain, v4, v6}
use rust_proxy.Protocol.Reader.{usize_mod, value}
use rust_proxy.Protocol.Reader.Stream.{
  Parser, bind, byte, bytes, word, give, raise, check, Agrees, run_lem, counted, Counts,
  Counts-bind, Counts-end, Agrees-bind, Agrees-if, Agrees-pure, Agrees-lift, Agrees-require,
  Agrees-read_u8, Agrees-read_u16, Agrees-read_bytes,
}
use rust_proxy.Protocol.Request.{Request, parse_host, parse_frame, parse}

abbrev pub name_grammar : Parser Host
name_grammar = bind byte λ len.
    bind (check (not (len == 0 || ltb 255 len)) (unsupported Atyp.domain)) λ _.
      bind (bytes len) λ name.
        bind (raise (ok_or (from_utf8 name) (unsupported Atyp.domain))) λ text. give (domain text)

abbrev pub host_grammar : ℕ → Parser Host
host_grammar code =
    if code == Atyp.ipv4
    then bind (bytes 4) (λ b. give (ip (v4 b)))
    else if code == Atyp.ipv6
    then bind (bytes 16) (λ b. give (ip (v6 b)))
    else if code == Atyp.domain
    then name_grammar
    else raise (err (unsupported code))

abbrev pub frame_grammar : Parser Request
frame_grammar = bind byte λ ver. bind (check (ver == version) (bad_version ver)) λ _.
    bind byte λ cmd. bind (raise (from_u8 cmd)) λ command. bind byte λ rsv. bind byte λ code.
      bind (host_grammar code) λ host.
        bind word
          λ port. give (record { command = command; addr = record { host = host; port = port } })

Agrees-parse_host : {buf : List ℕ} (code : ℕ) → Agrees buf (parse_host code) (host_grammar code)
unfolding parse_host
Agrees-parse_host code =
    Agrees-if (code == Atyp.ipv4) (Agrees-bind (Agrees-read_bytes 4) (λ b. Agrees-pure _)) (
      Agrees-if (code == Atyp.ipv6) (Agrees-bind (Agrees-read_bytes 16) (λ b. Agrees-pure _)) (
        Agrees-if (code == Atyp.domain)
          (Agrees-bind Agrees-read_u8 λ len. Agrees-bind (Agrees-require _ _) λ _.
            Agrees-bind (Agrees-read_bytes len)
              λ name. Agrees-bind (Agrees-lift _) λ text. Agrees-pure _)
          (Agrees-lift (err (unsupported code)))))

Counts-parse_frame : {buf : List ℕ} → Counts buf parse_frame frame_grammar
unfolding parse_frame
Counts-parse_frame = Counts-bind Agrees-read_u8 λ ver. Counts-bind (Agrees-require _ _) λ _.
    Counts-bind Agrees-read_u8 λ cmd. Counts-bind (Agrees-lift _) λ command.
      Counts-bind Agrees-read_u8 λ rsv. Counts-bind Agrees-read_u8 λ code.
        Counts-bind (Agrees-parse_host code)
          λ host. Counts-bind Agrees-read_u16 λ port. Counts-end _

-- Parsing is what the grammar says, at every buffer.
pub parse-frame_grammar :
    (buf : List ℕ)
    → length buf < usize_mod
    → parse buf ≡ value (counted (length buf) frame_grammar buf)
unfolding parse
parse-frame_grammar buf small = run_lem buf small Counts-parse_frame.agrees
