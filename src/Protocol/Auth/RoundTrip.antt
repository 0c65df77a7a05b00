-- ===== src/Protocol/Auth/RoundTrip.antt =====
-- Credentials on the wire and back.
use rust_proxy.Base.{
  ℕ, ◌+◌, ◌%◌, ◌≤◌, ◌<◌, ◌≡◌, ap, ◌∙◌, true, not, ◌||◌, List, ◌∷◌, ◌++◌, ◌==◌, ltb, length, ok,
  ok_or, arith, length-append, append_assoc,
}
use rust_proxy.Base.Utf8.{is_utf8, from_utf8}
use rust_proxy.Protocol.Constants.{auth_version}
use rust_proxy.Protocol.Error.{bad_version, invalid_credential_length}
use rust_proxy.Protocol.Reader.{usize_mod, value}
use rust_proxy.Protocol.Reader.Stream.{
  Parser, bind, byte, bytes, check, raise, give, Agrees, run_lem, Agrees-bind, Agrees-lift,
  Agrees-pure, Agrees-require, Agrees-read_u8, Agrees-read_bytes,
}
use rust_proxy.Protocol.Reader.Incremental.{bytes_fit}
use rust_proxy.Protocol.Auth.{
  UsernamePassword, max_username_len, max_password_len, parse_credentials, parse, wire_len, to_vec,
}

abbrev grammar : Parser UsernamePassword
grammar = bind byte λ ver. bind (check (ver == auth_version) (bad_version ver)) λ _.
    bind byte λ ulen.
      bind (check (not (ulen == 0 || ltb max_username_len ulen)) invalid_credential_length) λ _.
        bind (bytes ulen) λ name. bind byte λ plen.
          bind (check (not (ltb max_password_len plen)) invalid_credential_length) λ _.
            bind (bytes plen) λ word.
              bind (raise (ok_or (from_utf8 name) invalid_credential_length)) λ username.
                bind (raise (ok_or (from_utf8 word) invalid_credential_length))
                  λ password. give (record { username = username; password = password })

Agrees-parse_credentials : {buf : List ℕ} → Agrees buf parse_credentials grammar
unfolding parse_credentials
Agrees-parse_credentials = Agrees-bind Agrees-read_u8 λ ver. Agrees-bind (Agrees-require _ _) λ _.
    Agrees-bind Agrees-read_u8 λ ulen. Agrees-bind (Agrees-require _ _) λ _.
      Agrees-bind (Agrees-read_bytes ulen) λ name. Agrees-bind Agrees-read_u8 λ plen.
        Agrees-bind (Agrees-require _ _) λ _. Agrees-bind (Agrees-read_bytes plen) λ word.
          Agrees-bind (Agrees-lift (ok_or (from_utf8 name) invalid_credential_length)) λ username.
            Agrees-bind (Agrees-lift (ok_or (from_utf8 word) invalid_credential_length))
              λ password. Agrees-pure (record { username = username; password = password })

-- The lengths that RFC 1929 gives room for, and what a Rust string guarantees.
pub record IsSendable (c : UsernamePassword) : Type 0 where
  pub named : 1 ≤ length c.username
  pub name_fits : length c.username ≤ 255
  pub word_fits : length c.password ≤ 255
  pub name_utf8 : is_utf8 c.username ≡ true
  pub word_utf8 : is_utf8 c.password ≡ true

from_utf8_lem :
    (s : List ℕ) → is_utf8 s ≡ true → ok_or (from_utf8 s) invalid_credential_length ≡ ok s
unfolding from_utf8
from_utf8_lem s h = rw h

grammar_fields :
    (ulen plen : ℕ) (c : UsernamePassword) (rest : List ℕ)
    → length c.username ≡ ulen
    → length c.password ≡ plen
    → IsSendable c
    → grammar (auth_version ∷ ulen ∷ (c.username ++ (plen ∷ (c.password ++ rest)))) ≡ ok (c, rest)
grammar_fields ulen plen c rest e e' s =
    let fits : not (ulen == 0 || ltb 255 ulen) ≡ true = ground (arith, s.named, s.name_fits) in
    let fits' : not (ltb 255 plen) ≡ true = ground (arith, s.word_fits) in
    rw (fits, bytes_fit ulen c.username (plen ∷ (c.password ++ rest)) e)
      (rw (
        fits',
        bytes_fit plen c.password rest e',
        from_utf8_lem c.username s.name_utf8,
        from_utf8_lem c.password s.word_utf8,
      ))

-- Credentials of the lengths that RFC 1929 allows come back from their frame, whatever follows it,
-- and the frame has the length that `wire_len` promises.
pub credentials_round_trip :
    (c : UsernamePassword) (rest : List ℕ)
    → IsSendable c
    → 513 + length rest < usize_mod
    → (parse (to_vec c ++ rest) ≡ ok c) × (length (to_vec c) ≡ wire_len c)
unfolding parse to_vec wire_len
credentials_round_trip c rest s small = (
  run_lem (to_vec c ++ rest)
        (omega (
          arith,
          length-append (c.username ++ (length c.password % 256 ∷ c.password)) rest,
          length-append c.username (length c.password % 256 ∷ c.password),
        ))
        Agrees-parse_credentials
      ∙ rw (append_assoc c.username (length c.password % 256 ∷ c.password) rest) (
          ap value (
            grammar_fields (length c.username % 256) (length c.password % 256) c rest (omega arith)
              (omega arith) s)),
  omega (arith, length-append c.username (length c.password % 256 ∷ c.password)),
)
