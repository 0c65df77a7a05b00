-- ===== src/Protocol/Request/Prefix.antt =====
-- `Request::parse` on a frame with something behind it, and on a part of a frame.
use rust_proxy.Base.{
  ℕ, ◌+◌, ◌-◌, ◌≤◌, ◌<◌, ◌≡◌, ap, sym, ◌∙◌, List, ◌++◌, length, take, ok, err, arith, ◌==◌,
  length-append, length-take, take-append,
}
use rust_proxy.Protocol.Constants.Atyp
use rust_proxy.Protocol.Error.{truncated, unsupported}
use rust_proxy.Protocol.Reader.{usize_mod}
use rust_proxy.Protocol.Reader.Stream.{counted-eq-ok}
use rust_proxy.Protocol.Reader.Incremental.{
  Taken, IsIncremental, take-append_le, bind-IsIncremental, give-IsIncremental, raise-IsIncremental,
  if-IsIncremental, check-IsIncremental, byte-IsIncremental, bytes-IsIncremental,
  word-IsIncremental,
}
use rust_proxy.Protocol.Request.{Request, parse}
use rust_proxy.Protocol.Request.Frame.{
  name_grammar, host_grammar, frame_grammar, parse-frame_grammar,
}

name_grammar-IsIncremental : IsIncremental name_grammar
name_grammar-IsIncremental = bind-IsIncremental byte-IsIncremental λ len.
    bind-IsIncremental (check-IsIncremental _ _) λ _.
      bind-IsIncremental (bytes-IsIncremental len)
        λ name. bind-IsIncremental (raise-IsIncremental _) λ text. give-IsIncremental _

host_grammar-IsIncremental : (code : ℕ) → IsIncremental (host_grammar code)
host_grammar-IsIncremental code =
    if-IsIncremental (code == Atyp.ipv4)
      (bind-IsIncremental (bytes-IsIncremental 4) (λ b. give-IsIncremental _))
      (if-IsIncremental (code == Atyp.ipv6)
        (bind-IsIncremental (bytes-IsIncremental 16) (λ b. give-IsIncremental _))
        (if-IsIncremental (code == Atyp.domain) name_grammar-IsIncremental
          (raise-IsIncremental (err (unsupported code)))))

frame_grammar-IsIncremental : IsIncremental frame_grammar
frame_grammar-IsIncremental = bind-IsIncremental byte-IsIncremental λ ver.
    bind-IsIncremental (check-IsIncremental _ _) λ _. bind-IsIncremental byte-IsIncremental λ cmd.
      bind-IsIncremental (raise-IsIncremental _) λ command.
        bind-IsIncremental byte-IsIncremental λ rsv. bind-IsIncremental byte-IsIncremental λ code.
          bind-IsIncremental (host_grammar-IsIncremental code)
            λ host. bind-IsIncremental word-IsIncremental λ port. give-IsIncremental _

-- What `parse` returned came from the grammar: the bytes taken are a frame by themselves.
pub parse-Taken :
    (buf : List ℕ) (req : Request) (n : ℕ)
    → length buf < usize_mod
    → parse buf ≡ ok (req, n)
    → (ys : List ℕ) × (t : Taken frame_grammar req buf ys) × (n ≡ length t.used)
parse-Taken buf req n small h =
    let (ys, e, e') =
      counted-eq-ok (length buf) frame_grammar buf req n
        (sym (parse-frame_grammar buf small) ∙ h) in
    let t = frame_grammar-IsIncremental.taken buf ys req e in
    (ys, t, omega (arith, e', ap (length {0} {A = ℕ}) t.split, length-append t.used ys))

module _ (req : Request) (buf ys : List ℕ) (t : Taken frame_grammar req buf ys) where
  taken_any :
      (zs : List ℕ)
      → length t.used + length zs < usize_mod
      → parse (t.used ++ zs) ≡ ok (req, length t.used)
  taken_any zs lt =
      let e : length (t.used ++ zs) - length zs ≡ length t.used =
        omega (arith, length-append t.used zs) in
      rw (
        parse-frame_grammar (t.used ++ zs) (omega (arith, length-append t.used zs)),
        t.rest_free zs,
        e,
      )

  taken_part :
      (k : ℕ)
      → k < length t.used
      → length t.used < usize_mod
      → parse (take k t.used) ≡ err truncated
  taken_part k lt small =
      rw (parse-frame_grammar (take k t.used) (omega (arith, length-take k t.used)), t.waits k lt)

-- A buffer that parses with `n` bytes taken has those bytes; they parse to the same request with any
-- bytes behind them, and any shorter part of them is reported as truncated.
pub parse_prefix :
    (buf : List ℕ) (req : Request) (n : ℕ)
    → length buf < usize_mod
    → parse buf ≡ ok (req, n)
    → (n ≤ length buf)
      × ((zs : List ℕ) → n + length zs < usize_mod → parse (take n buf ++ zs) ≡ ok (req, n))
      × ((k : ℕ) → k < n → parse (take k buf) ≡ err truncated)
parse_prefix buf req n small h =
    let (ys, t, e) = parse-Taken buf req n small h in
    let full : length buf ≡ length t.used + length ys =
      ap (length {0} {A = ℕ}) t.split ∙ length-append t.used ys in
    (
      omega (arith, e),
      λ zs lt.
          rw (t.split, e, take-append t.used ys) (taken_any req buf ys t zs (omega (arith, e))),
      λ k lt.
          rw (t.split, take-append_le k t.used ys (omega (arith, e)))
            (taken_part req buf ys t k (omega (arith, e)) (omega (arith, e))),
    )
