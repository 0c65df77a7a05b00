-- ===== src/Protocol/Reader.antt =====
-- crates/protocol/src/reader.rs: the bounds-checked cursor, and the parsers built on it as actions
-- that stop at the first error, as `?` does.
pub mod Stream
pub mod Incremental
use Prim.Native.Nat.{bit_or}
use rust_proxy.Base.{
  ℕ, ◌+◌, ◌*◌, ◌^◌, Bool, true, false, Option, none, some, List, leb, if◌then◌else◌, ◌-◌, ◌&&◌,
  get_elem?, take, drop, length, Result, ok, err, ok_or,
}
use rust_proxy.Protocol.Error.{ProtocolError, truncated}

pub record Reader : Type 0 where
  pub buf : List ℕ
  pub pos : ℕ

-- `usize` on the 64-bit targets
abbrev pub usize_mod : ℕ
usize_mod = 2 ^ 64

abbrev pub Read {ℓ} : Type ℓ → Type ℓ
Read A = Reader → Result ProtocolError (A × Reader)

-- What follows `?`: the rest on a value, the error at once.
abbrev pub and_then {ℓ κ μ} :
    {S : Type μ} {A : Type ℓ} {B : Type κ}
    → (A → S → Result ProtocolError (B × S))
    → Result ProtocolError (A × S)
    → Result ProtocolError (B × S)
and_then f (ok (a, s)) = f a s
and_then f (err e) = err e

infixl 5 ◌>>=◌ ◌>>◌
abbrev pub ◌>>=◌ {ℓ κ} : {A : Type ℓ} {B : Type κ} → Read A → (A → Read B) → Read B
◌>>=◌ m f r = and_then f (m r)

abbrev pub ◌>>◌ {ℓ} : {B : Type ℓ} → Read (Unit {0}) → Read B → Read B
m >> k = m >>= λ _. k

abbrev pub pure {ℓ} : {A : Type ℓ} → A → Read A
pure a r = ok (a, r)

abbrev pub lift {ℓ} : {A : Type ℓ} → Result ProtocolError A → Read A
lift (ok a) r = ok (a, r)
lift (err e) r = err e

-- `if !test { return Err(e) }`
abbrev pub require : Bool → ProtocolError → Read (Unit {0})
require true e = pure tt
require false e = lift (err e)

unfoldable pub new : List ℕ → Reader
new buf = record { buf = buf; pos = 0 }

-- The value of a parser, without the state that it leaves.
abbrev pub value {ℓ μ} :
    {S : Type μ} {A : Type ℓ} → Result ProtocolError (A × S) → Result ProtocolError A
value (ok (a, rest)) = ok a
value (err e) = err e

-- A `parse` function: the reader is made from the buffer and dropped at the end.
unfoldable pub run {ℓ} : {A : Type ℓ} → Read A → List ℕ → Result ProtocolError A
unfolding new
run m buf = value (m (new buf))

unfoldable pub position : Read ℕ
position r = ok (r.pos, r)

unfoldable pub read_u8 : Read ℕ
read_u8 r = elim (ok_or (get_elem? r.buf r.pos) truncated) [
  | ok byte ↦ ok (byte, record r { pos = r.pos + 1 })
  | err e ↦ err e
]

unfoldable pub read_u16 : Read ℕ
read_u16 = do hi ← read_u8; lo ← read_u8; pure (bit_or (hi * 256) lo)

-- `pos.checked_add(n)`
checked_add : ℕ → ℕ → Option ℕ
checked_add a b = if leb usize_mod (a + b) then none else some (a + b)

-- `buf.get(from..to)`
get_range : List ℕ → ℕ → ℕ → Option (List ℕ)
get_range buf from to =
    if leb from to && leb to (length buf) then some (take (to - from) (drop from buf)) else none

unfoldable pub read_bytes : ℕ → Read (List ℕ)
unfolding checked_add get_range
read_bytes n r = elim (ok_or (checked_add r.pos n) truncated) [
  | err e ↦ err e
  | ok end ↦ elim (ok_or (get_range r.buf r.pos end) truncated) [
    | err e ↦ err e
    | ok slice ↦ ok (slice, record r { pos = end })
  ]
]
