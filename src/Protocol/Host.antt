-- ===== src/Protocol/Host.antt =====
-- crates/protocol/src/host.rs: destination addresses and their wire form.
pub mod Layout
use Prim.Native.Nat.{bit_and}
use rust_proxy.Base.{
  ℕ, ◌+◌, ◌/◌, ◌%◌, Option, none, some, List, ◌∷◌, [], ◌++◌, leb, if◌then◌else◌, take, drop, length,
  replicate,
}
use rust_proxy.Protocol.Constants.Atyp

-- `std::net::IpAddr`, by its octets
pub data IpAddr : Type 0 where
  v4 : List ℕ → IpAddr
  v6 : List ℕ → IpAddr

pub data Host : Type 0 where
  ip : IpAddr → Host
  domain : List ℕ → Host

pub record SocksAddr : Type 0 where
  pub host : Host
  pub port : ℕ

-- `self.atyp()` and the address part of `self.wire_len()` are a match on the host.
unfoldable pub atyp : Host → ℕ
atyp (ip (v4 _)) = Atyp.ipv4
atyp (ip (v6 _)) = Atyp.ipv6
atyp (domain _) = Atyp.domain

unfoldable pub wire_len : Host → ℕ
wire_len (ip (v4 _)) = 4 + 2
wire_len (ip (v6 _)) = 16 + 2
wire_len (domain name) = 1 + length name + 2

-- `out[pos..pos + n].copy_from_slice(bytes)`, which panics out of range
copy_into : List ℕ → ℕ → List ℕ → Option (List ℕ)
copy_into out pos bytes =
    if leb (pos + length bytes) (length out)
    then some (take pos out ++ (bytes ++ drop (pos + length bytes) out))
    else none

-- `option?`; here `none` is a panic
abbrev and_then : {A B : Type 0} → Option A → (A → Option B) → Option B
and_then none f = none
and_then (some a) f = f a

infixl 5 ◌>>=◌
abbrev ◌>>=◌ : {A B : Type 0} → Option A → (A → Option B) → Option B
m >>= f = and_then m f

-- The match of `write`: the host part, and the position behind it.
write_host : Host → List ℕ → ℕ → Option (List ℕ × ℕ)
unfolding copy_into
write_host (ip (v4 octets)) out pos = do out' ← copy_into out pos octets; some (out', pos + 4)
write_host (ip (v6 octets)) out pos = do out' ← copy_into out pos octets; some (out', pos + 16)
write_host (domain name) out pos = do
  out' ← copy_into out pos (length name % 256 ∷ [])
  out'' ← copy_into out' (pos + 1) name
  some (out'', pos + (1 + length name))

-- The last two assignments of `write`: `port >> 8` and `port & 0xff`, each as a byte.
write_port : ℕ → List ℕ → ℕ → Option (List ℕ)
unfolding copy_into
write_port port out pos = do
  hi ← copy_into out pos (port / 256 % 256 ∷ [])
  copy_into hi (pos + 1) (bit_and port 0xff % 256 ∷ [])

-- The buffer after the call, and the number of bytes written.
unfoldable pub write : SocksAddr → List ℕ → Option (List ℕ × ℕ)
unfolding write_host write_port wire_len
write addr out =
    let written = (do
      (out', pos) ← write_host addr.host out 0
      out'' ← write_port addr.port out' pos
      some (out'', wire_len addr.host)) in
    if leb (wire_len addr.host) (length out) then written else none

unfoldable pub to_vec : SocksAddr → Option (List ℕ)
unfolding write
to_vec addr = do (buf, n) ← write addr (replicate (wire_len addr.host) 0); some buf
