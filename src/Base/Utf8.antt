-- ===== src/Base/Utf8.antt =====
-- UTF-8 as the standard library checks it in `String::from_utf8` (Unicode, table 3-7). A Rust
-- string is the list of its bytes; `is_utf8` is the invariant that its type carries.
use Prim.Native.Nat.{ℕ, zero, suc}
use mathlib.Core.Path.{◌≡◌, refl}
use mathlib.Core.Bool.{Bool, true, false, ◌&&◌}
use mathlib.Core.Option.{Option, none, some}
use mathlib.Core.List.{List, [], ◌∷◌}
use rust_proxy.Base.Tests.{ltb, leb, ◌==◌, if◌then◌else◌}

-- Between characters, or inside one: the range of the next byte and how many follow it.
pub data State : Type 0 where
  between : State
  inside : ℕ → ℕ → ℕ → State

lead : ℕ → Option State
lead b =
    if ltb b 0x80
    then some between
    else if ltb b 0xC2
    then none
    else if ltb b 0xE0
    then some (inside 0x80 0xBF 0)
    else if b == 0xE0
    then some (inside 0xA0 0xBF 1)
    else if b == 0xED
    then some (inside 0x80 0x9F 1)
    else if ltb b 0xF0
    then some (inside 0x80 0xBF 1)
    else if b == 0xF0
    then some (inside 0x90 0xBF 2)
    else if ltb b 0xF4
    then some (inside 0x80 0xBF 2)
    else if b == 0xF4
    then some (inside 0x80 0x8F 2)
    else none

continues : ℕ → State
continues zero = between
continues (suc n) = inside 0x80 0xBF n

next : State → ℕ → Option State
unfolding lead continues
next between b = lead b
next (inside lo hi n) b = if leb lo b && leb b hi then some (continues n) else none

accepts : State → List ℕ → Bool
accepts between [] = true
accepts (inside lo hi n) [] = false
accepts s (b ∷ bs) = elim (next s b) [ none ↦ false | some t ↦ accepts t bs ]

unfoldable pub is_utf8 : List ℕ → Bool
unfolding accepts next
is_utf8 bs = accepts between bs

-- `String::from_utf8(bytes)`, the error dropped
unfoldable pub from_utf8 : List ℕ → Option (List ℕ)
from_utf8 bs = if is_utf8 bs then some bs else none

-- "Aé€😀", and a lone continuation, an overlong form, a surrogate.
utf8_accepts :
    is_utf8 (0x41 ∷ 0xC3 ∷ 0xA9 ∷ 0xE2 ∷ 0x82 ∷ 0xAC ∷ 0xF0 ∷ 0x9F ∷ 0x98 ∷ 0x80 ∷ []) ≡ true
unfolding is_utf8
utf8_accepts = refl

utf8_rejects :
    (is_utf8 (0x80 ∷ []) ≡ false)
    × (is_utf8 (0xC0 ∷ 0x80 ∷ []) ≡ false)
    × (is_utf8 (0xED ∷ 0xA0 ∷ 0x80 ∷ []) ≡ false)
    × (is_utf8 (0xE2 ∷ 0x82 ∷ []) ≡ false)
unfolding is_utf8
utf8_rejects = (refl, refl, refl, refl)
