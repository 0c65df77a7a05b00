-- ===== src/Base/Http.antt =====
-- The HTTP library of the clients, reqwest, as an interface: what a request comes to in a world `W`.
use Prim.Native.Char.{code}
use Prim.Native.String.{◌++◌}
use rust_proxy.Base.Tests.{◌==◌, if◌then◌else◌}
use Prim.Native.Nat.{ℕ}
use Prim.Native.String.{String}
use mathlib.Core.Bool.{Bool, ◌&&◌}
use mathlib.Core.Path.{◌≡◌, ap, ◌∙◌}
use mathlib.Core.Option.{Option}
use mathlib.Core.List.{List}
use text.Mathlib.Text.{◌==◌ as str_eq}
use text.Mathlib.TextLemmas.{nil-append, cons-append}

-- Headers by lower-case name; a value that is not visible ASCII is `none`, as `to_str` has it.
abbrev pub HeaderMap : Type 0
HeaderMap = List (String × Option String)

-- How `send()` ends, with what `json()` makes of the body.
pub data Response (A : Type 0) : Type 0 where
  send_failed : Response A
  response : (status : ℕ) → (json : Option A) → Response A

pub record Http (W Body Reply : Type 0) : Type 0 where
  pub post : String → HeaderMap → Body → W → W × Response Reply
  pub bearer_auth : String → HeaderMap → HeaderMap
  pub is_success : ℕ → Bool

-- `trim_end_matches('/')`
unfoldable pub trim_end_slashes : String → String
trim_end_slashes Prim.Native.String.[] = ""
trim_end_slashes (Prim.Native.String.◌∷◌ c s) =
    let rest = trim_end_slashes s in
    if code c == 0x2F && str_eq rest "" then "" else Prim.Native.String.◌∷◌ c rest

trim_end_slashes-append : (s : String) → trim_end_slashes (s ++ "/") ≡ trim_end_slashes s
unfolding trim_end_slashes
trim_end_slashes-append Prim.Native.String.[] = ap trim_end_slashes (nil-append "/")
trim_end_slashes-append (Prim.Native.String.◌∷◌ c s) =
    ap trim_end_slashes (cons-append c s "/")
    ∙ ap (λ rest. if code c == 0x2F && str_eq rest "" then "" else Prim.Native.String.◌∷◌ c rest)
        (trim_end_slashes-append s)
