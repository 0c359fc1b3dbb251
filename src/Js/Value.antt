-- ===== src/Js/Value.antt =====
-- Values of unknown type, as `scValToNative` returns them.
use Prim.Native.String.{String}
use text.Mathlib.Text.{◌==◌}
use paystream_contracts.Prelude.{Bool, false, List, Option, none, some, if◌then◌else◌}
use paystream_contracts.Prelude.Int.{ℤ}
use paystream_contracts.Prelude.Dict.{lookup}

-- `obj s` is an array or an object, by the text `s` that it coerces to.
pub data Native : Type 0 where
  undefined : Native
  str : String → Native
  int : ℤ → Native
  bool : Bool → Native
  obj : String → Native

-- `v === s` for a text `s`
abbrev pub is_text : Native → String → Bool
is_text (str t) s = t == s
is_text _ s = false

-- `r[k]`
abbrev pub field : List (String × Native) → String → Native
field r k = elim (lookup k r) [ none ↦ undefined | some v ↦ v ]

-- A text or `null`, tested by `if (!s)`: an empty text counts as absent.
abbrev pub present : Option String → Option String
present none = none
present (some s) = if s == "" then none else some s
