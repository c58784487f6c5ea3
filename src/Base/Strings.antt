-- ===== src/Base/Strings.antt =====
-- Byte sequences: Go's `string` and `[]byte`, and the standard library's `error` by its message.
use Prim.Native.Char.{code}
use Prim.Native.String.{String}
use Prim.Native.Nat.{ℕ}
use mathlib.Core.Option.{Option}
use mathlib.Core.List.{List, [], ◌∷◌}

abbrev pub Bytes : Type 0
Bytes = List ℕ

abbrev pub Text : Type 0
Text = List ℕ

-- `none` is `nil`; another error is known by what `Error()` returns.
abbrev pub Error : Type 0
Error = Option Text

-- The bytes of an ASCII literal.
unfoldable pub text : String → Text
text String.[] = []
text (String.◌∷◌ c s) = code c ∷ text s
