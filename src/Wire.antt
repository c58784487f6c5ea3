-- ===== src/Wire.antt =====
-- encoding/binary and bytes.Buffer, as core/message.go and core/location.go use them: big-endian
-- words, and `binary.Read` of a value of fixed size from a buffer.
pub mod Laws
pub mod Unique
use Prim.Native.Nat.{ℕ, zero, suc, ◌+◌, ◌*◌, ◌/◌, ◌%◌}
use mathlib.Core.Option.{Option, none, some}
use mathlib.Core.List.{List, [], ◌∷◌, ◌++◌, foldl}
use envisilab.Base.Tests.{ltb, if◌then◌else◌}
use envisilab.Base.Lists.{length, take, drop}
use envisilab.Base.Strings.{Bytes, Error, text}

-- `binary.Write` of an unsigned word of `w` bytes, most significant byte first.
unfoldable pub be : ℕ → ℕ → Bytes
be zero v = []
be (suc w) v = be w (v / 256) ++ (v % 256) ∷ []

-- The word that bytes stand for, most significant byte first.
unfoldable pub from_be : Bytes → ℕ
from_be = foldl (λ acc b. acc * 256 + b) 0

-- `io.ReadFull`'s error where `n` bytes were wanted and the buffer holds fewer.
eof : Bytes → Error
eof [] = some (text "EOF")
eof (b ∷ bs) = some (text "unexpected EOF")

-- `binary.Read` of a value of `n` bytes: all or nothing. On a short buffer the value stays as it
-- was, and what was left is used up. The result is the value, the rest of the buffer and the error.
unfoldable pub binary_read {ℓ} : {A : Type ℓ} → ℕ → (Bytes → A) → A → Bytes → A × Bytes × Error
unfolding eof
binary_read n decode old buf =
    if ltb (length buf) n then (old, [], eof buf) else (decode (take n buf), drop n buf, none)

-- Reading a struct goes field by field: a word of `w` bytes, or an array of `n` bytes, off the front.
unfoldable pub next_word : ℕ → Bytes → ℕ × Bytes
unfolding from_be
next_word w bs = (from_be (take w bs), drop w bs)

unfoldable pub next_array : ℕ → Bytes → Bytes × Bytes
next_array n bs = (take n bs, drop n bs)
