-- ===== src/Wire/Laws.antt =====
-- Words read back as they were written, and `binary_read` of what a value's bytes begin.
use Prim.Native.Nat.{ℕ, zero, suc, ◌+◌, ◌*◌, ◌/◌, ◌%◌, ◌^◌, ◌<◌}
use mathlib.Core.Path.{◌≡◌, refl}
use mathlib.Core.Option.{none}
use mathlib.Core.List.{[], ◌∷◌, ◌++◌, foldl-append, append-nil}
use native.Mathlib.Nat.{pow-suc}
use native.Mathlib.Omega.{arith}
use envisilab.Base.Lists.{length, length-append, take-append, drop-append}
use envisilab.Base.Strings.{Bytes}
use envisilab.Wire.{be, from_be, binary_read, next_word, next_array}

pub length-be : (w v : ℕ) → length (be w v) ≡ w
unfolding be
length-be zero v = refl
length-be (suc w) v =
    omega (arith, length-append (be w (v / 256)) ((v % 256) ∷ []), length-be w (v / 256))

from_be-snoc : (xs : Bytes) (b : ℕ) → from_be (xs ++ b ∷ []) ≡ from_be xs * 256 + b
unfolding from_be
from_be-snoc xs b = rw foldl-append

pub from_be-be : (w v : ℕ) → v < 256 ^ w → from_be (be w v) ≡ v
unfolding be
from_be-be zero v h = unfold from_be in omega arith
from_be-be (suc w) v h =
    omega (arith, from_be-snoc (be w (v / 256)) (v % 256), from_be-be w (v / 256) below)
  where
    below : v / 256 < 256 ^ w
    below = omega (arith, pow-suc 256 w)

-- Where the buffer begins with the bytes of a value, `binary.Read` takes them and leaves the rest.
pub binary_read-append {ℓ} :
    {A : Type ℓ} (n : ℕ) (decode : Bytes → A) (old : A) (xs rest : Bytes)
    → length xs ≡ n
    → binary_read n decode old (xs ++ rest) ≡ (decode xs, rest, none)
unfolding binary_read
binary_read-append n decode old xs rest h =
    ground (arith, length-append xs rest, take-append n xs rest h, drop-append n xs rest h)

pub next_word-be : (w v : ℕ) (rest : Bytes) → v < 256 ^ w → next_word w (be w v ++ rest) ≡ (v, rest)
unfolding next_word
next_word-be w v rest h = ground (
  arith,
  take-append w (be w v) rest (length-be w v),
  drop-append w (be w v) rest (length-be w v),
  from_be-be w v h,
)

pub next_word-be_last : (w v : ℕ) → v < 256 ^ w → next_word w (be w v) ≡ (v, [])
next_word-be_last w v h = rw append-nil at (next_word-be w v [] h)

pub next_array-append :
    (n : ℕ) (xs rest : Bytes) → length xs ≡ n → next_array n (xs ++ rest) ≡ (xs, rest)
unfolding next_array
next_array-append n xs rest h = ground (arith, take-append n xs rest h, drop-append n xs rest h)
