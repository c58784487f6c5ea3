-- ===== src/Base/Decimal.antt =====
-- strconv.FormatUint(n, 10) and strconv.Itoa on non-negative numbers. The fuel bounds the digits:
-- a `uint64` has at most 20.
use Prim.Native.Nat.{ℕ, zero, suc, ◌+◌, ◌-◌, ◌*◌, ◌/◌, ◌%◌, ◌^◌, ◌<◌}
use mathlib.Core.Path.{◌≡◌, refl, sym, ap, ◌∙◌}
use mathlib.Core.List.{[], ◌∷◌, ◌++◌, foldl, foldl-append}
use native.Mathlib.Nat.{pow-suc}
use native.Mathlib.Omega.{arith}
use envisilab.Base.Tests.{ltb, if◌then◌else◌, nat_eq, list_eq}
use envisilab.Base.Strings.{Text}

unfoldable pub decimal : ℕ → ℕ → Text
decimal zero n = []
decimal (suc fuel) n =
    let front = decimal fuel (n / 10) in
    if ltb n 10 then (48 + n) ∷ [] else front ++ (48 + n % 10) ∷ []

unfoldable pub format_uint : ℕ → Text
unfolding decimal
format_uint n = decimal 20 n

from_decimal : Text → ℕ
from_decimal = foldl (λ acc c. acc * 10 + (c - 48)) 0

from_decimal-snoc :
    (xs : Text) (c : ℕ) → from_decimal (xs ++ c ∷ []) ≡ from_decimal xs * 10 + (c - 48)
unfolding from_decimal
from_decimal-snoc xs c = rw foldl-append

from_decimal-decimal : (fuel n : ℕ) → n < 10 ^ fuel → from_decimal (decimal fuel n) ≡ n
unfolding decimal
from_decimal-decimal zero n h = unfold from_decimal in omega arith
from_decimal-decimal (suc fuel) n h = ground (
  arith,
  pow-suc 10 fuel,
  from_decimal-decimal fuel (n / 10),
  from_decimal-snoc [] (48 + n),
  empty,
  from_decimal-snoc (decimal fuel (n / 10)) (48 + n % 10),
)
  where
    empty : from_decimal [] ≡ 0
    empty = unfold from_decimal in refl

-- Two `uint64` with the same text are the same.
pub format_uint-injective :
    (m n : ℕ) → m < 2 ^ 64 → n < 2 ^ 64 → format_uint m ≡ format_uint n → m ≡ n
unfolding format_uint
format_uint-injective m n hm hn e =
    sym (from_decimal-decimal 20 m (omega arith))
    ∙ ap from_decimal e
    ∙ from_decimal-decimal 20 n (omega arith)
