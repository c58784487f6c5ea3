-- ===== src/Wire/Unique.antt =====
-- Words of encoding/binary from their bytes: each string of bytes is that of one word.
use mathlib.Core.List.{append_assoc, append-nil, foldl}
use envisilab.Base.{
  ℕ, zero, suc, ◌+◌, ◌*◌, ◌/◌, ◌%◌, ◌^◌, ◌<◌, ◌≤◌, ◌≡◌, refl, sym, ap, ◌∙◌, [], ◌∷◌, ◌++◌, arith,
  length, All-append, All, Bytes,
}
use native.Mathlib.Nat.{pow-suc, mul_assoc, mul-le-mul_right}
use envisilab.Wire.{be, from_be}

abbrev pub IsByte : ℕ → Type 0
IsByte b = b < 256

be_snoc : (w acc b : ℕ) → b < 256 → be (suc w) (acc * 256 + b) ≡ be w acc ++ b ∷ []
unfolding be
be_snoc w acc b h =
    let high : (acc * 256 + b) / 256 ≡ acc = omega (arith, h) in
    let low : (acc * 256 + b) % 256 ≡ b = omega (arith, h) in rw (high, low) refl

be_fold :
    (n w acc : ℕ) (bs : Bytes)
    → All IsByte bs
    → n ≡ length bs + w
    → be n (foldl (λ acc b. acc * 256 + b) acc bs) ≡ be w acc ++ bs
be_fold n w acc [] v e =
    let same : n ≡ w = omega (arith, e) in rw same (sym (append-nil (be w acc)))
be_fold n w acc (b ∷ bs) v e =
    be_fold n (suc w) (acc * 256 + b) bs v.1 (omega (arith, e))
    ∙ rw (be_snoc w acc b v.0) (append_assoc (be w acc) (b ∷ []) bs)

pub be-from_be : (w : ℕ) (bs : Bytes) → All IsByte bs → length bs ≡ w → be w (from_be bs) ≡ bs
unfolding from_be be
be-from_be w bs v e = be_fold w 0 0 bs v (omega (arith, e))

bound_byte :
    (acc b n r : ℕ) → b < 256 → r ≤ suc (acc * 256 + b) * 256 ^ n → r ≤ suc acc * 256 ^ suc n
bound_byte acc b n r h le =
    let p = 256 ^ n in
    let wider : suc (acc * 256 + b) * p ≤ (suc acc * 256) * p =
      mul-le-mul_right {m = suc (acc * 256 + b)} {n = suc acc * 256} p (omega (arith, h)) in
    let same : (suc acc * 256) * p ≡ suc acc * 256 ^ suc n =
      mul_assoc (suc acc) 256 p ∙ ap (λ (x : ℕ). suc acc * x) (omega (arith, pow-suc 256 n)) in
    omega (arith, le, wider, same)

fold_bound :
    (acc : ℕ) (bs : Bytes)
    → All IsByte bs
    → suc (foldl (λ acc b. acc * 256 + b) acc bs) ≤ suc acc * 256 ^ length bs
fold_bound acc [] v = omega arith
fold_bound acc (b ∷ bs) v = bound_byte acc b (length bs) _ v.0 (fold_bound (acc * 256 + b) bs v.1)

pub from_be-lt : (bs : Bytes) → All IsByte bs → from_be bs < 256 ^ length bs
unfolding from_be
from_be-lt bs v = omega (arith, fold_bound 0 bs v)

pub be-AllBytes : (w v : ℕ) → All IsByte (be w v)
unfolding be
be-AllBytes zero v = tt
be-AllBytes (suc w) v =
    All-append IsByte (be w (v / 256)) ((v % 256) ∷ []) (be-AllBytes w (v / 256)) (omega arith, tt)
