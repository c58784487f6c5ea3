-- ===== src/Location/Unique.antt =====
-- The 32 bytes of core/location.go, the other way: each string of them is that of one location.
use mathlib.Core.Equiv.{Iso, IsEquiv, iso_to_equiv}
use mathlib.Core.HLevel.{Unit-prop, ×_prop, Σ_prop_path}
use mathlib.Core.List.{append-nil}
use native.Mathlib.Nat.{ℕ_set}
use native.Mathlib.Bridge.{le_prop}
use envisilab.Base.{
  ℕ, zero, suc, ◌+◌, ◌^◌, ◌<◌, ◌≡◌, refl, sym, ap, ◌∙◌, [], ◌∷◌, ◌++◌, arith, length, All, take,
  drop, All-append, All-take, All-drop, length-take, length-drop, take-append-drop, Bytes,
}
use envisilab.Base.Int.{ℤ, pos, negsuc, bits64, IsInt64, bits64-int64, int64-IsInt64}
use envisilab.Wire.{be, from_be, next_word}
use envisilab.Wire.Unique.{IsByte, be-from_be, from_be-lt, be-AllBytes}
use envisilab.Wire.Laws.{next_word-be}
use envisilab.Location.{Location, through_float64, serialize, decode_location, deserialize}
use envisilab.Location.Laws.{
  IsLocation, location_bytes, serialize-append, length-location_bytes, decode_location-bytes,
  deserialize-bytes,
}

pub record IsFrame (n : ℕ) (bs : Bytes) : Type 0 where
  pub bytes : All IsByte bs
  pub size : length bs ≡ n

-- A word at the front of `w + r` bytes, and the `r` bytes behind it.
record IsCut (w r : ℕ) (bs : Bytes) : Type 0 where
  small : (next_word w bs).0 < 256 ^ w
  again : be w (next_word w bs).0 ++ (next_word w bs).1 ≡ bs
  rest : IsFrame r (next_word w bs).1

cut : (w r : ℕ) (bs : Bytes) → IsFrame (w + r) bs → IsCut w r bs
unfolding next_word
cut w r bs v =
    let front : length (take w bs) ≡ w = omega (arith, length-take w bs, v.size) in
    let bytes = All-take IsByte w bs v.bytes in
    record {
      small = rw front at (from_be-lt (take w bs) bytes);
      again = rw (be-from_be w (take w bs) bytes front) (take-append-drop w bs);
      rest = record {
        bytes = All-drop IsByte w bs v.bytes;
        size = omega (arith, length-drop w bs, v.size);
      };
    }

none_left : (bs : Bytes) → length bs ≡ 0 → bs ≡ []
none_left [] e = refl
none_left (b ∷ bs) e = absurd (omega arith)

drop-nil : (n : ℕ) → drop {A = ℕ} n [] ≡ []
drop-nil zero = refl
drop-nil (suc n) = refl

drop-drop : (m n : ℕ) (bs : Bytes) → drop m (drop n bs) ≡ drop (n + m) bs
drop-drop m zero bs = let e : 0 + m ≡ m = omega arith in rw e refl
drop-drop m (suc n) [] = drop-nil m ∙ sym (drop-nil (suc n + m))
drop-drop m (suc n) (b ∷ bs) =
    let e : suc n + m ≡ suc (n + m) = omega arith in rw e (drop-drop m n bs)

-- The word of 4 bytes that begins at byte `n`.
abbrev pub word_at : ℕ → Bytes → ℕ
word_at n bs = from_be (take 4 (drop n bs))

-- The strings of 32 bytes whose two words of 4 bytes are no signalling NaNs.
pub record IsRegular (bs : Bytes) : Type 0 where
  pub frame : IsFrame 32 bs
  pub alt_kept : through_float64 (word_at 16 bs) ≡ word_at 16 bs
  pub heading_kept : through_float64 (word_at 20 bs) ≡ word_at 20 bs

-- The same words, as they are read.
abbrev alt_of : Bytes → ℕ
alt_of bs = (next_word 4 (next_word 8 (next_word 8 bs).1).1).0

abbrev heading_of : Bytes → ℕ
heading_of bs = (next_word 4 (next_word 4 (next_word 8 (next_word 8 bs).1).1).1).0

alt_of-word_at : (bs : Bytes) → alt_of bs ≡ word_at 16 bs
unfolding next_word
alt_of-word_at bs = ap (λ bs. from_be (take 4 bs)) (drop-drop 8 8 bs)

heading_of-word_at : (bs : Bytes) → heading_of bs ≡ word_at 20 bs
unfolding next_word
heading_of-word_at bs =
    ap (λ bs. from_be (take 4 bs)) (drop-drop 4 8 (drop 8 bs) ∙ drop-drop 12 8 bs)

module _ (bs : Bytes) (v : IsRegular bs) where
  alt_still : through_float64 (alt_of bs) ≡ alt_of bs
  alt_still = rw (alt_of-word_at bs) v.alt_kept

  heading_still : through_float64 (heading_of bs) ≡ heading_of bs
  heading_still = rw (heading_of-word_at bs) v.heading_kept

  decode_location-IsLocation : IsLocation (decode_location bs)
  unfolding decode_location
  decode_location-IsLocation =
      let v1 = cut 8 24 bs v.frame in
      let v2 = cut 8 16 _ v1.rest in
      let v3 = cut 4 12 _ v2.rest in
      let v4 = cut 4 8 _ v3.rest in
      let v5 = cut 8 0 _ v4.rest in
      record {
        lat = v1.small;
        lng = v2.small;
        alt = rw alt_still v3.small;
        heading = rw heading_still v4.small;
        alt_kept = ap through_float64 alt_still;
        heading_kept = ap through_float64 heading_still;
        timestamp = int64-IsInt64 _ v5.small;
      }

  bytes-decode_location : location_bytes (decode_location bs) ≡ bs
  unfolding decode_location
  bytes-decode_location =
      let v1 = cut 8 24 bs v.frame in
      let v2 = cut 8 16 _ v1.rest in
      let v3 = cut 4 12 _ v2.rest in
      let v4 = cut 4 8 _ v3.rest in
      let v5 = cut 8 0 _ v4.rest in
      let last = rw (none_left _ v5.rest.size, append-nil) at v5.again in
      rw
        (
          alt_still,
          heading_still,
          bits64-int64 _ v5.small,
          last,
          v4.again,
          v3.again,
          v2.again,
          v1.again,
        )
        refl

IsInt64-prop : (z : ℤ) → IsProp (IsInt64 z)
IsInt64-prop (pos n) = le_prop
IsInt64-prop (negsuc n) = le_prop

IsLocation-prop : (l : Location) → IsProp (IsLocation l)
IsLocation-prop l u v i = record {
  lat = le_prop u.lat v.lat i;
  lng = le_prop u.lng v.lng i;
  alt = le_prop u.alt v.alt i;
  heading = le_prop u.heading v.heading i;
  alt_kept = ℕ_set _ _ u.alt_kept v.alt_kept i;
  heading_kept = ℕ_set _ _ u.heading_kept v.heading_kept i;
  timestamp = IsInt64-prop l.timestamp u.timestamp v.timestamp i;
}

AllBytes-prop : (bs : Bytes) → IsProp (All IsByte bs)
AllBytes-prop [] = Unit-prop
AllBytes-prop (b ∷ bs) = ×_prop le_prop (AllBytes-prop bs)

IsFrame-prop : (n : ℕ) (bs : Bytes) → IsProp (IsFrame n bs)
IsFrame-prop n bs u v i = record {
  bytes = AllBytes-prop bs u.bytes v.bytes i;
  size = ℕ_set (length bs) n u.size v.size i;
}

IsRegular-prop : (bs : Bytes) → IsProp (IsRegular bs)
IsRegular-prop bs u v i = record {
  frame = IsFrame-prop 32 bs u.frame v.frame i;
  alt_kept = ℕ_set _ _ u.alt_kept v.alt_kept i;
  heading_kept = ℕ_set _ _ u.heading_kept v.heading_kept i;
}

with_word : (w v : ℕ) (bs : Bytes) → All IsByte bs → All IsByte (be w v ++ bs)
with_word w v bs = All-append IsByte (be w v) bs (be-AllBytes w v)

location_bytes-IsFrame : (l : Location) → IsFrame 32 (location_bytes l)
location_bytes-IsFrame l = record {
  bytes = with_word 8 l.lat _ (
      with_word 8 l.lng _
        (with_word 4 l.alt _ (with_word 4 l.heading _ (be-AllBytes 8 (bits64 l.timestamp)))));
  size = length-location_bytes l;
}

module _ (l : Location) (v : IsLocation l) where
  abbrev behind_heading : Bytes
  behind_heading = be 8 (bits64 l.timestamp)

  abbrev behind_alt : Bytes
  behind_alt = be 4 l.heading ++ behind_heading

  abbrev behind_lng : Bytes
  behind_lng = be 4 l.alt ++ behind_alt

  behind_lat : (next_word 8 (next_word 8 (location_bytes l)).1).1 ≡ behind_lng
  behind_lat =
      ap (λ (x : ℕ × Bytes). (next_word 8 x.1).1)
        (next_word-be 8 l.lat (be 8 l.lng ++ behind_lng) v.lat)
      ∙ ap (λ (x : ℕ × Bytes). x.1) (next_word-be 8 l.lng behind_lng v.lng)

  alt_of-location_bytes : alt_of (location_bytes l) ≡ l.alt
  alt_of-location_bytes =
      ap (λ (bs : Bytes). (next_word 4 bs).0) behind_lat
      ∙ ap (λ (x : ℕ × Bytes). x.0) (next_word-be 4 l.alt behind_alt v.alt)

  heading_of-location_bytes : heading_of (location_bytes l) ≡ l.heading
  heading_of-location_bytes =
      ap (λ (bs : Bytes). (next_word 4 (next_word 4 bs).1).0) behind_lat
      ∙ ap (λ (x : ℕ × Bytes). (next_word 4 x.1).0) (next_word-be 4 l.alt behind_alt v.alt)
      ∙ ap (λ (x : ℕ × Bytes). x.0) (next_word-be 4 l.heading behind_heading v.heading)

location_bytes-IsRegular : (l : Location) → IsLocation l → IsRegular (location_bytes l)
location_bytes-IsRegular l v =
    let bs = location_bytes l in
    let alt : word_at 16 bs ≡ l.alt = sym (alt_of-word_at bs) ∙ alt_of-location_bytes l v in
    let heading : word_at 20 bs ≡ l.heading =
      sym (heading_of-word_at bs) ∙ heading_of-location_bytes l v in
    record {
      frame = location_bytes-IsFrame l;
      alt_kept = ap through_float64 alt ∙ v.alt_kept ∙ sym alt;
      heading_kept = ap through_float64 heading ∙ v.heading_kept ∙ sym heading;
    }

-- The locations that the fields' types hold, and the strings of bytes, without the signalling NaNs.
abbrev pub Held : Type 0
Held = (l : Location) × IsLocation l

abbrev pub Frame : Type 0
Frame = (bs : Bytes) × IsRegular bs

pub on_wire-IsRegular : (l : Location) → IsLocation l → IsRegular (serialize l [])
on_wire-IsRegular l v = rw (serialize-append l []) (location_bytes-IsRegular l v)

abbrev pub on_wire : Held → Frame
on_wire (l, v) = (serialize l [], on_wire-IsRegular l v)

on_wire-Iso : Iso Held Frame
on_wire-Iso = record {
  fun = on_wire;
  inv = λ f. (decode_location f.0, decode_location-IsLocation f.0 f.1);
  rinv = λ f.
      Σ_prop_path IsRegular-prop
        (serialize-append (decode_location f.0) [] ∙ bytes-decode_location f.0 f.1);
  linv = λ l.
      Σ_prop_path IsLocation-prop
        (ap decode_location (serialize-append l.0 []) ∙ decode_location-bytes l.0 l.1);
}

-- `Serialize` into an empty buffer is an equivalence between the locations whose fields their Go types
-- hold and the strings of 32 bytes, without those that have a signalling NaN for a height or a heading:
-- each other 32 bytes are those of exactly one such location. `Deserialize` gives it, whatever was
-- there before.
pub on_wire-IsEquiv :
    IsEquiv on_wire
    × ((f : Frame) (l0 : Location) (rest : Bytes)
        → (l : Held) × (on_wire l ≡ f) × (deserialize l0 (f.0 ++ rest) ≡ (l.0, rest)))
unfolding on_wire-Iso
on_wire-IsEquiv = (
  (iso_to_equiv on_wire-Iso).1,
  λ f l0 rest. (
    on_wire-Iso.inv f,
    on_wire-Iso.rinv f,
    ap (λ bs. deserialize l0 (bs ++ rest)) (sym (bytes-decode_location f.0 f.1))
        ∙ deserialize-bytes (decode_location f.0) l0 rest (decode_location-IsLocation f.0 f.1),
  ),
)
