-- ===== src/Location/Laws.antt =====
-- A location reads back from the bytes that it was written to.
use mathlib.Core.List.{append_assoc}
use envisilab.Base.{◌^◌, ◌<◌, ◌≡◌, ◌++◌, arith, Bytes, length, length-append}
use envisilab.Base.Int.{bits64, IsInt64, bits64-lt, int64-bits64}
use envisilab.Wire.{be}
use envisilab.Wire.Laws.{length-be, binary_read-append, next_word-be, next_word-be_last}
use envisilab.Location.{Location, serialize, through_float64, decode_location, deserialize}

-- The values that the fields' Go types hold, without the signalling NaNs.
pub record IsLocation (l : Location) : Type 0 where
  pub lat : l.lat < 2 ^ 64
  pub lng : l.lng < 2 ^ 64
  pub alt : l.alt < 2 ^ 32
  pub heading : l.heading < 2 ^ 32
  pub alt_kept : through_float64 l.alt ≡ l.alt
  pub heading_kept : through_float64 l.heading ≡ l.heading
  pub timestamp : IsInt64 l.timestamp

abbrev pub location_bytes : Location → Bytes
location_bytes l =
    be 8 l.lat ++ (be 8 l.lng ++ (be 4 l.alt ++ (be 4 l.heading ++ be 8 (bits64 l.timestamp))))

pub serialize-append : (l : Location) (buf : Bytes) → serialize l buf ≡ buf ++ location_bytes l
unfolding serialize
serialize-append l buf = simp append_assoc

pub length-location_bytes : (l : Location) → length (location_bytes l) ≡ 32
length-location_bytes l = simp (length-append, length-be)

pub decode_location-bytes : (l : Location) → IsLocation l → decode_location (location_bytes l) ≡ l
unfolding decode_location
decode_location-bytes l v = simp (
  next_word-be 8 l.lat _ v.lat,
  next_word-be 8 l.lng _ v.lng,
  next_word-be 4 l.alt _ v.alt,
  next_word-be 4 l.heading _ v.heading,
  next_word-be_last 8 (bits64 l.timestamp) (bits64-lt l.timestamp),
  int64-bits64 l.timestamp v.timestamp,
  v.alt_kept,
  v.heading_kept,
)

-- `Deserialize` takes what `Serialize` wrote off the front of the buffer.
pub deserialize-bytes :
    (l l0 : Location) (rest : Bytes)
    → IsLocation l
    → deserialize l0 (location_bytes l ++ rest) ≡ (l, rest)
unfolding deserialize
deserialize-bytes l l0 rest v =
    rw (binary_read-append 32 decode_location l0 (location_bytes l) rest (length-location_bytes l))
      (ground (arith, decode_location-bytes l v))
