-- ===== src/Location.antt =====
-- core/location.go: a point in space and time, and its 32 bytes on the wire.
-- A float is its IEEE 754 bit pattern; the timestamp is an `int64`.
pub mod Laws
pub mod Unique
use envisilab.Base.{
  ℕ, ◌+◌, ◌/◌, ◌%◌, ◌^◌, ◌&&◌, ◌==◌, nat_eq, ltb, if◌then◌else◌, ◌++◌, Bytes, Error,
}
use envisilab.Base.Int.{ℤ, bits64, int64}
use envisilab.Wire.{be, binary_read, next_word}

pub record Location : Type 0 where
  pub lat : ℕ
  pub lng : ℕ
  pub alt : ℕ
  pub heading : ℕ
  pub timestamp : ℤ

unfoldable pub make_location : ℕ → ℕ → ℕ → ℕ → ℤ → Location
make_location lat lng alt heading t = record {
  lat = lat;
  lng = lng;
  alt = alt;
  heading = heading;
  timestamp = t;
}

-- Each `binary.Write` appends to the buffer.
unfoldable pub serialize : Location → Bytes → Bytes
serialize location buf =
    let buf1 = buf ++ be 8 location.lat in
    let buf2 = buf1 ++ be 8 location.lng in
    let buf3 = buf2 ++ be 4 location.alt in
    let buf4 = buf3 ++ be 4 location.heading in buf4 ++ be 8 (bits64 location.timestamp)

-- The bits of a `float32` that has gone through a `float64`: a signalling NaN becomes a quiet one, and
-- nothing else changes.
unfoldable pub through_float64 : ℕ → ℕ
through_float64 bits =
    if bits / 2 ^ 23 % 2 ^ 8 == 255 && bits / 2 ^ 22 % 2 == 0 && ltb 0 (bits % 2 ^ 22)
    then bits + 2 ^ 22
    else bits

-- `binary.Read` of a struct sets its fields by reflection, which takes a `float32` as a `float64`.
pub decode_location : Bytes → Location
unfolding through_float64
decode_location bs =
    let (lat, bs1) = next_word 8 bs in
    let (lng, bs2) = next_word 8 bs1 in
    let (alt, bs3) = next_word 4 bs2 in
    let (heading, bs4) = next_word 4 bs3 in
    let (time, bs5) = next_word 8 bs4 in
    record {
      lat = lat;
      lng = lng;
      alt = through_float64 alt;
      heading = through_float64 heading;
      timestamp = int64 time;
    }

-- The error of `binary.Read` is dropped: a buffer of fewer than 32 bytes leaves the location alone.
unfoldable pub deserialize : Location → Bytes → Location × Bytes
unfolding decode_location
deserialize location buf =
    let (location', rest, err) = binary_read 32 decode_location location buf in (location', rest)
