-- ===== src/Message/RoundTrip.antt =====
-- Each message is read as it was written, over a connection that loses nothing.
pub mod SyncRequest
pub mod SyncResponse
pub mod DataRequest
pub mod DataResponse
use mathlib.Core.List.{append-nil}
use envisilab.Base.{ℕ, ◌^◌, ◌<◌, ◌≡◌, ◌++◌, [], none, Bytes, length}
use envisilab.Wire.{binary_read}
use envisilab.Wire.Laws.{binary_read-append}
use envisilab.Location.{Location, deserialize}
use envisilab.Location.Laws.{IsLocation, location_bytes, deserialize-bytes}
use envisilab.Message.Header.{Header}
use envisilab.Message.Laws.{IsHeader}

-- `binary.Read` of a UUID from the payload.
pub read_uuid :
    (old xs rest : Bytes)
    → length xs ≡ 16
    → binary_read 16 (λ bs. bs) old (xs ++ rest) ≡ (xs, rest, none)
read_uuid old xs rest = binary_read-append 16 (λ bs. bs) old xs rest

pub read_last_uuid :
    (old xs : Bytes) → length xs ≡ 16 → binary_read 16 (λ bs. bs) old xs ≡ (xs, [], none)
read_last_uuid old xs h = rw append-nil at (read_uuid old xs [] h)

pub deserialize-bytes_last :
    (l l0 : Location) → IsLocation l → deserialize l0 (location_bytes l) ≡ (l, [])
deserialize-bytes_last l l0 v = rw append-nil at (deserialize-bytes l l0 [] v)

pub with_length :
    (h : Header) (n : ℕ) → IsHeader h → n < 2 ^ 32 → IsHeader (record h { length = n })
with_length h n v l = record {
  magic = v.magic;
  version = v.version;
  msg_type = v.msg_type;
  user_agent = v.user_agent;
  uuid = v.uuid;
  length = l;
}
