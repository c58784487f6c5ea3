-- ===== src/Uuid.antt =====
-- github.com/google/uuid, which is not part of the repository: `UUID.String` and `uuid.Parse`.
use envisilab.Base.{◌≡◌, none, Bytes, Text, Error, length}

pub record Uuid : Type 0 where
  pub string : Bytes → Text
  pub parse : Text → Bytes × Error

-- A UUID of 16 bytes is read back from its text.
pub record IsUuid (u : Uuid) : Type 0 where
  pub parse-string : (id : Bytes) → length id ≡ 16 → u.parse (u.string id) ≡ (id, none)
