-- ===== src/WebSocket/Reading.antt =====
-- `ReadPump` of core/http.go.
use envisilab.Base.{
  ◌≡◌, refl, is_some, if◌then◌else◌, List, [], ◌∷◌, ◌++◌, map, arith, Bytes, Error,
}
use envisilab.Subscription.{UserFilter}
use envisilab.WebSocket.{Read, message, failure, closed, read_pump}

module _ (decode : Bytes → UserFilter × Error) where
  -- The filters in the messages that can be decoded.
  abbrev pub decoded : List Bytes → List UserFilter
  decoded [] = []
  decoded (m ∷ ms) =
      let rest = decoded ms in if is_some (decode m).1 then rest else (decode m).0 ∷ rest

  -- `ReadPump` ends at the first error of the socket, and not before: by then it has offered the
  -- filters of the messages so far, in their order, without those that cannot be decoded. What
  -- follows the error is not read.
  pub read_pump_ends :
      (before : List Bytes) (after : List Read)
      → read_pump decode (map (λ m. message m) before ++ failure ∷ after) ≡ (closed, decoded before)
  unfolding read_pump
  read_pump_ends [] after = refl
  read_pump_ends (m ∷ before) after = ground (arith, read_pump_ends before after)
