-- ===== src/Message/SyncRequest.antt =====
-- core/message.go: `SyncRequestMsg`.
use envisilab.Base.{ℕ, ◌++◌, [], none, Bytes, Error}
use envisilab.Net.{NetConn}
use envisilab.Wire.{binary_read}
use envisilab.Location.{Location, deserialize}
use envisilab.Location
use envisilab.Message.Header.{Header, make_header, serialize, msg_type_sync_request}
use envisilab.Message.Receive.{Payload, stop, body, receive}

pub record SyncRequestMsg : Type 0 where
  pub hdr : Header
  pub service_uuid : Bytes
  pub location : Location

unfoldable pub write :
    (c : NetConn) → SyncRequestMsg → c.State → SyncRequestMsg × (ℕ × Error × c.State)
write c m s =
    let m' : SyncRequestMsg = record m { hdr = record (m.hdr) { length = 48 } } in
    let buf1 = serialize m'.hdr [] in
    let buf2 = buf1 ++ m'.service_uuid in
    let buf3 = Location.serialize m'.location buf2 in (m', c.write s buf3)

unfoldable pub parse : SyncRequestMsg → Bytes → SyncRequestMsg
parse m msg_bytes =
    let (service_uuid, buf, err) = binary_read 16 (λ bs. bs) m.service_uuid msg_bytes in
    let (location, rest) = deserialize m.location buf in
    record m { service_uuid = service_uuid; location = location }

unfoldable pub finish : SyncRequestMsg → Payload → SyncRequestMsg × Error
unfolding parse
finish m (stop err) = (m, err)
finish m (body msg_bytes) = (parse m msg_bytes, none)

unfoldable pub read : (c : NetConn) → SyncRequestMsg → c.State → (SyncRequestMsg × Error) × c.State
unfolding finish
read c m s =
    let (hdr, payload, s') = receive c msg_type_sync_request m.hdr s in
    (finish (record m { hdr = hdr }) payload, s')

unfoldable pub make : Bytes → Bytes → Location → SyncRequestMsg
unfolding make_header
make client_uuid service_uuid loc =
    let h : Header = record (make_header msg_type_sync_request 0) { uuid = client_uuid } in
    record { hdr = h; service_uuid = service_uuid; location = loc }
