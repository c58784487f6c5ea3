-- ===== src/Message/SyncResponse.antt =====
-- core/message.go: `SyncResponseMsg`.
use envisilab.Base.{ℕ, ◌++◌, [], none, Bytes, Error}
use envisilab.Net.{NetConn}
use envisilab.Wire.{binary_read}
use envisilab.Message.Header.{Header, make_header, serialize, nil_uuid, msg_type_sync_response}
use envisilab.Message.Receive.{Payload, stop, body, receive}

pub record SyncResponseMsg : Type 0 where
  pub hdr : Header
  pub service_uuid : Bytes
  pub token_id : Bytes

unfoldable pub write :
    (c : NetConn) → SyncResponseMsg → c.State → SyncResponseMsg × (ℕ × Error × c.State)
write c m s =
    let m' : SyncResponseMsg = record m { hdr = record (m.hdr) { length = 32 } } in
    let buf1 = serialize m'.hdr [] in
    let buf2 = buf1 ++ m'.service_uuid in let buf3 = buf2 ++ m'.token_id in (m', c.write s buf3)

unfoldable pub parse : SyncResponseMsg → Bytes → SyncResponseMsg
parse m msg_bytes =
    let (service_uuid, buf, err) = binary_read 16 (λ bs. bs) m.service_uuid msg_bytes in
    let (token_id, rest, err') = binary_read 16 (λ bs. bs) m.token_id buf in
    record m { service_uuid = service_uuid; token_id = token_id }

unfoldable pub finish : SyncResponseMsg → Payload → SyncResponseMsg × Error
unfolding parse
finish m (stop err) = (m, err)
finish m (body msg_bytes) = (parse m msg_bytes, none)

unfoldable pub read :
    (c : NetConn) → SyncResponseMsg → c.State → (SyncResponseMsg × Error) × c.State
unfolding finish
read c m s =
    let (hdr, payload, s') = receive c msg_type_sync_response m.hdr s in
    (finish (record m { hdr = hdr }) payload, s')

-- The service's UUID is left at its zero value.
unfoldable pub make : Bytes → Bytes → SyncResponseMsg
unfolding make_header
make client_uuid token_id =
    let h : Header = record (make_header msg_type_sync_response 0) { uuid = client_uuid } in
    record { hdr = h; service_uuid = nil_uuid; token_id = token_id }
