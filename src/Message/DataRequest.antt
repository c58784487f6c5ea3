-- ===== src/Message/DataRequest.antt =====
-- core/message.go: `DataRequestMsg`.
use envisilab.Base.{ℕ, [], none, Bytes, Error}
use envisilab.Net.{NetConn}
use envisilab.Location.{Location, deserialize}
use envisilab.Location
use envisilab.Message.Header.{Header, make_header, serialize, msg_type_data_request}
use envisilab.Message.Receive.{Payload, stop, body, receive}

pub record DataRequestMsg : Type 0 where
  pub hdr : Header
  pub location : Location

unfoldable pub write :
    (c : NetConn) → DataRequestMsg → c.State → DataRequestMsg × (ℕ × Error × c.State)
write c m s =
    let m' : DataRequestMsg = record m { hdr = record (m.hdr) { length = 32 } } in
    let buf1 = serialize m'.hdr [] in
    let buf2 = Location.serialize m'.location buf1 in (m', c.write s buf2)

unfoldable pub parse : DataRequestMsg → Bytes → DataRequestMsg
parse m msg_bytes =
    let (location, rest) = deserialize m.location msg_bytes in record m { location = location }

unfoldable pub finish : DataRequestMsg → Payload → DataRequestMsg × Error
unfolding parse
finish m (stop err) = (m, err)
finish m (body msg_bytes) = (parse m msg_bytes, none)

unfoldable pub read : (c : NetConn) → DataRequestMsg → c.State → (DataRequestMsg × Error) × c.State
unfolding finish
read c m s =
    let (hdr, payload, s') = receive c msg_type_data_request m.hdr s in
    (finish (record m { hdr = hdr }) payload, s')

unfoldable pub make : Bytes → Location → DataRequestMsg
unfolding make_header
make token_id loc =
    let h : Header = record (make_header msg_type_data_request 0) { uuid = token_id } in
    record { hdr = h; location = loc }
