-- ===== src/Message/DataResponse.antt =====
-- core/message.go: `DataResponseMsg`. Its `Data` is a pointer to a buffer, which may be `nil`.
use envisilab.Base.{ℕ, ◌%◌, ◌^◌, ◌++◌, [], none, some, Option, Bytes, Error, length}
use envisilab.Net.{NetConn}
use envisilab.Message.Header.{Header, make_header, serialize, msg_type_data_response}
use envisilab.Message.Receive.{Payload, stop, body, receive}

pub record DataResponseMsg : Type 0 where
  pub hdr : Header
  pub contents : Option Bytes

-- `uint32(m.Data.Len())`
abbrev pub length32 : Bytes → ℕ
length32 bs = length bs % 2 ^ 32

unfoldable pub write_buffer :
    (c : NetConn) → DataResponseMsg → Bytes → c.State → DataResponseMsg × (ℕ × Error × c.State)
write_buffer c m bytes s =
    let m' : DataResponseMsg = record m { hdr = record (m.hdr) { length = length32 bytes } } in
    let buf1 = serialize m'.hdr [] in let buf2 = buf1 ++ bytes in (m', c.write s buf2)

-- The result `none` is the panic of `m.Data.Len()` on a `nil` buffer.
unfoldable pub write :
    (c : NetConn) → DataResponseMsg → c.State → Option (DataResponseMsg × (ℕ × Error × c.State))
unfolding write_buffer
write c m s = elim m.contents [ none ↦ none | some bytes ↦ some (write_buffer c m bytes s) ]

unfoldable pub finish : DataResponseMsg → Payload → DataResponseMsg × Error
finish m (stop err) = (m, err)
finish m (body msg_bytes) = (record m { contents = some msg_bytes }, none)

unfoldable pub read :
    (c : NetConn) → DataResponseMsg → c.State → (DataResponseMsg × Error) × c.State
unfolding finish
read c m s =
    let (hdr, payload, s') = receive c msg_type_data_response m.hdr s in
    (finish (record m { hdr = hdr }) payload, s')

unfoldable pub make : Bytes → DataResponseMsg
unfolding make_header
make token_id =
    let h : Header = record (make_header msg_type_data_response 0) { uuid = token_id } in
    record { hdr = h; contents = some [] }
