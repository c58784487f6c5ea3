-- ===== src/Message/Receive.antt =====
-- What the four `Read` methods of core/message.go begin with: the header, the test of the message's
-- type, and the payload.
use envisilab.Base.{ℕ, ◌||◌, not, ◌==◌, nat_eq, if◌then◌else◌, is_some, Bytes, Error}
use envisilab.Net.{NetConn, fill}
use envisilab.Message.Header.{Header, read_header}

-- The method returns with an error, which may be `nil`; or it goes on with the payload.
pub data Payload : Type 0 where
  stop : Error → Payload
  body : Bytes → Payload

-- `ReadHeader`, then `make([]byte, m.Hdr.Length)` and one `Read` into it.
unfoldable pub receive :
    (c : NetConn) → (msg_type : ℕ) → Header → c.State → Header × Payload × c.State
receive c msg_type hdr s =
    let (hdr', err, s') = read_header c hdr s in
    if is_some err || not (hdr'.msg_type == msg_type)
    then (hdr', stop err, s')
    else let (num_read, msg_bytes, err', s'') = fill c s' hdr'.length in
      if is_some err' then (hdr', stop err', s'') else (hdr', body msg_bytes, s'')
