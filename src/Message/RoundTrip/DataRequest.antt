-- ===== src/Message/RoundTrip/DataRequest.antt =====
-- core/message.go: the round trip of `DataRequestMsg`.
use mathlib.Core.List.{append_assoc}
use envisilab.Base.{◌≡◌, ◌++◌, [], none, arith, Bytes}
use envisilab.Net.{NetConn, IsPipe}
use envisilab.Location.Laws.{IsLocation, location_bytes, length-location_bytes}
use envisilab.Location
use envisilab.Location.Laws
use envisilab.Message.Header.{Header}
use envisilab.Message.Receive.{body}
use envisilab.Message.Laws.{IsHeader, header_bytes, serialize-append, receive-write}
use envisilab.Message.DataRequest.{DataRequestMsg}
use envisilab.Message.DataRequest
use envisilab.Message.RoundTrip.{deserialize-bytes_last, with_length}

pub record IsDataRequest (m : DataRequestMsg) : Type 0 where
  pub hdr : IsHeader m.hdr
  pub msg_type : m.hdr.msg_type ≡ 3
  pub location : IsLocation m.location

module _ (m m0 : DataRequestMsg) (v : IsDataRequest m) where
  abbrev pub sent_data_request : DataRequestMsg
  sent_data_request = record m { hdr = record (m.hdr) { length = 32 } }

  abbrev pub data_request_payload : Bytes
  data_request_payload = location_bytes m.location

  pub write-data_request :
      (c : NetConn) (s : c.State)
      → DataRequest.write c m s ≡ (
        sent_data_request,
        c.write s (header_bytes sent_data_request.hdr ++ data_request_payload),
      )
  unfolding DataRequest.write
  write-data_request c s = simp (serialize-append, Location.Laws.serialize-append, append_assoc)

  finish-data_request :
      DataRequest.finish (record m0 { hdr = sent_data_request.hdr }) (body data_request_payload)
      ≡ (sent_data_request, none)
  unfolding DataRequest.finish
  finish-data_request = simp (deserialize-bytes_last m.location m0.location v.location)

  -- For a message with the program's mark, version and type, with fields in their widths and no float32
  -- that is a signalling NaN (which a `float64` does not keep), over a connection with nothing pending that delivers whatever was written: `Read` of a data request
  -- returns what `Write` sent, 56 bytes with the length filled in, without an error and leaving
  -- nothing unread.
  pub read-write_data_request :
      (c : NetConn) (p : IsPipe c) (s : c.State)
      → p.pending s ≡ []
      → let (sent, out) = DataRequest.write c m s in
        let (got, s2) = DataRequest.read c m0 out.2 in
        (got ≡ (record m { hdr = record (m.hdr) { length = 32 } }, none))
        × (got ≡ (sent, none))
        × (out.0 ≡ 56)
        × (out.1 ≡ none)
        × (p.pending s2 ≡ [])
  unfolding DataRequest.read
  read-write_data_request c p s e =
      let h : Header = sent_data_request.hdr in
      let (n, err, s2, got, left) =
        receive-write c p 3 h m0.hdr s data_request_payload v.msg_type
          (with_length m.hdr 32 v.hdr (omega arith))
          (omega (arith, length-location_bytes m.location)) e in
      rw (write-data_request c s) (rw got (finish-data_request, finish-data_request, n, err, left))
