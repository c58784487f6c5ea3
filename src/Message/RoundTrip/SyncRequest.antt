-- ===== src/Message/RoundTrip/SyncRequest.antt =====
-- core/message.go: the round trip of `SyncRequestMsg`.
use mathlib.Core.List.{append_assoc}
use envisilab.Base.{◌≡◌, ◌++◌, [], none, arith, Bytes, length, length-append}
use envisilab.Net.{NetConn, IsPipe}
use envisilab.Location.Laws.{IsLocation, location_bytes, length-location_bytes}
use envisilab.Location
use envisilab.Location.Laws
use envisilab.Message.Header.{Header}
use envisilab.Message.Receive.{body}
use envisilab.Message.Laws.{IsHeader, header_bytes, serialize-append, receive-write}
use envisilab.Message.SyncRequest.{SyncRequestMsg}
use envisilab.Message.SyncRequest
use envisilab.Message.RoundTrip.{read_uuid, deserialize-bytes_last, with_length}

pub record IsSyncRequest (m : SyncRequestMsg) : Type 0 where
  pub hdr : IsHeader m.hdr
  pub msg_type : m.hdr.msg_type ≡ 1
  pub service_uuid : length m.service_uuid ≡ 16
  pub location : IsLocation m.location

module _ (m m0 : SyncRequestMsg) (v : IsSyncRequest m) where
  abbrev sent_sync_request : SyncRequestMsg
  sent_sync_request = record m { hdr = record (m.hdr) { length = 48 } }

  abbrev sync_request_payload : Bytes
  sync_request_payload = m.service_uuid ++ location_bytes m.location

  write-sync_request :
      (c : NetConn) (s : c.State)
      → SyncRequest.write c m s ≡ (
        sent_sync_request,
        c.write s (header_bytes sent_sync_request.hdr ++ sync_request_payload),
      )
  unfolding SyncRequest.write
  write-sync_request c s = simp (serialize-append, Location.Laws.serialize-append, append_assoc)

  finish-sync_request :
      SyncRequest.finish (record m0 { hdr = sent_sync_request.hdr }) (body sync_request_payload)
      ≡ (sent_sync_request, none)
  unfolding SyncRequest.finish
  finish-sync_request = simp (
    read_uuid m0.service_uuid m.service_uuid _ v.service_uuid,
    deserialize-bytes_last m.location m0.location v.location,
  )

  -- For a message with the program's mark, version and type, with fields in their widths and no float32
  -- that is a signalling NaN (which a `float64` does not keep), over a connection with nothing pending that delivers whatever was written: `Read` of a sync request
  -- returns what `Write` sent, 72 bytes with the length filled in, without an error and leaving
  -- nothing unread.
  pub read-write_sync_request :
      (c : NetConn) (p : IsPipe c) (s : c.State)
      → p.pending s ≡ []
      → let (sent, out) = SyncRequest.write c m s in
        let (got, s2) = SyncRequest.read c m0 out.2 in
        (got ≡ (record m { hdr = record (m.hdr) { length = 48 } }, none))
        × (got ≡ (sent, none))
        × (out.0 ≡ 72)
        × (out.1 ≡ none)
        × (p.pending s2 ≡ [])
  unfolding SyncRequest.read
  read-write_sync_request c p s e =
      let h : Header = sent_sync_request.hdr in
      let (n, err, s2, got, left) =
        receive-write c p 1 h m0.hdr s sync_request_payload v.msg_type
          (with_length m.hdr 48 v.hdr (omega arith))
          (omega (
            arith,
            length-append m.service_uuid (location_bytes m.location),
            length-location_bytes m.location,
            v.service_uuid,
          ))
          e in
      rw (write-sync_request c s) (rw got (finish-sync_request, finish-sync_request, n, err, left))
