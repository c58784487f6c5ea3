-- ===== src/Message/RoundTrip/SyncResponse.antt =====
-- core/message.go: the round trip of `SyncResponseMsg`.
use mathlib.Core.List.{append_assoc}
use envisilab.Base.{◌≡◌, ◌++◌, [], none, arith, Bytes, length, length-append}
use envisilab.Net.{NetConn, IsPipe}
use envisilab.Message.Header.{Header}
use envisilab.Message.Receive.{body}
use envisilab.Message.Laws.{IsHeader, header_bytes, serialize-append, receive-write}
use envisilab.Message.SyncResponse.{SyncResponseMsg}
use envisilab.Message.SyncResponse
use envisilab.Message.RoundTrip.{read_uuid, read_last_uuid, with_length}

pub record IsSyncResponse (m : SyncResponseMsg) : Type 0 where
  pub hdr : IsHeader m.hdr
  pub msg_type : m.hdr.msg_type ≡ 2
  pub service_uuid : length m.service_uuid ≡ 16
  pub token_id : length m.token_id ≡ 16

module _ (m m0 : SyncResponseMsg) (v : IsSyncResponse m) where
  abbrev sent_sync_response : SyncResponseMsg
  sent_sync_response = record m { hdr = record (m.hdr) { length = 32 } }

  abbrev sync_response_payload : Bytes
  sync_response_payload = m.service_uuid ++ m.token_id

  write-sync_response :
      (c : NetConn) (s : c.State)
      → SyncResponse.write c m s ≡ (
        sent_sync_response,
        c.write s (header_bytes sent_sync_response.hdr ++ sync_response_payload),
      )
  unfolding SyncResponse.write
  write-sync_response c s = simp (serialize-append, append_assoc)

  finish-sync_response :
      SyncResponse.finish (record m0 { hdr = sent_sync_response.hdr }) (body sync_response_payload)
      ≡ (sent_sync_response, none)
  unfolding SyncResponse.finish
  finish-sync_response = simp (
    read_uuid m0.service_uuid m.service_uuid _ v.service_uuid,
    read_last_uuid m0.token_id m.token_id v.token_id,
  )

  -- For a message with the program's mark, version and type and with fields in their widths, over a
  -- connection with nothing pending that delivers whatever was written: `Read` of a sync response
  -- returns what `Write` sent, 56 bytes with the length filled in, without an error and leaving
  -- nothing unread.
  pub read-write_sync_response :
      (c : NetConn) (p : IsPipe c) (s : c.State)
      → p.pending s ≡ []
      → let (sent, out) = SyncResponse.write c m s in
        let (got, s2) = SyncResponse.read c m0 out.2 in
        (got ≡ (record m { hdr = record (m.hdr) { length = 32 } }, none))
        × (got ≡ (sent, none))
        × (out.0 ≡ 56)
        × (out.1 ≡ none)
        × (p.pending s2 ≡ [])
  unfolding SyncResponse.read
  read-write_sync_response c p s e =
      let h : Header = sent_sync_response.hdr in
      let (n, err, s2, got, left) =
        receive-write c p 2 h m0.hdr s sync_response_payload v.msg_type
          (with_length m.hdr 32 v.hdr (omega arith))
          (omega (arith, length-append m.service_uuid m.token_id, v.token_id, v.service_uuid)) e in
      rw (write-sync_response c s)
        (rw got (finish-sync_response, finish-sync_response, n, err, left))
