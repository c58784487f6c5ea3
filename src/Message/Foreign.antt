-- ===== src/Message/Foreign.antt =====
-- A message of core/message.go that is read as one of another type.
use envisilab.Base.{◌≡◌, ◌≢◌, refl, ap, ◌∙◌, ◌++◌, [], none, arith, Bytes}
use envisilab.Net.{NetConn, IsPipe}
use envisilab.Location.Laws.{location_bytes}
use envisilab.Message.Header.{Header}
use envisilab.Message.Laws.{header_bytes, read_header-pipe}
use envisilab.Message.Faults.{receive_wrong_type}
use envisilab.Message.DataRequest.{DataRequestMsg}
use envisilab.Message.DataRequest
use envisilab.Message.SyncResponse.{SyncResponseMsg}
use envisilab.Message.SyncResponse
use envisilab.Message.DataResponse.{DataResponseMsg}
use envisilab.Message.DataResponse
use envisilab.Message.RoundTrip.{with_length}
use envisilab.Message.RoundTrip.DataRequest.{IsDataRequest, write-data_request}

-- A data request with the program's mark, version and type and with fields in their widths comes in
-- where a sync response or a data response is expected, over a connection with nothing pending that
-- delivers whatever was written: `Read` of these two returns `nil`. Either message has the header of
-- the request and none of its payload, and the 32 bytes of the request's location are still unread, so
-- that the next `Read` finds them in place of a header.
pub read-write_foreign :
    (m : DataRequestMsg) (r : SyncResponseMsg) (a : DataResponseMsg) (c : NetConn) (p : IsPipe c)
    (s : c.State)
    → IsDataRequest m
    → p.pending s ≡ []
    → let (sent, (n, err, s1)) = DataRequest.write c m s in
      let (sync, s2) = SyncResponse.read c r s1 in
      let (response, s3) = DataResponse.read c a s1 in
      (sync ≡ (record r { hdr = sent.hdr }, none))
      × (p.pending s2 ≡ location_bytes m.location)
      × (response ≡ (record a { hdr = sent.hdr }, none))
      × (p.pending s3 ≡ location_bytes m.location)
unfolding SyncResponse.read SyncResponse.finish DataResponse.read DataResponse.finish
read-write_foreign m r a c p s v empty =
    let h : Header = record (m.hdr) { length = 32 } in
    let valid = with_length m.hdr 32 v.hdr (omega arith) in
    let bytes = header_bytes h ++ location_bytes m.location in
    let (s1, written, there) = p.write_all s bytes in
    let arrived : p.pending s1 ≡ bytes = there ∙ ap (λ (l : Bytes). l ++ bytes) empty in
    let (s2, head2, left2) =
      read_header-pipe c p h r.hdr s1 (location_bytes m.location) valid arrived in
    let (s3, head3, left3) =
      read_header-pipe c p h a.hdr s1 (location_bytes m.location) valid arrived in
    let ne2 : h.msg_type ≢ 2 = λ e. omega (arith, e, v.msg_type) in
    let ne4 : h.msg_type ≢ 4 = λ e. omega (arith, e, v.msg_type) in
    let sync = receive_wrong_type c 2 r.hdr h s1 s2 head2 ne2 in
    let response = receive_wrong_type c 4 a.hdr h s1 s3 head3 ne4 in
    rw (write-data_request m m v c s) (rw written (rw (sync, response) (refl, left2, refl, left3)))
