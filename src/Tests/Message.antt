-- ===== src/Tests/Message.antt =====
-- core/message.go over a connection in memory.
use envisilab.Base.{ℕ, ◌<◌, ◌≡◌, refl, none, some, [], ◌∷◌, arith, Bytes, Error, replicate}
use envisilab.Base.Int.{pos}
use envisilab.Location.{through_float64, Location}
use envisilab.Location.Laws.{IsLocation, location_bytes}
use envisilab.Message.Header.{Header, zero_header, nil_uuid}
use envisilab.Message.Laws.{IsHeader}
use envisilab.Message.SyncRequest.{SyncRequestMsg}
use envisilab.Message.SyncRequest
use envisilab.Message.SyncResponse.{SyncResponseMsg}
use envisilab.Message.SyncResponse
use envisilab.Message.DataResponse.{DataResponseMsg}
use envisilab.Message.DataResponse
use envisilab.Message.RoundTrip.SyncRequest.{IsSyncRequest, read-write_sync_request}
use envisilab.Message.RoundTrip.SyncResponse.{IsSyncResponse, read-write_sync_response}
use envisilab.Message.RoundTrip.DataResponse.{IsDataResponse, read-write_data_response}
use envisilab.Message.DataRequest.{DataRequestMsg}
use envisilab.Message.DataRequest
use envisilab.Message.RoundTrip.DataRequest.{IsDataRequest}
use envisilab.Message.Foreign.{read-write_foreign}
use envisilab.Tests.Instances.{buffer, buffer-IsPipe}

abbrev pub some_uuid : Bytes
some_uuid = replicate 16 7

abbrev pub header : ℕ → Header
header t = record {
  magic = 101;
  version = 1;
  msg_type = t;
  user_agent = 2;
  uuid = some_uuid;
  length = 0;
}

pub header-IsHeader : (t : ℕ) → t < 256 → IsHeader (header t)
header-IsHeader t h = record {
  magic = refl;
  version = refl;
  msg_type = h;
  user_agent = omega arith;
  uuid = refl;
  length = omega arith;
}

abbrev pub place : Location
place = record { lat = 51; lng = 9; alt = 3; heading = 4; timestamp = pos 1500000000 }

pub place-IsLocation : IsLocation place
unfolding through_float64
place-IsLocation = record {
  lat = omega arith;
  lng = omega arith;
  alt = omega arith;
  heading = omega arith;
  alt_kept = refl;
  heading_kept = refl;
  timestamp = omega arith;
}

abbrev sync_request : SyncRequestMsg
sync_request = record { hdr = header 1; service_uuid = some_uuid; location = place }

sync_request-IsSyncRequest : IsSyncRequest sync_request
sync_request-IsSyncRequest = record {
  hdr = header-IsHeader 1 (omega arith);
  msg_type = refl;
  service_uuid = refl;
  location = place-IsLocation;
}

abbrev no_request : SyncRequestMsg
no_request = record { hdr = zero_header; service_uuid = nil_uuid; location = place }

read-write_sync_request_example :
    (let (sent, out) = SyncRequest.write buffer sync_request [] in
      let (got, s2) = SyncRequest.read buffer no_request out.2 in
      (got ≡ (record sync_request { hdr = record (header 1) { length = 48 } }, none))
      × (got ≡ (sent, none))
      × (out.0 ≡ 72)
      × (out.1 ≡ none)
      × (s2 ≡ []))
read-write_sync_request_example =
    read-write_sync_request sync_request no_request sync_request-IsSyncRequest buffer buffer-IsPipe
      [] refl

abbrev sync_response : SyncResponseMsg
sync_response = record { hdr = header 2; service_uuid = some_uuid; token_id = replicate 16 9 }

sync_response-IsSyncResponse : IsSyncResponse sync_response
sync_response-IsSyncResponse = record {
  hdr = header-IsHeader 2 (omega arith);
  msg_type = refl;
  service_uuid = refl;
  token_id = refl;
}

abbrev pub no_response : SyncResponseMsg
no_response = record { hdr = zero_header; service_uuid = nil_uuid; token_id = nil_uuid }

read-write_sync_response_example :
    (let (sent, out) = SyncResponse.write buffer sync_response [] in
      let (got, s2) = SyncResponse.read buffer no_response out.2 in
      (got ≡ (record sync_response { hdr = record (header 2) { length = 32 } }, none))
      × (got ≡ (sent, none))
      × (out.0 ≡ 56)
      × (out.1 ≡ none)
      × (s2 ≡ []))
read-write_sync_response_example =
    read-write_sync_response sync_response no_response sync_response-IsSyncResponse buffer
      buffer-IsPipe [] refl

abbrev pub data_response : DataResponseMsg
data_response = record { hdr = header 4; contents = some (1 ∷ 2 ∷ 3 ∷ []) }

data_response-IsDataResponse : IsDataResponse data_response (1 ∷ 2 ∷ 3 ∷ [])
data_response-IsDataResponse = record {
  hdr = header-IsHeader 4 (omega arith);
  msg_type = refl;
  contents = refl;
  fits = omega arith;
}

abbrev no_data : DataResponseMsg
no_data = record { hdr = zero_header; contents = none }

abbrev data_response_sent : DataResponseMsg
data_response_sent = record data_response { hdr = record (header 4) { length = 3 } }

read-write_data_response_example :
    (n : ℕ) × (err : Error) × (s1 : Bytes) × (DataResponse.write buffer data_response []
      ≡ some (data_response_sent, (n, err, s1)))
    × (n ≡ 27)
    × (err ≡ none)
    × ((DataResponse.read buffer no_data s1).0 ≡ (data_response_sent, none))
    × ((DataResponse.read buffer no_data s1).1 ≡ [])
read-write_data_response_example =
    read-write_data_response data_response no_data (1 ∷ 2 ∷ 3 ∷ []) data_response-IsDataResponse
      buffer buffer-IsPipe [] refl

abbrev request : DataRequestMsg
request = record { hdr = header 3; location = place }

request-IsDataRequest : IsDataRequest request
request-IsDataRequest = record {
  hdr = header-IsHeader 3 (omega arith);
  msg_type = refl;
  location = place-IsLocation;
}

read-write_foreign_example :
    (let (sent, (n, err, s1)) = DataRequest.write buffer request [] in
      let (sync, s2) = SyncResponse.read buffer no_response s1 in
      let (response, s3) = DataResponse.read buffer no_data s1 in
      (sync ≡ (record no_response { hdr = sent.hdr }, none))
      × (s2 ≡ location_bytes place)
      × (response ≡ (record no_data { hdr = sent.hdr }, none))
      × (s3 ≡ location_bytes place))
read-write_foreign_example =
    read-write_foreign request no_response no_data buffer buffer-IsPipe [] request-IsDataRequest
      refl
