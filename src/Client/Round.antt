-- ===== src/Client/Round.antt =====
-- What a round of client/client.go writes to its connection.
use mathlib.Core.List.{append_assoc}
use envisilab.Base.{
  ℕ, ◌≡◌, refl, ap, ◌∙◌, Bool, true, false, Option, none, nat_eq, list_eq, eq_iff, ◌++◌, arith,
  Bytes, Text, Error,
}
use envisilab.Base.Int.{ℤ}
use envisilab.Net.{NetConn, fill}
use envisilab.Location.{Location}
use envisilab.Location.Laws.{location_bytes}
use envisilab.Location.Laws
use envisilab.Message.Header.{Header, make_header, read_header}
use envisilab.Message.Laws.{header_bytes, serialize-append}
use envisilab.Message.Receive.{receive}
use envisilab.Message.SyncRequest
use envisilab.Message.SyncResponse.{SyncResponseMsg}
use envisilab.Message.SyncResponse
use envisilab.Message.DataRequest
use envisilab.Message.DataResponse.{DataResponseMsg}
use envisilab.Message.DataResponse
use envisilab.Client.{
  Client, no_sync_response, no_data_response, count_round, sync_round, data_round,
}

-- A connection with the bytes that were written to it.
pub record IsLogged (c : NetConn) : Type 0 where
  pub log : c.State → Bytes
  pub write_logs : (s : c.State) (bs : Bytes) → log (c.write s bs).2 ≡ log s ++ bs
  pub read_logs : (s : c.State) (n : ℕ) → log (c.read s n).2 ≡ log s

-- The two requests on the wire.
abbrev pub request_header : ℕ → Bytes → ℕ → Header
request_header t uuid length = record {
  magic = 101;
  version = 1;
  msg_type = t;
  user_agent = 0;
  uuid = uuid;
  length = length;
}

abbrev pub sync_bytes : Bytes → Bytes → Location → Bytes
sync_bytes client_uuid service_uuid loc =
    header_bytes (request_header 1 client_uuid 48) ++ (service_uuid ++ location_bytes loc)

abbrev pub data_bytes : Bytes → Location → Bytes
data_bytes token loc = header_bytes (request_header 3 token 32) ++ location_bytes loc

write-sync_bytes :
    (c : NetConn) (client_uuid service_uuid : Bytes) (loc : Location) (s : c.State)
    → let out = SyncRequest.write c (SyncRequest.make client_uuid service_uuid loc) s in
      (out.1 ≡ c.write s (sync_bytes client_uuid service_uuid loc)) × (out.0.hdr.uuid ≡ client_uuid)
unfolding SyncRequest.write SyncRequest.make make_header
write-sync_bytes c client_uuid service_uuid loc s =
    (simp (serialize-append, Laws.serialize-append, append_assoc), refl)

write-data_bytes :
    (c : NetConn) (token : Bytes) (loc : Location) (s : c.State)
    → (DataRequest.write c (DataRequest.make token loc) s).1 ≡ c.write s (data_bytes token loc)
unfolding DataRequest.write DataRequest.make make_header
write-data_bytes c token loc s = simp (serialize-append, Laws.serialize-append, append_assoc)

module _ (c : NetConn) (l : IsLogged c) where
  log-receive : (t : ℕ) (hdr : Header) (s : c.State) → l.log (receive c t hdr s).2 ≡ l.log s
  unfolding receive read_header fill
  log-receive t hdr s =
      ground (arith, l.read_logs s 24, l.read_logs (c.read s 24).2 (read_header c hdr s).0.length)

  log-read_sync : (r : SyncResponseMsg) (s : c.State) → l.log (SyncResponse.read c r s).1 ≡ l.log s
  unfolding SyncResponse.read
  log-read_sync r s = log-receive 2 r.hdr s

  log-read_data : (r : DataResponseMsg) (s : c.State) → l.log (DataResponse.read c r s).1 ≡ l.log s
  unfolding DataResponse.read
  log-read_data r s = log-receive 4 r.hdr s

-- A token that came as the answer to a request of the client, under its UUID.
pub record IsAnswer (c : NetConn) (client_uuid token : Bytes) : Type 0 where
  pub before : c.State
  pub after : c.State
  pub answer : SyncResponseMsg
  pub arrived : SyncResponse.read c no_sync_response before ≡ ((answer, none), after)
  pub addressed : answer.hdr.uuid ≡ client_uuid
  pub named : answer.token_id ≡ token

module _ (client_uuid service_uuid : Bytes) (marshal : Option Bytes → Option Text) (profiled : Bool)
    (c : NetConn) (l : IsLogged c) where
  -- A round of a client without a token: it asks for one, and has one only by an answer.
  pub sync_round_writes :
      (client : Client) (s : c.State)
      → let (flow, client', s') = sync_round client_uuid service_uuid marshal profiled c client s in
        (l.log s' ≡ l.log s ++ sync_bytes client_uuid service_uuid client.loc)
        × (client'.loc ≡ client.loc)
        × (client.connected ≡ false
            → client'.connected ≡ true
            → IsAnswer c client_uuid client'.token_id)
  unfolding sync_round count_round
  sync_round_writes client s =
      let out = SyncRequest.write c (SyncRequest.make client_uuid service_uuid client.loc) s in
      let (written, uuid) = write-sync_bytes c client_uuid service_uuid client.loc s in
      let s1 = out.1.2 in
      let res = SyncResponse.read c no_sync_response s1 in
      let put : l.log s1 ≡ l.log s ++ sync_bytes client_uuid service_uuid client.loc =
        ap (λ (o : ℕ × Error × c.State). l.log o.2) written
        ∙ l.write_logs s (sync_bytes client_uuid service_uuid client.loc) in
      (
        ground (arith, put, log-read_sync c l no_sync_response s1),
        ground arith,
        λ off on. record {
          before = s1;
          after = res.1;
          answer = res.0.0;
          arrived = ground (arith, off, on);
          addressed = ground (arith, off, on, uuid, eq_iff res.0.0.hdr.uuid out.0.hdr.uuid);
          named = ground (arith, off, on);
        },
      )

  -- A round of a client with a token: its location at that time goes out under the token.
  pub data_round_writes :
      (now : ℤ) (client : Client) (s : c.State)
      → let (flow, client', s') =
          data_round client_uuid service_uuid marshal profiled c now client s in
        (l.log s' ≡ l.log s ++ data_bytes client.token_id (record (client.loc) { timestamp = now }))
        × (client'.loc ≡ record (client.loc) { timestamp = now })
        × (client'.connected ≡ client.connected)
        × (client'.token_id ≡ client.token_id)
  unfolding data_round count_round
  data_round_writes now client s =
      let loc : Location = record (client.loc) { timestamp = now } in
      let out = DataRequest.write c (DataRequest.make client.token_id loc) s in
      let written = write-data_bytes c client.token_id loc s in
      let s1 = out.1.2 in
      let put : l.log s1 ≡ l.log s ++ data_bytes client.token_id loc =
        ap (λ (o : ℕ × Error × c.State). l.log o.2) written
        ∙ l.write_logs s (data_bytes client.token_id loc) in
      (
        ground (arith, put, log-read_data c l no_data_response s1),
        ground arith,
        ground arith,
        ground arith,
      )
