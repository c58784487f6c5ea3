-- ===== src/Client/Tokenless.antt =====
-- The answer that client/client.go takes for a token.
use envisilab.Base.{◌≡◌, ◌≢◌, true, Bool, Option, none, nat_eq, list_eq, eq_iff, arith, Bytes, Text}
use envisilab.Net.{NetConn}
use envisilab.Message.Header.{Header, read_header, zero_header, nil_uuid}
use envisilab.Message.SyncRequest
use envisilab.Message.SyncResponse
use envisilab.Message.Faults.{receive_wrong_type}
use envisilab.Client.{Client, no_sync_response, sync_round}

module _ (client_uuid service_uuid : Bytes) (marshal : Option Bytes → Option Text) (profiled : Bool)
    (c : NetConn) where
  read_other_type :
      (h : Header) (s s' : c.State)
      → read_header c zero_header s ≡ (h, none, s')
      → h.msg_type ≢ 2
      → SyncResponse.read c no_sync_response s ≡ ((record no_sync_response { hdr = h }, none), s')
  unfolding SyncResponse.read SyncResponse.finish
  read_other_type h s s' e ne = rw (receive_wrong_type c 2 zero_header h s s' e ne)

  -- A message of any other type whose header names the client, in answer to its request: the client
  -- counts itself as connected, with the nil token, since `Read` returns no error for such a message.
  pub sync_round_tokenless :
      (client : Client) (h : Header) (s s' : c.State)
      → let (req, (n, err, s1)) =
          SyncRequest.write c (SyncRequest.make client_uuid service_uuid client.loc) s in
        read_header c zero_header s1 ≡ (h, none, s')
        → h.msg_type ≢ 2
        → h.uuid ≡ client_uuid
        → let (flow, client', s2) =
            sync_round client_uuid service_uuid marshal profiled c client s in
          (client'.connected ≡ true) × (client'.token_id ≡ nil_uuid) × (s2 ≡ s')
  unfolding sync_round SyncRequest.write SyncRequest.make
  sync_round_tokenless client h s s' e ne names =
      ground (arith, read_other_type h _ s' e ne, eq_iff h.uuid client_uuid)
