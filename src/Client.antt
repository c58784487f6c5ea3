-- ===== src/Client.antt =====
-- client/client.go: a client of the binary protocol, which syncs with the server and then sends its
-- location once a second. What it logs and the profiles that it writes are left out.
pub mod Round
pub mod Trace
pub mod Tokenless
use envisilab.Base.{
  ℕ, zero, suc, Bool, true, false, ◌&&◌, Option, none, some, is_some, ◌==◌, nat_eq, list_eq,
  if◌then◌else◌, List, [], ◌∷◌, Bytes, Text, Error,
}
use envisilab.Base.Int.{ℤ}
use envisilab.Net.{NetConn}
use envisilab.Wire.{binary_read, from_be}
use envisilab.Location.{Location}
use envisilab.Message.Header.{nil_uuid, zero_header}
use envisilab.Message.SyncRequest
use envisilab.Message.SyncResponse.{SyncResponseMsg}
use envisilab.Message.SyncResponse
use envisilab.Message.DataRequest
use envisilab.Message.DataResponse.{DataResponseMsg}
use envisilab.Message.DataResponse

-- The variables of `main` that a round of its inner loop reads or writes.
pub record Client : Type 0 where
  pub token_id : Bytes
  pub connected : Bool
  pub loc : Location
  pub count : ℕ

-- How a round ends: with the next one, behind the inner loop, or in a panic.
pub data Flow : Type 0 where
  again left panicked : Flow

abbrev pub no_sync_response : SyncResponseMsg
no_sync_response = record { hdr = zero_header; service_uuid = nil_uuid; token_id = nil_uuid }

abbrev pub no_data_response : DataResponseMsg
no_data_response = record { hdr = zero_header; contents = none }

-- A connection is dialled, and it is given up.
unfoldable pub dialled : Client → Client
dialled client = record client { count = 0 }

unfoldable pub hung_up : Client → Client
hung_up client = record client { connected = false }

-- The loop of `marshalData`. `activity_from_buffer` is a function that core does not have.
module _ {ℓ} {A : Type ℓ} (activity_from_buffer : Bytes → A × Bytes) where
  unfoldable pub activities : ℕ → Bytes → List A
  activities zero data' = []
  activities (suc i) data' =
      let (activity, rest) = activity_from_buffer data' in activity ∷ activities i rest

  -- `marshal_indent` is `json.MarshalIndent`; its error is printed. The error of reading the count is
  -- dropped. A read from the `nil` buffer is a panic, `none`.
  unfoldable pub marshal_data : (List A → Text × Error) → Option Bytes → Option Text
  unfolding activities
  marshal_data marshal_indent none = none
  marshal_data marshal_indent (some data') =
      let (num, rest, err) = binary_read 4 from_be 0 data' in
      let (js, err') = marshal_indent (activities num rest) in
      some (if is_some err' then [] else js)

-- `marshal` is `marshal_data`; `profiled` is the test of the flag "memprofile".
module _ (client_uuid service_uuid : Bytes) (marshal : Option Bytes → Option Text) (profiled : Bool)
    (c : NetConn) where
  -- The end of the inner loop's body.
  unfoldable pub count_round : Client → Flow × Client
  count_round client =
      let count = suc client.count in
      if count == 60 && profiled
      then (left, record client { count = 0 })
      else (again, record client { count = count })

  -- A request for a token. The error of `Write` is only logged.
  unfoldable pub sync_round : Client → c.State → Flow × Client × c.State
  unfolding count_round
  sync_round client s =
      let req = SyncRequest.make client_uuid service_uuid client.loc in
      let (req', (n, write_err, s1)) = SyncRequest.write c req s in
      let ((res, err), s2) = SyncResponse.read c no_sync_response s1 in
      if is_some err
      then (left, client, s2)
      else (let synced : Client =
            if res.hdr.uuid == req'.hdr.uuid
            then record client { token_id = res.token_id; connected = true }
            else client in
          let (flow, client') = count_round synced in (flow, client', s2))

  -- A location. `now` is `time.Now().Unix()`.
  unfoldable pub data_round : ℤ → Client → c.State → Flow × Client × c.State
  unfolding count_round
  data_round now client s =
      let loc : Location = record (client.loc) { timestamp = now } in
      let client1 : Client = record client { loc = loc } in
      let req = DataRequest.make client.token_id loc in
      let (req', (n, write_err, s1)) = DataRequest.write c req s in
      let ((res, err), s2) = DataResponse.read c no_data_response s1 in
      if is_some write_err
      then (left, client1, s1)
      else if is_some err
      then (left, client1, s2)
      else elim (marshal res.contents) [
        | none ↦ (panicked, client1, s2)
        | some sd ↦ let (flow, client') = count_round client1 in (flow, client', s2)
      ]

  unfoldable pub client_round : ℤ → Client → c.State → Flow × Client × c.State
  unfolding sync_round data_round
  client_round now client s =
      if client.connected then data_round now client s else sync_round client s
