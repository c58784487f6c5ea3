-- ===== src/Endpoint/UserData.antt =====
-- core/http.go: `handleUserData`, which takes a client's location, and the handlers that start with it,
-- `StandbyHandler` and `BeaconHandler`.
pub mod Accepted
use envisilab.Base.{
  ℕ, not, Option, none, some, ◌++◌, ◌==◌, nat_eq, list_eq, if◌then◌else◌, Bytes, Text, Error, text,
}
use envisilab.Base.Int.{ℤ}
use envisilab.Uuid.{Uuid}
use envisilab.Location.{Location}
use envisilab.Cell.{S2, Cell}
use envisilab.Heap.{Heap, update_at}
use envisilab.Context.Interface.{ContextOps}
use envisilab.Endpoint.{Endpoint, in_sync, get_entity}
use envisilab.Endpoint.Http.{Response, silent, message_error, bad_request}

-- core/activity.go.
pub record UserData : Type 0 where
  pub client_id : Text
  pub location : Location

-- What is read of an `http.Request`: mux gives the token, and `decode` is what encoding/json makes of
-- the body.
pub record Request : Type 0 where
  pub method : Text
  pub content_type : Text
  pub token_id : Text
  pub decode : Location × Error

-- The result of `handleUserData`, what it wrote, and the cell that the entity's subscription is
-- offered.
pub record Handled : Type 0 where
  pub user_data : Option UserData
  pub response : Response
  pub sent : Option Cell
  pub heap : Heap

abbrev pub refuse : Heap → Response → Option Handled
refuse heap response =
    some (record { user_data = none; response = response; sent = none; heap = heap })

-- A method of the context on an entity and a message.
abbrev pub Act : ContextOps → Type 0
Act c = c.State → Heap → ℤ → ℕ → Bytes → Option (Error × c.State × Heap)

-- What is written, the cell that the entity's subscription is offered, and the state afterwards. The
-- result `none` is a panic.
abbrev pub Outcome : ContextOps → Type 0
Outcome c = Option (Response × Option Cell × (Endpoint c × Heap))

-- `marshal` is encoding/json on the user data.
module _ (u : Uuid) (s2 : S2) (grow : ℕ → ℕ) (marshal : UserData → Bytes × Error) where
  -- The entity's fields are read behind the tests of the request: on `nil` that is a panic.
  unfoldable pub handle_user_data : ℤ → Heap → Option ℕ → Request → Option Handled
  handle_user_data now heap entity req =
      let (location, err) = req.decode in
      if not (req.method == text "POST")
      then refuse heap silent
      else if not (req.content_type == text "application/json")
      then refuse heap
          (message_error (text "Beacon: Not a valid JSON request (Content-Type)") bad_request)
      else elim entity [
        | none ↦ none
        | some a ↦ elim err [
          | some e ↦
              refuse heap
                (message_error (text "Beacon: Invalid beacon location: " ++ e) bad_request)
          | none ↦
              if not (in_sync now location.timestamp)
              then refuse heap
                  (message_error (text "Beacon: Client/Server time not synchronised") bad_request)
              else (let (sent, heap') = update_at s2 grow heap a location in
                  some (record {
                    user_data = some (record {
                      client_id = u.string (heap.objects.entity a).client_id;
                      location = location;
                    });
                    response = silent;
                    sent = sent;
                    heap = heap';
                  }))
        ]
      ]

  -- The two handlers: they differ in their texts and in the method of the context at their end.
  module _ {c : ContextOps} where
    -- The end of both handlers, for user data that was accepted.
    unfoldable pub act_on :
        Act c → Text → Endpoint c → ℤ → Option ℕ → Option Cell → Heap → UserData → Outcome c
    act_on act failed endpoint now entity sent heap user_data =
        let (user_msg, lerr) = marshal user_data in
        elim lerr [
          | some e ↦ some (
            message_error (text "Beacon: Failure generating user data: " ++ e) bad_request,
            sent,
            (endpoint, heap),
          )
          | none ↦ elim entity [
            | none ↦ none
            | some a ↦ elim (act endpoint.ctx heap now a user_msg) [
              | none ↦ none
              | some (err, ctx, heap') ↦
                  let response : Response = elim err [
                    | none ↦ silent
                    | some e ↦ message_error (failed ++ e) bad_request
                  ] in
                  some (response, sent, (record endpoint { ctx = ctx }, heap'))
            ]
          ]
        ]

    unfoldable pub with_user_data :
        Act c → Text → Text → Endpoint c → Heap → ℤ → Request → Outcome c
    unfolding act_on
    with_user_data act unknown failed endpoint heap now req =
        let (entity, err) = get_entity endpoint req.token_id in
        elim err [
          | some e ↦ some (message_error (unknown ++ e) bad_request, none, (endpoint, heap))
          | none ↦ elim (handle_user_data now heap entity req) [
            | none ↦ none
            | some h ↦ elim h.user_data [
              | none ↦ some (h.response, h.sent, (endpoint, h.heap))
              | some ud ↦ act_on act failed endpoint now entity h.sent h.heap ud
            ]
          ]
        ]

    unfoldable pub standby_handler : Endpoint c → Heap → ℤ → Request → Outcome c
    unfolding with_user_data
    standby_handler =
        with_user_data c.standby (text "Standby: Failed to get entity: ") (text "Standby error: ")

    unfoldable pub beacon_handler : Endpoint c → Heap → ℤ → Request → Outcome c
    unfolding with_user_data
    beacon_handler =
        with_user_data c.broadcast (text "Beacon: Failed to get entity: ")
          (text "Broadcast error: ")
