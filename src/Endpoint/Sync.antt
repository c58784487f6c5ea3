-- ===== src/Endpoint/Sync.antt =====
-- core/http.go, `SyncHandler`: a client's first request, answered with a token.
pub mod Answers
use envisilab.Base.{
  ℕ, not, Option, none, some, ◌++◌, ◌==◌, nat_eq, list_eq, if◌then◌else◌, Bytes, Text, Error, text,
}
use envisilab.Base.Int.{ℤ}
use envisilab.Uuid.{Uuid}
use envisilab.Heap.{Heap}
use envisilab.Context.Interface.{ContextOps}
use envisilab.Endpoint.{Endpoint, in_sync, create_entity}
use envisilab.Endpoint.Http.{Response, silent, message_error, sync_response, bad_request, forbidden}

pub record SyncRequest : Type 0 where
  pub uuid : Text
  pub time : ℤ

-- What is read of an `http.Request`; `decode` is what encoding/json makes of its body.
pub record Request : Type 0 where
  pub method : Text
  pub content_type : Text
  pub decode : SyncRequest × Error

module _ {c : ContextOps} where
  -- What follows the parsing of the request. The result `none` is a panic.
  unfoldable pub sync_client :
      Uuid → Endpoint c → Heap → Bytes × Error → Bytes → Option (Response × (Endpoint c × Heap))
  sync_client u endpoint heap random client_uuid =
      elim (create_entity u endpoint heap random client_uuid 0) [
        | none ↦ none
        | some ((entity, entity_err), (endpoint', heap')) ↦ elim entity_err [
          | some e ↦ some (
            message_error (text "Sync: Failed to create entity: " ++ e) forbidden,
            (endpoint', heap'),
          )
          | none ↦ elim entity [
            | none ↦ none
            | some a ↦ some (
              sync_response (u.string (heap'.objects.entity a).token_id)
                  (heap'.objects.entity a).groups,
              (endpoint', heap'),
            )
          ]
        ]
      ]

  unfoldable pub sync_handler :
      Uuid
      → Endpoint c
      → Heap
      → Bytes × Error
      → ℤ
      → Request
      → Option (Response × (Endpoint c × Heap))
  unfolding sync_client
  sync_handler u endpoint heap random now req =
      let (post_data, err) = req.decode in
      let (client_uuid, uuid_err) = u.parse post_data.uuid in
      if not (req.method == text "POST")
      then some (silent, (endpoint, heap))
      else if not (req.content_type == text "application/json")
      then some (
        message_error (text "Sync: Not a valid JSON request (Content-Type)") bad_request,
        (endpoint, heap),
      )
      else elim err [
        | some e ↦ some (
          message_error (text "Sync: Invalid client sync request: " ++ e) bad_request,
          (endpoint, heap),
        )
        | none ↦
            if not (in_sync now post_data.time)
            then some (
              message_error (text "Sync: Client/Server time not synchronised") bad_request,
              (endpoint, heap),
            )
            else elim uuid_err [
              | some e ↦ some (
                message_error (text "Sync: Failed to parse clientUUID: " ++ e) bad_request,
                (endpoint, heap),
              )
              | none ↦ sync_client u endpoint heap random client_uuid
            ]
      ]
