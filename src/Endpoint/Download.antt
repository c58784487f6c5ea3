-- ===== src/Endpoint/Download.antt =====
-- core/http.go, `DownloadHandler`: the data of a token.
pub mod Invalid
use envisilab.Base.{
  ℕ, not, Option, none, some, ◌==◌, ◌++◌, nat_eq, list_eq, if◌then◌else◌, List, [], ◌∷◌, Bytes,
  Text, Error, text,
}
use envisilab.Uuid.{Uuid}
use envisilab.Context.{Activity}
use envisilab.Context.Interface.{ContextOps}
use envisilab.Endpoint.{Endpoint}
use envisilab.Endpoint.Http.{
  Response, message_error, activity_text, bad_request, not_acceptable, internal_server_error,
}

-- `marshal` is encoding/json on the activity.
module _ (u : Uuid) (marshal : Activity → Bytes × Error) {c : ContextOps} where
  -- What is written after the token was parsed.
  unfoldable pub send_activity : Endpoint c → Bytes → Option (Response × Endpoint c)
  send_activity endpoint token_id = elim (c.get_data endpoint.ctx token_id) [
    | none ↦ none
    | some ((activity, err), ctx) ↦
        let endpoint' : Endpoint c = record endpoint { ctx = ctx } in
        let (js, js_err) = marshal activity in
        elim err [
          | some e ↦ some (message_error e not_acceptable, endpoint')
          | none ↦ elim js_err [
            | some e ↦ some (message_error e internal_server_error, endpoint')
            | none ↦ some (activity_text js, endpoint')
          ]
        ]
  ]

  -- What is written, in order. Nothing ends the handler behind the message on a token that is no UUID.
  unfoldable pub download_handler : Endpoint c → Text → Text → Option (List Response × Endpoint c)
  unfolding send_activity
  download_handler endpoint method token_id =
      if not (method == text "GET")
      then some ([], endpoint)
      else (let (token_uuid, uuid_err) = u.parse token_id in
          let invalid : List Response = elim uuid_err [
            | none ↦ []
            | some e ↦ message_error e bad_request ∷ []
          ] in
          elim (send_activity endpoint token_uuid) [
            | none ↦ none
            | some (response, endpoint') ↦ some (invalid ++ response ∷ [], endpoint')
          ])
