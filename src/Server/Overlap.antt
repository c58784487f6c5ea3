-- ===== src/Server/Overlap.antt =====
-- Requests that overlap: net/http runs each handler of core/http.go in a goroutine of its own, and the
-- lock of the endpoint guards only its map. A request goes through stages; between two of its stages
-- any other request may have its turn.
pub mod Sequential
pub mod Invariant
pub mod Turns
pub mod Reachable
pub mod Answered
pub mod Schedule
pub mod Finishes
pub mod Race
use envisilab.Base.{
  ℕ, zero, suc, ◌+◌, not, Bool, Option, none, some, List, [], ◌∷◌, ◌++◌, ◌==◌, nat_eq, list_eq,
  if◌then◌else◌, Bytes, Text, Error, text,
}
use envisilab.Base.Int.{ℤ}
use envisilab.Base.Dict
use envisilab.Uuid.{Uuid}
use envisilab.Cell.{Cell}
use envisilab.Heap.{Heap}
use envisilab.Context.Interface.{ContextOps}
use envisilab.Endpoint.{Endpoint, in_sync, get_entity}
use envisilab.Endpoint.Http.{Response, silent, message_error, sync_response, bad_request, forbidden}
use envisilab.Endpoint.Sync
use envisilab.Endpoint.UserData.{Act, handle_user_data}
use envisilab.Server.{
  Outside, Handler, sync, standby, beacon, data_channel, download, Arrival, Answer, Server, answer,
  sync_request, user_request, handle,
}

-- Where a request stands. A sync has its token, and then its entity, which is not in the map yet; a
-- beacon or a standby has its entity, and then the message to act with and the cell that was offered.
pub data Stage (o : Outside) : Type 0 where
  arrived : Stage o
  tokened : Bytes → Stage o
  made : Bytes → Option ℕ → Stage o
  found : Option ℕ → Stage o
  moved : Option ℕ → Bytes → Option Cell → Stage o
  finished : Answer o → Stage o

-- The tests at the start of `SyncHandler`: what is answered where one fails.
unfoldable pub refused : Uuid → ℤ → Sync.Request → Option Response
refused u now req =
    let (post_data, err) = req.decode in
    let (client_uuid, uuid_err) = u.parse post_data.uuid in
    if not (req.method == text "POST")
    then some silent
    else if not (req.content_type == text "application/json")
    then some (message_error (text "Sync: Not a valid JSON request (Content-Type)") bad_request)
    else elim err [
      | some e ↦ some (message_error (text "Sync: Invalid client sync request: " ++ e) bad_request)
      | none ↦
          if not (in_sync now post_data.time)
          then some (message_error (text "Sync: Client/Server time not synchronised") bad_request)
          else elim uuid_err [
            | some e ↦
                some (message_error (text "Sync: Failed to parse clientUUID: " ++ e) bad_request)
            | none ↦ none
          ]
    ]

abbrev pub not_created : Text → Response
not_created e = message_error (text "Sync: Failed to create entity: " ++ e) forbidden

-- What a standby or a beacon asks of its context, and its message where that fails.
abbrev pub acting : (c : ContextOps) → Handler → Act c
acting c standby = c.standby
acting c _ = c.broadcast

abbrev pub acting_failed : Handler → Text
acting_failed standby = text "Standby error: "
acting_failed _ = text "Broadcast error: "

module _ (o : Outside) {c : ContextOps} where
  abbrev pub done : Response → Option Cell → Server c → Option (Stage o × Server c)
  done r offered server = some (finished (answer o (r ∷ []) offered), server)

  -- A new token, in the server of Redis.
  unfoldable pub draw_token : Server c → Arrival o → Option (Stage o × Server c)
  draw_token server req =
      let client_uuid = (o.uuid.parse (sync_request o req).decode.0.uuid).0 in
      let (token, err, ctx) = c.create_token server.endpoint.ctx req.random client_uuid in
      let server' : Server c = record server {
        endpoint = record (server.endpoint) { ctx = ctx };
      } in
      elim err [ some e ↦ done (not_created e) none server' | none ↦ some (tokened token, server') ]

  -- The entity of a token.
  unfoldable pub make_entity : Server c → Bytes → Option (Stage o × Server c)
  make_entity server token = elim (c.create_entity server.endpoint.ctx server.heap token 0) [
    | none ↦ none
    | some ((entity, err), (ctx, heap)) ↦
        let server' : Server c = record {
          endpoint = record (server.endpoint) { ctx = ctx };
          heap = heap;
        } in
        elim err [
          | some e ↦ done (not_created e) none server'
          | none ↦ some (made token entity, server')
        ]
  ]

  -- The entity in the map, under the lock, and the answer.
  unfoldable pub enter : Server c → Bytes → Option ℕ → Option (Stage o × Server c)
  enter server token entity =
      let entities = Dict.set server.endpoint.entities (o.uuid.string token) entity in
      let server' : Server c = record server {
        endpoint = record (server.endpoint) { entities = entities };
      } in
      elim entity [
        | none ↦ none
        | some a ↦
            let e = server.heap.objects.entity a in
            done (sync_response (o.uuid.string e.token_id) e.groups) none server'
      ]

  -- `GetEntity`, under the lock.
  unfoldable pub find : Text → Server c → Text → Option (Stage o × Server c)
  find unknown server token_id =
      let (entity, err) = get_entity server.endpoint token_id in
      elim err [
        | some e ↦ done (message_error (unknown ++ e) bad_request) none server
        | none ↦ some (found entity, server)
      ]

  -- `handleUserData`, with `Update`, and the message.
  unfoldable pub take : Server c → Arrival o → Text → Option ℕ → Option (Stage o × Server c)
  take server req token_id entity =
      elim (handle_user_data o.uuid o.s2 o.grow o.marshal_user_data req.now server.heap entity
        (user_request o token_id req)) [
          | none ↦ none
          | some h ↦
              let server' : Server c = record server { heap = h.heap } in
              elim h.user_data [
                | none ↦ done h.response h.sent server'
                | some ud ↦
                    let (user_msg, lerr) = o.marshal_user_data ud in
                    elim lerr [
                      | some e ↦
                          done
                            (message_error (text "Beacon: Failure generating user data: " ++ e)
                              bad_request)
                            h.sent server'
                      | none ↦ some (moved entity user_msg h.sent, server')
                    ]
              ]
        ]

  -- The method of the context.
  unfoldable pub act :
      Act c
      → Text
      → Server c
      → Arrival o
      → Option ℕ
      → Bytes
      → Option Cell
      → Option (Stage o × Server c)
  act method failed server req entity message sent = elim entity [
    | none ↦ none
    | some a ↦ elim (method server.endpoint.ctx server.heap req.now a message) [
      | none ↦ none
      | some (err, ctx, heap) ↦
          let response : Response = elim err [
            | none ↦ silent
            | some e ↦ message_error (failed ++ e) bad_request
          ] in
          done response sent
            (record { endpoint = record (server.endpoint) { ctx = ctx }; heap = heap })
    ]
  ]

  -- The next stage. The handlers Data and Download are one step each. The result `none` is a panic.
  unfoldable pub start : Server c → Arrival o → Text → Handler → Option (Stage o × Server c)
  unfolding draw_token find
  start server req token_id sync = elim (refused o.uuid req.now (sync_request o req)) [
    | some r ↦ done r none server
    | none ↦ draw_token server req
  ]
  start server req token_id standby = find (text "Standby: Failed to get entity: ") server token_id
  start server req token_id beacon = find (text "Beacon: Failed to get entity: ") server token_id
  start server req token_id data_channel = elim (handle o server req token_id data_channel) [
    | none ↦ none
    | some (answered, server') ↦ some (finished answered, server')
  ]
  start server req token_id download = elim (handle o server req token_id download) [
    | none ↦ none
    | some (answered, server') ↦ some (finished answered, server')
  ]

  unfoldable pub move :
      Server c → Arrival o → Text → Handler → Stage o → Option (Stage o × Server c)
  unfolding start make_entity enter take act
  move server req token_id handler arrived = start server req token_id handler
  move server req token_id handler (tokened token) = make_entity server token
  move server req token_id handler (made token entity) = enter server token entity
  move server req token_id handler (found entity) = take server req token_id entity
  move server req token_id handler (moved entity message sent) =
      act (acting c handler) (acting_failed handler) server req entity message sent
  move server req token_id handler (finished answered) = some (finished answered, server)
