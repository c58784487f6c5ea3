-- ===== src/Endpoint/Data.antt =====
-- core/http.go, `DataHandler`: the data channel of an entity.
use envisilab.Base.{Option, none, some, ◌++◌, Text, Error, text}
use envisilab.Context.Interface.{ContextOps}
use envisilab.WebSocket.{Socket, WebSocketConnection, make_web_socket_connection}
use envisilab.Endpoint.{Endpoint, get_entity}
use envisilab.Endpoint.Http.{Response, silent, message_error, bad_request}

-- The connection whose pumps are started, if there is one. `upgraded` is what the upgrader of
-- github.com/gorilla/websocket returns; its own answer to the client is not part of the result.
module _ {c : ContextOps} (k : Socket) where
  unfoldable pub data_handler :
      Endpoint c → Text → k.State × Error → Response × Option (WebSocketConnection k)
  data_handler endpoint token_id upgraded =
      let (entity, err) = get_entity endpoint token_id in
      let (conn, upgrade_err) = upgraded in
      elim err [
        | some e ↦ (message_error (text "Data: Failed to acquire entity: " ++ e) bad_request, none)
        | none ↦ elim upgrade_err [
          | some e ↦
              (message_error (text "Data: Failed to upgrade to websocket: " ++ e) bad_request, none)
          | none ↦ (silent, some (make_web_socket_connection entity conn))
        ]
      ]
