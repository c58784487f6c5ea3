-- ===== src/Server.antt =====
-- core/http.go, `ServeHTTPS_V1`: the routes, and an endpoint that serves one request after the other.
pub mod Step
pub mod Handlers
pub mod Total
pub mod Sessions
pub mod Followers
pub mod Sockets
pub mod Overlap
use envisilab.Base.{ℕ, Option, none, some, List, [], ◌∷◌, Bytes, Text, Error, text}
use envisilab.Base.Int.{ℤ}
use envisilab.Uuid.{Uuid}
use envisilab.Location.{Location}
use envisilab.Cell.{S2, Cell}
use envisilab.Heap.{Heap}
use envisilab.Context.{Activity}
use envisilab.Context.Interface.{ContextOps}
use envisilab.WebSocket.{Socket, WebSocketConnection}
use envisilab.Endpoint.{Endpoint, make_endpoint}
use envisilab.Endpoint.Http.{Response}
use envisilab.Endpoint.Sync
use envisilab.Endpoint.UserData
use envisilab.Endpoint.Sync.{SyncRequest, sync_handler}
use envisilab.Endpoint.UserData.{UserData, standby_handler, beacon_handler}
use envisilab.Endpoint.Download.{download_handler}
use envisilab.Endpoint.Data.{data_handler}

pub data Handler : Type 0 where
  sync standby beacon data_channel download : Handler

abbrev pub routes : List (Text × Handler)
routes =
    (text "/api/v1/entity/sync", sync)
    ∷ (text "/api/v1/entity/{tokenid}/standby", standby)
    ∷ (text "/api/v1/entity/{tokenid}/beacon", beacon)
    ∷ (text "/api/v1/entity/{tokenid}/data", data_channel)
    ∷ (text "/api/v1/entity/{tokenid}/download", download)
    ∷ []

-- The packages that the handlers call: google/uuid, golang/geo/s2, the growth of slices,
-- encoding/json, gorilla/websocket, and gorilla/mux, which finds a route for a path, with the variable
-- "tokenid" of the path.
pub record Outside : Type 1 where
  pub uuid : Uuid
  pub s2 : S2
  pub grow : ℕ → ℕ
  pub marshal_user_data : UserData → Bytes × Error
  pub marshal_activity : Activity → Bytes × Error
  pub decode_sync : Bytes → SyncRequest × Error
  pub decode_location : Bytes → Location × Error
  pub socket : Socket
  pub mux : List (Text × Handler) → Text → Option (Handler × Text)

-- A request, with the time at which it is served, the UUID that is drawn and what the upgrader returns.
pub record Arrival (o : Outside) : Type 0 where
  pub method : Text
  pub content_type : Text
  pub path : Text
  pub body : Bytes
  pub now : ℤ
  pub random : Bytes × Error
  pub upgraded : o.socket.State × Error

-- What is written, the cell that an entity's subscription is offered, and the connection whose pumps
-- are started.
pub record Answer (o : Outside) : Type 0 where
  pub responses : List Response
  pub offered : Option Cell
  pub opened : Option (WebSocketConnection o.socket)

pub record Server (c : ContextOps) : Type 0 where
  pub endpoint : Endpoint c
  pub heap : Heap

module _ (o : Outside) where
  abbrev pub answer : List Response → Option Cell → Answer o
  answer responses offered = record { responses = responses; offered = offered; opened = none }

  -- What the handlers read of a request.
  abbrev pub sync_request : Arrival o → Sync.Request
  sync_request req = record {
    method = req.method;
    content_type = req.content_type;
    decode = o.decode_sync req.body;
  }

  abbrev pub user_request : Text → Arrival o → UserData.Request
  user_request token_id req = record {
    method = req.method;
    content_type = req.content_type;
    token_id = token_id;
    decode = o.decode_location req.body;
  }

module _ (o : Outside) {c : ContextOps} where
  unfoldable pub make_server : c.State → Heap → Server c
  make_server ctx heap = record { endpoint = make_endpoint ctx; heap = heap }

  -- A handler on the request it is given. The result `none` is a panic.
  unfoldable pub handle : Server c → Arrival o → Text → Handler → Option (Answer o × Server c)
  handle server req token_id sync =
      elim (sync_handler o.uuid server.endpoint server.heap req.random req.now
        (sync_request o req)) [
          | none ↦ none
          | some (r, (endpoint, heap)) ↦
              some (answer o (r ∷ []) none, record { endpoint = endpoint; heap = heap })
        ]
  handle server req token_id standby =
      elim (standby_handler o.uuid o.s2 o.grow o.marshal_user_data server.endpoint server.heap
        req.now (user_request o token_id req)) [
          | none ↦ none
          | some (r, sent, (endpoint, heap)) ↦
              some (answer o (r ∷ []) sent, record { endpoint = endpoint; heap = heap })
        ]
  handle server req token_id beacon =
      elim (beacon_handler o.uuid o.s2 o.grow o.marshal_user_data server.endpoint server.heap
        req.now (user_request o token_id req)) [
          | none ↦ none
          | some (r, sent, (endpoint, heap)) ↦
              some (answer o (r ∷ []) sent, record { endpoint = endpoint; heap = heap })
        ]
  handle server req token_id data_channel =
      let (r, conn) = data_handler o.socket server.endpoint token_id req.upgraded in
      some (record { responses = r ∷ []; offered = none; opened = conn }, server)
  handle server req token_id download =
      elim (download_handler o.uuid o.marshal_activity server.endpoint req.method token_id) [
        | none ↦ none
        | some (rs, endpoint) ↦ some (answer o rs none, record server { endpoint = endpoint })
      ]

  -- A path without a route is answered by mux.
  unfoldable pub serve : Server c → Arrival o → Option (Answer o × Server c)
  unfolding handle
  serve server req = elim (o.mux routes req.path) [
    | none ↦ some (answer o [] none, server)
    | some (handler, token_id) ↦ handle server req token_id handler
  ]

  unfoldable pub serve_all : Server c → List (Arrival o) → Option (List (Answer o) × Server c)
  unfolding serve
  serve_all server [] = some ([], server)
  serve_all server (req ∷ reqs) = elim (serve server req) [
    | none ↦ none
    | some (answer, server') ↦ elim (serve_all server' reqs) [
      | none ↦ none
      | some (answers, server'') ↦ some (answer ∷ answers, server'')
    ]
  ]
