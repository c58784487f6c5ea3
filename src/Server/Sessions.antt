-- ===== src/Server/Sessions.antt =====
-- From a client's sync to its beacon, through the service of core/http.go.
use envisilab.Base.{
  ℕ, ◌≡◌, true, Option, none, some, inl, inr, Option-cases, nat_eq, list_eq, List, [], ◌∷◌, ◌++◌,
  arith, Bytes, Text, Error, text,
}
use envisilab.Base.Dict
use envisilab.Heap.{Heap, update_at}
use envisilab.Topology.{Group}
use envisilab.Context.Interface.{ContextOps, IsContext, IsSound}
use envisilab.Endpoint.{get_entity, in_sync}
use envisilab.Endpoint.Http.{Response, silent, message_error, sync_response, bad_request}
use envisilab.Endpoint.Sync.{sync_handler}
use envisilab.Endpoint.Sync.Answers.{sync_handler-get_entity}
use envisilab.Endpoint.UserData.{UserData}
use envisilab.Endpoint.UserData.Accepted.{beacon_handler_accepts}
use envisilab.Server.{
  Outside, sync, beacon, routes, Arrival, Answer, Server, make_server, answer, sync_request,
  user_request, handle, serve, serve_all,
}
use envisilab.Server.Step.{IsReady, IsStep, make_endpoint-IsReady}
use envisilab.Server.Total.{serve-IsServed, serve_all-IsStep}

-- The user data of a beacon for the entity at `a`, as they are broadcast.
abbrev pub beacon_message : (o : Outside) {c : ContextOps} → Server c → Arrival o → ℕ → Bytes
beacon_message o server req a =
    (o.marshal_user_data (record {
      client_id = o.uuid.string (server.heap.objects.entity a).client_id;
      location = (o.decode_location req.body).0;
    })).0

-- The answer to a beacon, given the error of the broadcast.
abbrev pub beacon_response : Error → Response
beacon_response none = silent
beacon_response (some e) = message_error (text "Broadcast error: " ++ e) bad_request

module _ (o : Outside) {c : ContextOps} (i : IsContext c) (safe : IsSound c) where
  -- A token that is known stands for an entity, whatever requests came in between.
  known_after :
      (server server' : Server c) (key : Text)
      → IsStep o.uuid server.endpoint server.heap server'.endpoint server'.heap
      → (e : Option ℕ) × (get_entity server.endpoint key ≡ (e, none))
      → (a : ℕ) × (get_entity server'.endpoint key ≡ (some a, none))
  unfolding get_entity
  known_after server server' key step (e, found) =
      elim (Option-cases (Dict.get server.endpoint.entities key)) [
        | inl nothing ↦ absurd (ground (arith, nothing, found))
        | inr (e1, there) ↦ elim (Option-cases (Dict.get server'.endpoint.entities key)) [
          | inl gone ↦ absurd (ground (arith, there, gone, step.known key))
          | inr (e2, still) ↦
              let (a, is, below, named) = step.ready key e2 still in (a, ground (arith, still, is))
        ]
      ]

  -- The entity of the token in a sync response.
  serve_sync :
      (server server' : Server c) (req : Arrival o) (var token : Text) (groups : List Group)
      → o.mux routes req.path ≡ some (sync, var)
      → serve o server req ≡ some (answer o (sync_response token groups ∷ []) none, server')
      → (a : ℕ) × (get_entity server'.endpoint token ≡ (some a, none))
  unfolding serve handle
  serve_sync server server' req var token groups route done =
      let answered : sync_handler o.uuid server.endpoint server.heap req.random req.now
            (sync_request o req)
          ≡ some (sync_response token groups, (server'.endpoint, server'.heap)) =
        ground (arith, route, done) in
      let (post, json, on_time, (a, known, named)) =
        sync_handler-get_entity i o.uuid server.endpoint server'.endpoint server.heap server'.heap
          req.random req.now (sync_request o req) token groups answered in
      (a, known)

  make_server-IsReady :
      (ctx : c.State) (heap : Heap)
      → IsReady o.uuid
          (make_server o {c = c} ctx heap).endpoint
          (make_server o {c = c} ctx heap).heap
  unfolding make_server
  make_server-IsReady ctx heap = make_endpoint-IsReady o.uuid c ctx heap

  -- What is known of a run holds of its result.
  serve_all-IsStep_of :
      (server server' : Server c) (reqs : List (Arrival o)) (answers : List (Answer o))
      → IsReady o.uuid server.endpoint server.heap
      → serve_all o server reqs ≡ some (answers, server')
      → IsStep o.uuid server.endpoint server.heap server'.endpoint server'.heap
  serve_all-IsStep_of server server' reqs answers ready ran =
      let (answers1, server1, done, size, step) = serve_all-IsStep o safe server reqs ready in
      let same : server' ≡ server1 = ground (arith, ran, done) in rw same step

  serve-IsStep :
      (server server' : Server c) (req : Arrival o) (answered : Answer o)
      → IsReady o.uuid server.endpoint server.heap
      → serve o server req ≡ some (answered, server')
      → IsStep o.uuid server.endpoint server.heap server'.endpoint server'.heap
  serve-IsStep server server' req answered ready ran =
      let (answered1, server1, done, step) = serve-IsServed o safe server req ready in
      let same : server' ≡ server1 = ground (arith, ran, done) in rw same step

  pub serve_beacon :
      (server : Server c) (req : Arrival o) (token : Text) (a : ℕ)
      → o.mux routes req.path ≡ some (beacon, token)
      → req.method ≡ text "POST"
      → req.content_type ≡ text "application/json"
      → (o.decode_location req.body).1 ≡ none
      → in_sync req.now (o.decode_location req.body).0.timestamp ≡ true
      → ((ud : UserData) → (o.marshal_user_data ud).1 ≡ none)
      → get_entity server.endpoint token ≡ (some a, none)
      → let (sent, moved) = update_at o.s2 o.grow server.heap a (o.decode_location req.body).0 in
        (err : Error) × (ctx' : c.State) × (heap' : Heap) × (c.broadcast server.endpoint.ctx moved
            req.now a
            (beacon_message o server req a)
          ≡ some (err, ctx', heap'))
        × (serve o server req
            ≡ some (
              answer o (beacon_response err ∷ []) sent,
              record { endpoint = record (server.endpoint) { ctx = ctx' }; heap = heap' },
            ))
  unfolding serve handle
  serve_beacon server req token a route post json decoded on_time marshals known =
      let loc = (o.decode_location req.body).0 in
      let ud : UserData = record {
        client_id = o.uuid.string (server.heap.objects.entity a).client_id;
        location = loc;
      } in
      let message = beacon_message o server req a in
      let moved = (update_at o.s2 o.grow server.heap a loc).1 in
      let (err, ctx', heap', done, kept) =
        safe.broadcast_ok server.endpoint.ctx moved req.now a message in
      let marshalled : o.marshal_user_data ud ≡ (message, none) = ground (arith, marshals ud) in
      let accepted =
        beacon_handler_accepts o.uuid o.s2 o.grow o.marshal_user_data server.endpoint server.heap
          heap' req.now (user_request o token req) a message err ctx' known post json decoded
          on_time marshalled done in
      (err, ctx', heap', done, ground (arith, route, accepted))

  -- A client that was given a token by a sync response can send beacons with it ever after, whatever
  -- requests came before its sync and in between, since the handler never asks whether the token has
  -- expired in Redis: a POST of JSON to the route of beacons under that
  -- token, with a location whose time is in sync, reaches an entity; the context broadcasts the data of
  -- that entity at that location, and the answer tells of nothing but an error of that broadcast. The
  -- context is any whose methods do not panic, and user data can be marshalled.
  pub beacon_after_sync :
      (ctx : c.State) (heap : Heap) (before between : List (Arrival o))
      (answers1 answers2 : List (Answer o)) (server1 server2 server3 : Server c)
      (first req : Arrival o) (var token : Text) (groups : List Group)
      → serve_all o (make_server o ctx heap) before ≡ some (answers1, server1)
      → o.mux routes first.path ≡ some (sync, var)
      → serve o server1 first ≡ some (answer o (sync_response token groups ∷ []) none, server2)
      → serve_all o server2 between ≡ some (answers2, server3)
      → o.mux routes req.path ≡ some (beacon, token)
      → req.method ≡ text "POST"
      → req.content_type ≡ text "application/json"
      → (o.decode_location req.body).1 ≡ none
      → in_sync req.now (o.decode_location req.body).0.timestamp ≡ true
      → ((ud : UserData) → (o.marshal_user_data ud).1 ≡ none)
      → (a : ℕ) × (get_entity server3.endpoint token ≡ (some a, none))
        × (let (sent, moved) =
              update_at o.s2 o.grow server3.heap a (o.decode_location req.body).0 in
            (err : Error) × (ctx' : c.State) × (heap' : Heap) × (c.broadcast server3.endpoint.ctx
                moved req.now a
                (beacon_message o server3 req a)
              ≡ some (err, ctx', heap'))
            × (serve o server3 req
                ≡ some (
                  answer o (beacon_response err ∷ []) sent,
                  record { endpoint = record (server3.endpoint) { ctx = ctx' }; heap = heap' },
                )))
  beacon_after_sync ctx heap before between answers1 answers2 server1 server2 server3 first req var
        token groups ran1 sync_route synced ran2 route post json decoded on_time marshals =
      let server0 = make_server o ctx heap in
      let ready : IsReady o.uuid server0.endpoint server0.heap = make_server-IsReady ctx heap in
      let step1 = serve_all-IsStep_of server0 server1 before answers1 ready ran1 in
      let step2 = serve-IsStep server1 server2 first _ step1.ready synced in
      let step3 = serve_all-IsStep_of server2 server3 between answers2 step2.ready ran2 in
      let (b, given) = serve_sync server1 server2 first var token groups sync_route synced in
      let (a, known) = known_after server2 server3 token step3 (some b, given) in
      (a, known, serve_beacon server3 req token a route post json decoded on_time marshals known)
