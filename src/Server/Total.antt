-- ===== src/Server/Total.antt =====
-- What the service of core/http.go promises for any sequence of requests.
use envisilab.Base.{
  ℕ, ◌<◌, ◌≡◌, refl, Option, none, some, inl, inr, Option-cases, nat_eq, list_eq, List, [], ◌∷◌,
  length, arith, Text,
}
use envisilab.Base.Dict
use envisilab.Heap.{Heap}
use envisilab.Heap.Kept.{Keeps-refl}
use envisilab.Context.Interface.{ContextOps, IsSound}
use envisilab.Endpoint.Data.{data_handler}
use envisilab.Endpoint.{get_entity}
use envisilab.Server.{
  Outside, Handler, sync, standby, beacon, data_channel, download, routes, Arrival, Answer, Server,
  make_server, answer, sync_request, user_request, handle, serve, serve_all,
}
use envisilab.Server.Step.{IsReady, IsStep, IsStep-same, IsStep-trans, make_endpoint-IsReady}
use envisilab.Server.Handlers.{
  sync_handler-IsStep, standby_handler-IsStep, beacon_handler-IsStep, download_handler-IsStep,
}

module _ (o : Outside) {c : ContextOps} (safe : IsSound c) where
  abbrev pub IsServed : Server c → Option (Answer o × Server c) → Type 0
  IsServed server outcome =
      (answer : Answer o) × (server' : Server c) × (outcome ≡ some (answer, server'))
      × IsStep o.uuid server.endpoint server.heap server'.endpoint server'.heap

  stays :
      (server : Server c)
      → IsReady o.uuid server.endpoint server.heap
      → IsStep o.uuid server.endpoint server.heap server.endpoint server.heap
  stays server ready =
      IsStep-same o.uuid server.endpoint server.endpoint server.heap server.heap refl
        (Keeps-refl server.heap) ready

  pub handle-IsServed :
      (server : Server c) (req : Arrival o) (token : Text) (handler : Handler)
      → IsReady o.uuid server.endpoint server.heap
      → IsServed server (handle o server req token handler)
  unfolding handle
  handle-IsServed server req token sync ready =
      let (r, ep, heap, done, step) =
        sync_handler-IsStep o.uuid safe server.endpoint server.heap req.random req.now
          (sync_request o req) ready in
      (answer o (r ∷ []) none, record { endpoint = ep; heap = heap }, ground (arith, done), step)
  handle-IsServed server req token standby ready =
      let (r, sent, ep, heap, done, step) =
        standby_handler-IsStep o.uuid safe o.s2 o.grow o.marshal_user_data server.endpoint
          server.heap req.now (user_request o token req) ready in
      (answer o (r ∷ []) sent, record { endpoint = ep; heap = heap }, ground (arith, done), step)
  handle-IsServed server req token beacon ready =
      let (r, sent, ep, heap, done, step) =
        beacon_handler-IsStep o.uuid safe o.s2 o.grow o.marshal_user_data server.endpoint
          server.heap req.now (user_request o token req) ready in
      (answer o (r ∷ []) sent, record { endpoint = ep; heap = heap }, ground (arith, done), step)
  handle-IsServed server req token data_channel ready =
      let (r, conn) = data_handler o.socket server.endpoint token req.upgraded in
      (
        record { responses = r ∷ []; offered = none; opened = conn },
        server,
        refl,
        stays server ready,
      )
  handle-IsServed server req token download ready =
      let (rs, ep, done, step) =
        download_handler-IsStep o.uuid safe o.marshal_activity server.endpoint server.heap
          req.method token ready in
      (answer o rs none, record server { endpoint = ep }, ground (arith, done), step)

  pub serve-IsServed :
      (server : Server c) (req : Arrival o)
      → IsReady o.uuid server.endpoint server.heap
      → IsServed server (serve o server req)
  unfolding serve
  serve-IsServed server req ready = elim (Option-cases (o.mux routes req.path)) [
    | inl nothing ↦ (answer o [] none, server, ground (arith, nothing), stays server ready)
    | inr ((handler, token), found) ↦
        let (answered, server', done, step) = handle-IsServed server req token handler ready in
        (answered, server', ground (arith, found, done), step)
  ]

  pub serve_all-IsStep :
      (server : Server c) (reqs : List (Arrival o))
      → IsReady o.uuid server.endpoint server.heap
      → (answers : List (Answer o)) × (server' : Server c) × (serve_all o server reqs
          ≡ some (answers, server'))
        × (length answers ≡ length reqs)
        × IsStep o.uuid server.endpoint server.heap server'.endpoint server'.heap
  unfolding serve_all
  serve_all-IsStep server [] ready = ([], server, refl, refl, stays server ready)
  serve_all-IsStep server (req ∷ reqs) ready =
      let (answer, server1, one, step1) = serve-IsServed server req ready in
      let (answers, server', rest, size, step2) = serve_all-IsStep server1 reqs step1.ready in
      (
        answer ∷ answers,
        server',
        ground (arith, one, rest),
        omega (arith, size),
        IsStep-trans o.uuid server.endpoint server1.endpoint server'.endpoint server.heap
            server1.heap server'.heap step1 step2,
      )

  -- A service that was just started answers every request of any sequence, and no handler panics; each
  -- token that its endpoint then knows is that of an entity that is there, under that very token. The
  -- context is any whose methods do not panic on an entity that is there.
  pub serve_all_answers :
      (ctx : c.State) (heap : Heap) (reqs : List (Arrival o))
      → (answers : List (Answer o)) × (server : Server c) × (serve_all o
            (make_server o ctx heap)
            reqs
          ≡ some (answers, server))
        × (length answers ≡ length reqs)
        × ((key : Text) (e : Option ℕ)
            → get_entity server.endpoint key ≡ (e, none)
            → (a : ℕ) × (e ≡ some a)
              × (a < server.heap.objects.next)
              × (o.uuid.string (server.heap.objects.entity a).token_id ≡ key))
  unfolding make_server get_entity
  serve_all_answers ctx heap reqs =
      let (answers, server, done, size, step) =
        serve_all-IsStep (make_server o ctx heap) reqs (make_endpoint-IsReady o.uuid c ctx heap) in
      (
        answers,
        server,
        done,
        size,
        λ key e found. elim (Option-cases (Dict.get server.endpoint.entities key)) [
          | inl nothing ↦ absurd (ground (arith, nothing, found))
          | inr (e', there) ↦ step.ready key e (ground (arith, there, found))
        ],
      )
