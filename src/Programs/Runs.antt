-- ===== src/Programs/Runs.antt =====
-- What the two programs, aggregator/aggregator.go and simulator/simulator.go, do with any requests.
use envisilab.Base.{
  ℕ, suc, ◌≡◌, ◌⊎◌, refl, Bool, true, false, Option, none, some, inl, inr, Option-cases,
  if◌then◌else◌, List, [], ◌∷◌, list_eq, nat_eq, length, arith, Bytes, Text,
}
use envisilab.Base.Dict
use envisilab.Redis.{Pool, PubSub}
use envisilab.DataStore.{Sql, make_data_store, connect, disconnect}
use envisilab.Topology.{Float64, Topology}
use envisilab.Topology
use envisilab.Topology.Fanout.{feed}
use envisilab.Context.{make_data_store_context}
use envisilab.Context.Interface.{ContextOps, IsSound}
use envisilab.Context.Stored.{data_store_ops, data_store_ops-IsSound}
use envisilab.Subscriber.{Conn}
use envisilab.Subscriber.Delivery.{Outboxes, message, failure, receive, write_all}
use envisilab.Subscriber.Delivery
use envisilab.Simulator.{make_simulator_context}
use envisilab.Simulator.Ops.{simulator_ops-IsSound}
use envisilab.Heap.{Heap}
use envisilab.Server.{Outside, Answer, Server, make_server}
use envisilab.Server.Step.{IsReady, make_endpoint-IsReady}
use envisilab.Server.Total.{serve-IsServed}
use envisilab.Programs.{
  Event, request, delivery, fatal, panicked, broken, ended, topology_made, run_events,
  aggregator_main, simulated, simulator_main,
}

-- Whether or not `Connect` succeeds, there is no handle to close.
disconnect-connect : (sql : Sql) → disconnect (connect (make_data_store {sql = sql})).0 ≡ none
unfolding disconnect connect make_data_store
disconnect-connect sql = ground arith

module _ {o : Outside} where
  -- Whether Redis fails, and how many requests come before that.
  unfoldable pub fails : List (Event o) → Bool
  fails [] = false
  fails (request req ∷ events) = fails events
  fails (delivery f (failure e) ∷ events) = true
  fails (delivery f (message channel data') ∷ events) = fails events
  fails (delivery f Delivery.other ∷ events) = fails events

  unfoldable pub asked : List (Event o) → ℕ
  asked [] = 0
  asked (request req ∷ events) = suc (asked events)
  asked (delivery f (failure e) ∷ events) = 0
  asked (delivery f (message channel data') ∷ events) = asked events
  asked (delivery f Delivery.other ∷ events) = asked events

module _ (o : Outside) (p : Pool) (ps : PubSub) (f : Float64) (order : List Text → List Text) where
  run_events_answers :
      {c : ContextOps} (safe : IsSound c) (t : c.State → Topology p ps)
      (visits : List Conn → List Conn) (server : Server c) (out : Outboxes)
      (events : List (Event o))
      → IsReady o.uuid server.endpoint server.heap
      → (answers : List (Answer o)) × (run_events o p ps f order t visits server out events
          ≡ some (answers, fails events))
        × (length answers ≡ asked events)
  unfolding run_events receive fails asked
  run_events_answers safe t visits server out [] ready = ([], refl, refl)
  run_events_answers safe t visits server out (request req ∷ events) ready =
      let (answer, server', served, step) = serve-IsServed o safe server req ready in
      let (answers, done, size) = run_events_answers safe t visits server' out events step.ready in
      (answer ∷ answers, ground (arith, served, done), omega (arith, size))
  run_events_answers safe t visits server out (delivery feed (failure e) ∷ events) ready =
      ([], refl, refl)
  run_events_answers safe t visits server out (delivery feed Delivery.other ∷ events) ready =
      run_events_answers safe t visits server out events ready
  run_events_answers safe t visits server out (delivery feed' (message channel data') ∷ events)
        ready =
      let s = feed (t server.endpoint.ctx) feed' in
      let out' = write_all out (visits (Dict.keys (Dict.inner s.channels channel))) data' in
      run_events_answers safe t visits server out' events ready

module _ (o : Outside) (p : Pool) (ps : PubSub) (f : Float64) (order : List Text → List Text)
    (publisher : p.State) (cells groups : ps.State) (heap : Heap) (visits : List Conn → List Conn)
    (events : List (Event o)) where
  abbrev pub connected : Option (Topology p ps)
  connected = Topology.connect (topology_made o p ps f order publisher cells groups)

  -- The aggregator, whatever the database, Redis and the requests are: where Redis cannot be reached it
  -- ends at once, and else it answers every request that comes before Redis fails, with no panic of a
  -- handler. A failure of Redis ends it, by the panic of a goroutine; with none it panics when the
  -- service is over, since it closes a database handle that it never kept. The service and the
  -- goroutines take what comes in the given order.
  pub aggregator_main_runs :
      (sql : Sql)
      → ((connected ≡ none)
          × (aggregator_main o p ps f order sql publisher cells groups heap visits events
              ≡ some (fatal, [])))
        ⊎ ((answers : List (Answer o)) × (aggregator_main o p ps f order sql publisher cells groups
                heap visits events
              ≡ some (if fails events then broken else panicked, answers))
            × (length answers ≡ asked events))
  unfolding aggregator_main make_server
  aggregator_main_runs sql =
      let store = (connect (make_data_store {sql = sql})).0 in
      elim (Option-cases connected) [
        | inl unreachable ↦ inl (unreachable, ground (arith, unreachable))
        | inr (t, reached) ↦
            let (answers, done, size) =
              run_events_answers o p ps f order (data_store_ops-IsSound p ps sql o.uuid order)
                (λ ctx. ctx.t) visits (make_server o (make_data_store_context t store) heap)
                (λ conn. []) events
                (make_endpoint-IsReady o.uuid (data_store_ops p ps sql o.uuid order)
                  (make_data_store_context t store) heap) in
            inr (answers, ground (arith, reached, done, disconnect-connect sql), size)
      ]

  -- The simulator likewise, but with no failure of Redis it comes to the end of `main`.
  simulator_main_runs :
      (fresh : ℕ → Bytes × Bytes) (entity_of : Conn → ℕ)
      → ((connected ≡ none)
          × (simulator_main o p ps f order fresh entity_of publisher cells groups heap visits events
              ≡ some (fatal, [])))
        ⊎ ((answers : List (Answer o)) × (simulator_main o p ps f order fresh entity_of publisher
                cells groups heap visits events
              ≡ some (if fails events then broken else ended, answers))
            × (length answers ≡ asked events))
  unfolding simulator_main make_server
  simulator_main_runs fresh entity_of = elim (Option-cases connected) [
    | inl unreachable ↦ inl (unreachable, ground (arith, unreachable))
    | inr (t, reached) ↦
        let (answers, done, size) =
          run_events_answers o p ps f order
            (simulator_ops-IsSound p ps o.uuid o.s2 o.grow fresh o.marshal_user_data order
              entity_of)
            (λ ctx. ctx.t) visits (make_server o (make_simulator_context t) heap) (λ conn. [])
            events
            (make_endpoint-IsReady o.uuid (simulated o p ps f order fresh entity_of)
              (make_simulator_context t) heap) in
        inr (answers, ground (arith, reached, done), size)
  ]
