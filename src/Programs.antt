-- ===== src/Programs.antt =====
-- aggregator/aggregator.go and simulator/simulator.go: `main`, which puts the parts together and serves
-- requests. The flags and the profiles are left out.
pub mod Runs
use envisilab.Base.{ℕ, Bool, true, false, Option, none, some, List, [], ◌∷◌, Bytes, Text, Error}
use envisilab.Redis.{Pool, PubSub}
use envisilab.DataStore.{Sql, make_data_store, connect, disconnect}
use envisilab.Topology.{Float64, make_config, make_topology, Topology}
use envisilab.Topology
use envisilab.Context.{make_data_store_context}
use envisilab.Context.Interface.{ContextOps}
use envisilab.Context.Stored.{data_store_ops}
use envisilab.Subscriber.{Conn}
use envisilab.Subscriber.Delivery.{Outboxes, Received, receive}
use envisilab.Topology.Fanout.{Feed, feed}
use envisilab.Simulator.{make_simulator_context}
use envisilab.Simulator.Ops.{simulator_ops}
use envisilab.Heap.{Heap}
use envisilab.Server.{Outside, Arrival, Answer, Server, make_server, serve}

-- How a program ends: by `log.Fatal`, by a panic in `main`, by the panic of a goroutine that waits for
-- Redis, or at the end of `main`.
pub data Exit : Type 0 where
  fatal panicked broken ended : Exit

-- What happens while a program runs: a request comes to the service; or something, which may be an
-- error, comes from Redis to one of the two goroutines that `t.Run` has started.
pub data Event (o : Outside) : Type 0 where
  request : Arrival o → Event o
  delivery : Feed → Received → Event o

-- The bits of 250.0, the search radius in meters.
abbrev pub radius : ℕ
radius = 4643000109586448384

-- The order is that of a `range` over a map.
module _ (o : Outside) (p : Pool) (ps : PubSub) (f : Float64) (order : List Text → List Text) where
  -- What both programs start with; Redis is as the three arguments say.
  unfoldable pub topology_made : p.State → ps.State → ps.State → Topology p ps
  topology_made publisher cells groups =
      make_topology (make_config f radius 15) publisher cells groups

  -- The service and the goroutines, until `ListenAndServe` returns or a goroutine panics, which ends the
  -- program: the answers, and whether a goroutine did. The panic of a handler is the result `none`.
  -- `t` is the topology of a context.
  unfoldable pub run_events :
      {c : ContextOps}
      → (c.State → Topology p ps)
      → (List Conn → List Conn)
      → Server c
      → Outboxes
      → List (Event o)
      → Option (List (Answer o) × Bool)
  run_events t visits server out [] = some ([], false)
  run_events t visits server out (request req ∷ events) = elim (serve o server req) [
    | none ↦ none
    | some (answer, server') ↦ elim (run_events t visits server' out events) [
      | none ↦ none
      | some (answers, failed) ↦ some (answer ∷ answers, failed)
    ]
  ]
  run_events t visits server out (delivery f received ∷ events) =
      elim (receive visits (feed (t server.endpoint.ctx) f) received out) [
        | none ↦ some ([], true)
        | some out' ↦ run_events t visits server out' events
      ]

  unfoldable pub aggregator_main :
      (sql : Sql)
      → p.State
      → ps.State
      → ps.State
      → Heap
      → (List Conn → List Conn)
      → List (Event o)
      → Option (Exit × List (Answer o))
  unfolding topology_made run_events
  aggregator_main sql publisher cells groups heap visits events =
      let (data_store, ignored) = connect (make_data_store {sql = sql}) in
      elim (Topology.connect (topology_made publisher cells groups)) [
        | none ↦ some (fatal, [])
        | some t ↦
            let server : Server (data_store_ops p ps sql o.uuid order) =
              make_server o (make_data_store_context t data_store) heap in
            elim (run_events (λ ctx. ctx.t) visits server (λ conn. []) events) [
              | none ↦ none
              | some (answers, true) ↦ some (broken, answers)
              | some (answers, false) ↦
                  some
                    (elim (disconnect data_store) [ none ↦ panicked | some store ↦ ended ], answers)
            ]
      ]

  module _ (fresh : ℕ → Bytes × Bytes) (entity_of : Conn → ℕ) where
    abbrev pub simulated : ContextOps
    simulated = simulator_ops p ps o.uuid o.s2 o.grow fresh o.marshal_user_data order entity_of

    unfoldable pub simulator_main :
        p.State
        → ps.State
        → ps.State
        → Heap
        → (List Conn → List Conn)
        → List (Event o)
        → Option (Exit × List (Answer o))
    unfolding topology_made run_events
    simulator_main publisher cells groups heap visits events =
        elim (Topology.connect (topology_made publisher cells groups)) [
          | none ↦ some (fatal, [])
          | some t ↦
              let server : Server simulated = make_server o (make_simulator_context t) heap in
              elim (run_events (λ ctx. ctx.t) visits server (λ conn. []) events) [
                | none ↦ none
                | some (answers, true) ↦ some (broken, answers)
                | some (answers, false) ↦ some (ended, answers)
              ]
        ]
