-- ===== src/Tests/Programs.antt =====
-- The aggregator over Redis in memory and a database that answers.
use envisilab.Base.{◌≡◌, ◌⊎◌, none, some, List, [], ◌∷◌, length}
use envisilab.Topology.{Float64}
use envisilab.Server.{Answer}
use envisilab.Programs.{Event, request, delivery, fatal, broken, aggregator_main}
use envisilab.Programs.Runs.{connected, fails, asked, aggregator_main_runs}
use envisilab.Subscriber.Delivery.{message, failure}
use envisilab.Topology.Fanout.{to_cells, to_groups}
use envisilab.Tests.Instances.{redis, server, in_order, no_redis, nothing}
use envisilab.Tests.Store.{database}
use envisilab.Tests.Endpoint.{heap, client, token}
use envisilab.Tests.Server.{outside, to}

-- Floats that are all alike.
abbrev floats : Float64
floats = record {
  mul = λ x y. x;
  div = λ x y. x;
  two = 1;
  two_pi = 1;
  earth_circumference_meters = 1;
}

-- A sync, a message on a channel, a beacon, and then the end of the connection to Redis.
abbrev events : List (Event outside)
events =
    request (to [] client)
    ∷ delivery to_cells (message (1 ∷ []) (2 ∷ []))
    ∷ request (to token [])
    ∷ delivery to_groups (failure [])
    ∷ request (to token [])
    ∷ []

aggregator_main_runs_example :
    ((connected outside redis server floats in_order no_redis nothing nothing heap in_order events
        ≡ none)
      × (aggregator_main outside redis server floats in_order database no_redis nothing nothing heap
            in_order events
          ≡ some (fatal, [])))
    ⊎ ((answers : List (Answer outside)) × (aggregator_main outside redis server floats in_order
            database no_redis nothing nothing heap in_order events
          ≡ some (broken, answers))
        × (length answers ≡ 2))
unfolding fails asked
aggregator_main_runs_example =
    aggregator_main_runs outside redis server floats in_order no_redis nothing nothing heap in_order
      events database
