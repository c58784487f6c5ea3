-- ===== src/Tests/Follow.antt =====
-- An entity whose data channel is not open when its first location arrives.
use envisilab.Base.{true, List, [], ◌∷◌}
use envisilab.Subscription.{make_subscription, local, group}
use envisilab.Follow.{Live, Event, moved, filtered}
use envisilab.Tests.Cell.{memory, entity, at}

abbrev live : Live
live = record {
  heap = record { memory = memory; objects = record { next = 1; entity = λ a. entity } };
  subscription = make_subscription;
}

-- The channel opens, the entity moves within the cell, and the client asks for its cell once more.
abbrev later : List Event
later =
    moved (at 8) true
    ∷ filtered (record { kind = group; value = 7 ∷ [] }) true
    ∷ filtered (record { kind = local; value = [] }) true
    ∷ moved (at 8) true
    ∷ []
