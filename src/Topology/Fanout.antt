-- ===== src/Topology/Fanout.antt =====
-- From a broadcast of core/topology.go to the connections: the goroutines `Run` of the two subscribers
-- (core/subscriber.go) take what Redis sends each of them, in any order between the two.
pub mod Calls
pub mod Heard
pub mod Reaches
pub mod FromStart
use envisilab.Base.{ℕ, Option, none, some, List, [], ◌∷◌, nat_eq, ◌==◌, Text, Bytes}
use envisilab.Redis.{Pool, PubSub}
use envisilab.Subscriber.{Conn, Subscriber}
use envisilab.Subscriber.Delivery.{Outboxes, message, receive}
use envisilab.Topology.{Topology}

-- A copy comes to the subscriber for cells, or to the one for groups.
pub data Feed : Type 0 where
  to_cells to_groups : Feed

module _ {p : Pool} {ps : PubSub} where
  abbrev pub feed : Topology p ps → Feed → Subscriber ps
  feed t to_cells = t.cell_subscriber
  feed t to_groups = t.group_subscriber

  -- Copies of one message, each with the goroutine that it comes to and its channel.
  unfoldable pub deliver :
      (List Conn → List Conn)
      → Topology p ps
      → Bytes
      → List (Feed × Text)
      → Outboxes
      → Option Outboxes
  deliver visits t data' [] out = some out
  deliver visits t data' ((f, channel) ∷ copies) out =
      elim (receive visits (feed t f) (message channel data') out) [
        | none ↦ none
        | some out' ↦ deliver visits t data' copies out'
      ]

-- The channels of the copies for one of the two.
abbrev pub for_cells : List (Feed × Text) → List Text
for_cells [] = []
for_cells ((to_cells, channel) ∷ copies) = channel ∷ for_cells copies
for_cells ((to_groups, channel) ∷ copies) = for_cells copies

abbrev pub for_groups : List (Feed × Text) → List Text
for_groups [] = []
for_groups ((to_cells, channel) ∷ copies) = for_groups copies
for_groups ((to_groups, channel) ∷ copies) = channel ∷ for_groups copies
