-- ===== src/Follow.antt =====
-- An entity (core/entity.go) and the goroutine of its subscription (core/subscriber.go): how a new cell
-- gets from `Update` to the subscription of the connection.
pub mod Missed
use envisilab.Base.{ℕ, Bool, true, false, Option, none, some, List, [], ◌∷◌, ◌++◌}
use envisilab.Location.{Location}
use envisilab.Cell.{S2, Cell}
use envisilab.Heap.{Heap, update_at}
use envisilab.Subscription.{UserFilter, Input, cell_filter, user_filter, Call, Subscription, offer}

-- The entity stands at an address of the heap.
pub record Live : Type 0 where
  pub heap : Heap
  pub subscription : Subscription Cell

-- A location or a filter arrives, and the goroutine waits for it or does not: it does not before the
-- client has opened its data channel.
pub data Event : Type 0 where
  moved : Location → Bool → Event
  filtered : UserFilter → Bool → Event

module _ (s2 : S2) (grow : ℕ → ℕ) (entity : ℕ) where
  -- `Update` with `setCellFilter`, or `setUserFilter`.
  unfoldable pub happen : Live → Event → Live × List (Call Cell)
  happen live (moved loc waiting) =
      let (sent, heap) = update_at s2 grow live.heap entity loc in
      elim sent [
        | none ↦ (record live { heap = heap }, [])
        | some c ↦
            let (flow, subscription, calls) = offer waiting live.subscription (cell_filter c) in
            (record { heap = heap; subscription = subscription }, calls)
      ]
  happen live (filtered uf waiting) =
      let (flow, subscription, calls) = offer waiting live.subscription (user_filter uf) in
      (record live { subscription = subscription }, calls)

  unfoldable pub follow : Live → List Event → Live × List (Call Cell)
  follow live [] = (live, [])
  follow live (e ∷ es) =
      let (live', calls) = happen live e in
      let (live'', rest) = follow live' es in (live'', calls ++ rest)
