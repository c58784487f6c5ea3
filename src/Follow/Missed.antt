-- ===== src/Follow/Missed.antt =====
-- The cell that core/entity.go offers only once.
use envisilab.Base.{ℕ, ◌≡◌, Bool, true, false, none, List, [], ◌∷◌, nat_eq, list_eq}
use envisilab.Location.{Location}
use envisilab.Cell.{S2, Cell}
use envisilab.Heap.{Heap}
use envisilab.Subscription.{
  local, group, UserFilter, Input, cell_filter, user_filter, Call, subscribe_to_cell,
  subscribe_to_group, unsubscribe, Subscription,
}
use envisilab.Subscription
use envisilab.Follow.{Live, Event, moved, filtered}

module _ (s2 : S2) (grow : ℕ → ℕ) (entity : ℕ) where
  abbrev pub level : Heap → ℕ
  level heap = (heap.objects.entity entity).cell.config.topology_level

  -- A location of the event lies in the cell `id` at the level.
  abbrev pub InCell : ℕ → ℕ → Event → Type 0
  InCell lvl id (moved loc waiting) = s2.parent loc.lat loc.lng lvl ≡ id
  InCell lvl id (filtered uf waiting) = Unit

  -- None of the calls subscribes to a cell.
  abbrev pub no_cells : List (Call Cell) → Bool
  no_cells [] = true
  no_cells (subscribe_to_cell c ∷ calls) = false
  no_cells (subscribe_to_group g ∷ calls) = no_cells calls
  no_cells (unsubscribe ∷ calls) = no_cells calls

  record IsMissed (lvl id : ℕ) (live : Live) : Type 0 where
    at_level : level live.heap ≡ lvl
    at_cell : (live.heap.objects.entity entity).cell.s2cell_id ≡ id
    unknown : live.subscription.cell ≡ none
