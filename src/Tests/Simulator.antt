-- ===== src/Tests/Simulator.antt =====
-- simulator/context.go over Redis in memory and a line of cells.
use envisilab.Base.{ℕ, ◌≤◌, ◌<◌, ◌≡◌, nat_eq, list_eq, [], ◌∷◌, map, All, Bytes}
use envisilab.Slice.{contents}
use envisilab.Heap.{Heap}
use envisilab.Simulator.{make_peers}
use envisilab.Simulator.Peers.{around, cell_of, make_peers-around}
use envisilab.Tests.Cell.{line, twice}
use envisilab.Tests.Cell

abbrev fresh : ℕ → Bytes × Bytes
fresh a = (a ∷ [], a ∷ [])

abbrev heap : Heap
heap = record { memory = Cell.memory; objects = record { next = 1; entity = λ a. Cell.entity } }

-- The group of the cell is 4 and 5.
make_peers-around_example :
    (let (peers, heap') = make_peers line twice fresh heap Cell.cell in
      (map (cell_of heap') peers ≡ around 4 (contents Cell.memory Cell.cell.cell_group))
      × All (λ a. 1 ≤ a) peers
      × ((b : ℕ) → b < 1 → heap'.objects.entity b ≡ Cell.entity))
make_peers-around_example = make_peers-around line twice fresh heap Cell.cell
