-- ===== src/Simulator/Peers.antt =====
-- `MakePeers` of simulator/context.go: one peer for each of the cells around an entity's own.
use envisilab.Base.{
  ℕ, suc, ◌<◌, ◌≤◌, ◌≡◌, refl, if◌then◌else◌, ◌==◌, nat_eq, eq_iff, List, [], ◌∷◌, map, arith,
  Bytes, Bool-cases, inl, inr, All,
}
use envisilab.Slice.{contents}
use envisilab.Cell.{S2, Cell, update, make_entity}
use envisilab.Heap.{Heap, allocate}
use envisilab.Topology.{Config}
use envisilab.Simulator.{make_peer, make_peers_from, make_peers}

-- The ids of a group that are not the cell's own.
unfoldable pub around : ℕ → List ℕ → List ℕ
around own [] = []
around own (cid ∷ cids) = let rest = around own cids in if cid == own then rest else cid ∷ rest

abbrev pub cell_of : Heap → ℕ → ℕ
cell_of heap a = (heap.objects.entity a).cell.s2cell_id

module _ (s2 : S2) (grow : ℕ → ℕ) (fresh : ℕ → Bytes × Bytes) where
  make_peer_lem :
      (heap : Heap) (config : Config) (cid : ℕ)
      → let (a, heap') = make_peer s2 grow fresh heap config cid in
        (a ≡ heap.objects.next)
        × (heap'.objects.next ≡ suc heap.objects.next)
        × (cell_of heap' a ≡ cid)
        × ((b : ℕ) → b < heap.objects.next → heap'.objects.entity b ≡ heap.objects.entity b)
  unfolding make_peer allocate make_entity update
  make_peer_lem heap config cid = (
    refl,
    refl,
    ground (arith, eq_iff heap.objects.next heap.objects.next),
    λ b l. ground (arith, eq_iff heap.objects.next b),
  )

  -- The entities that were there stay as they were.
  make_peers_from_old :
      (heap : Heap) (cell : Cell) (cids : List ℕ)
      → let heap' = (make_peers_from s2 grow fresh heap cell cids).1 in
        (heap.objects.next ≤ heap'.objects.next)
        × ((b : ℕ) → b < heap.objects.next → heap'.objects.entity b ≡ heap.objects.entity b)
  unfolding make_peers_from
  make_peers_from_old heap cell [] = (omega arith, λ b l. refl)
  make_peers_from_old heap cell (cid ∷ cids) =
      let made = make_peer s2 grow fresh heap cell.config cid in
      let (at, next, there, old) = make_peer_lem heap cell.config cid in
      let (le1, same1) = make_peers_from_old made.1 cell cids in
      let (le2, same2) = make_peers_from_old heap cell cids in
      (ground (arith, le1, le2, next), λ b l. ground (arith, same1 b, same2 b, old b, next))

  make_peers_from_cells :
      (heap : Heap) (cell : Cell) (cids : List ℕ)
      → let (peers, heap') = make_peers_from s2 grow fresh heap cell cids in
        map (cell_of heap') peers ≡ around cell.s2cell_id cids
  unfolding make_peers_from around
  make_peers_from_cells heap cell [] = refl
  make_peers_from_cells heap cell (cid ∷ cids) =
      let made = make_peer s2 grow fresh heap cell.config cid in
      let (at, next, there, old) = make_peer_lem heap cell.config cid in
      let (le1, same1) = make_peers_from_old made.1 cell cids in
      ground (
        arith,
        at,
        next,
        there,
        same1 made.0,
        make_peers_from_cells made.1 cell cids,
        make_peers_from_cells heap cell cids,
      )

  All-weaken : (m n : ℕ) (xs : List ℕ) → m ≤ n → All (λ a. n ≤ a) xs → All (λ a. m ≤ a) xs
  All-weaken m n [] l h = tt
  All-weaken m n (x ∷ xs) l h = (omega (arith, h.0), All-weaken m n xs l h.1)

  make_peers_from_new :
      (heap : Heap) (cell : Cell) (cids : List ℕ)
      → All (λ a. heap.objects.next ≤ a) (make_peers_from s2 grow fresh heap cell cids).0
  unfolding make_peers_from
  make_peers_from_new heap cell [] = tt
  make_peers_from_new heap cell (cid ∷ cids) =
      let made = make_peer s2 grow fresh heap cell.config cid in
      let (at, next, there, old) = make_peer_lem heap cell.config cid in
      elim (Bool-cases (cid == cell.s2cell_id)) [
        | inl own ↦ rw (own, make_peers_from) (make_peers_from_new heap cell cids)
        | inr other ↦
            rw (other, make_peers_from)
              (
                omega (arith, at),
                All-weaken heap.objects.next made.1.objects.next _ (omega (arith, next))
                    (make_peers_from_new made.1 cell cids),
              )
      ]

  -- The peers of a cell stand in the cells of its group but its own, one in each and in their order.
  -- They are new entities, and no entity that was there before has changed.
  pub make_peers-around :
      (heap : Heap) (cell : Cell)
      → let (peers, heap') = make_peers s2 grow fresh heap cell in
        (map (cell_of heap') peers ≡ around cell.s2cell_id (contents heap.memory cell.cell_group))
        × All (λ a. heap.objects.next ≤ a) peers
        × ((b : ℕ) → b < heap.objects.next → heap'.objects.entity b ≡ heap.objects.entity b)
  unfolding make_peers
  make_peers-around heap cell =
      let cids = contents heap.memory cell.cell_group in
      (
        make_peers_from_cells heap cell cids,
        make_peers_from_new heap cell cids,
        (make_peers_from_old heap cell cids).1,
      )
