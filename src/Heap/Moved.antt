-- ===== src/Heap/Moved.antt =====
-- What `Update` of core/entity.go does to the entity at an address.
use envisilab.Base.{ℕ, ◌≡◌, nat_eq, eq_iff, eq_self, arith}
use envisilab.Location.{Location}
use envisilab.Cell.{S2, update_entity}
use envisilab.Cell
use envisilab.Heap.{Heap, update_at, assign}

-- `Update` moves the entity to the cell of the location, at the level that it had, and leaves its groups.
pub moved_entity :
    (s2 : S2) (grow : ℕ → ℕ) (heap : Heap) (a : ℕ) (loc : Location)
    → let e = heap.objects.entity a in
      let e' = (update_at s2 grow heap a loc).1.objects.entity a in
      (e'.cell.s2cell_id ≡ s2.parent loc.lat loc.lng e.cell.config.topology_level)
      × (e'.groups ≡ e.groups)
      × (e'.cell.config.topology_level ≡ e.cell.config.topology_level)
unfolding update_at assign update_entity Cell.changed Cell.update_bounding_cells
moved_entity s2 grow heap a loc =
    let e = heap.objects.entity a in
    ground (
      arith,
      eq_self a,
      eq_iff (s2.parent loc.lat loc.lng e.cell.config.topology_level) e.cell.s2cell_id,
    )
