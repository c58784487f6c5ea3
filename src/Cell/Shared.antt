-- ===== src/Cell/Shared.antt =====
-- The copy of the cell that core/entity.go sends to the subscription shares its array of ids.
use envisilab.Base.{ℕ, ◌≡◌, refl, ap, length, take-append, arith, ◌==◌, nat_eq, false}
use envisilab.Slice.{Memory, Slice, contents, clear}
use envisilab.Slice.Laws.{IsSlice, append_all_within, length-contents}
use envisilab.Location.{Location}
use envisilab.Cell.{S2, Cell, Entity, update_bounding_cells, update_entity}
use envisilab.Cell.Update.{IsCovered, cover, changed_new}

module _ (s2 : S2) (grow : ℕ → ℕ) where
  -- The array below a slice after the group of a cell was rebuilt on it.
  overwritten :
      (m : Memory) (c : Cell) (g : Slice)
      → IsSlice m g
      → c.cell_group ≡ g
      → length (cover s2 grow c) ≡ g.len
      → contents (update_bounding_cells s2 grow m c).1 g ≡ cover s2 grow c
  unfolding update_bounding_cells contents clear
  overwritten m c g v e l =
      let new = cover s2 grow c in
      let (stays, cells) =
        append_all_within grow m (record g { len = 0 }) new
          (record { cells = v.cells; within = omega arith; there = v.there })
          (omega (arith, l, v.within)) in
      rw (e, cells) (take-append g.len new _ l)

  -- A copy of a cell, which an entity sends to its subscription, does not keep its group: once the
  -- entity moves to another cell, with a covering of as many cells, the group of the copy is the
  -- covering of the new cell, where it was that of the cell copied. The copy's id stays.
  pub update_entity_changes_copy :
      (m : Memory) (e : Entity) (copy : Cell) (loc : Location)
      → IsCovered s2 grow m e.cell
      → copy ≡ e.cell
      → let id = s2.parent loc.lat loc.lng e.cell.config.topology_level in
        let new = cover s2 grow (record (e.cell) { s2cell_id = id }) in
        (id == e.cell.s2cell_id) ≡ false
        → length new ≡ length (cover s2 grow e.cell)
        → (contents m copy.cell_group ≡ cover s2 grow copy)
          × (contents (update_entity s2 grow m e loc).2 copy.cell_group ≡ new)
  unfolding update_entity
  update_entity_changes_copy m e copy loc v same differs l =
      let id = s2.parent loc.lat loc.lng e.cell.config.topology_level in
      let moved : Cell = record (e.cell) { s2cell_id = id } in
      let size : length (cover s2 grow moved) ≡ e.cell.cell_group.len =
        omega (arith, l, ap length v.group, length-contents m e.cell.cell_group v.slice) in
      (
        rw same v.group,
        rw (same, changed_new s2 grow m e.cell loc differs, update_entity)
            (overwritten m moved e.cell.cell_group v.slice refl size),
      )
