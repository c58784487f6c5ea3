-- ===== src/Cell/Update.antt =====
-- An entity's cell follows its location.
use envisilab.Base.{
  ℕ, ◌≡◌, refl, sym, false, ◌∙◌, true, false, Bool-cases, inl, inr, none, some, List, [], arith,
  ◌==◌, nat_eq, eq_iff, if◌then◌else◌,
}
use envisilab.Location.{Location}
use envisilab.Slice.{Memory, Slice, contents, clear}
use envisilab.Slice.Laws.{IsSlice, contents-append_all}
use envisilab.Cell.{S2, Cell, Entity, update_bounding_cells, changed, update_entity}

pub clear-IsSlice : (m : Memory) (s : Slice) → IsSlice m s → IsSlice m (clear s)
unfolding clear
clear-IsSlice m s v = record { cells = v.cells; within = omega arith; there = v.there }

-- The slice is empty after `s[:0]`.
contents-clear : (m : Memory) (s : Slice) → contents m (clear s) ≡ []
unfolding contents clear
contents-clear m s = refl

module _ (s2 : S2) (grow : ℕ → ℕ) where
  abbrev pub cover : Cell → List ℕ
  cover c = s2.covering c.s2cell_id c.config.height c.config.topology_level

  update_bounding_cells-cover :
      (m : Memory) (c : Cell)
      → IsSlice m c.cell_group
      → let (c', m') = update_bounding_cells s2 grow m c in
        (contents m' c'.cell_group ≡ cover c) × IsSlice m' c'.cell_group
  unfolding update_bounding_cells
  update_bounding_cells-cover m c v =
      let (there, v') =
        contents-append_all grow m (clear c.cell_group) (cover c)
          (clear-IsSlice m c.cell_group v) in
      (there ∙ rw (contents-clear m c.cell_group), v')

  -- The cell group is the covering of the cell, on a slice that is in order.
  pub record IsCovered (m : Memory) (c : Cell) : Type 0 where
    pub slice : IsSlice m c.cell_group
    pub group : contents m c.cell_group ≡ cover c

  pub changed_same :
      (m : Memory) (c : Cell) (loc : Location)
      → (s2.parent loc.lat loc.lng c.config.topology_level == c.s2cell_id) ≡ true
      → changed s2 grow m c loc ≡ (false, c, m)
  unfolding changed
  changed_same m c loc h = ground arith

  pub changed_new :
      (m : Memory) (c : Cell) (loc : Location)
      → let id = s2.parent loc.lat loc.lng c.config.topology_level in
        (id == c.s2cell_id) ≡ false
        → changed s2 grow m c loc ≡ (
          true,
          (update_bounding_cells s2 grow m (record c { s2cell_id = id })).0,
          (update_bounding_cells s2 grow m (record c { s2cell_id = id })).1,
        )
  unfolding changed
  changed_new m c loc h = ground arith

  -- After an update the entity is at the location, in the cell of its latitude and longitude at the
  -- level of the configuration, and its group of cells is the covering round that cell, where it
  -- was the covering of the cell before. The subscription gets the cell exactly where it is new.
  pub update_entity-IsCovered :
      (m : Memory) (e : Entity) (loc : Location)
      → IsCovered m e.cell
      → let (e', sent, m') = update_entity s2 grow m e loc in
        let id = s2.parent loc.lat loc.lng e.cell.config.topology_level in
        (e'.location ≡ loc)
        × (e'.cell.s2cell_id ≡ id)
        × IsCovered m' e'.cell
        × (sent ≡ (if id == e.cell.s2cell_id then none else some e'.cell))
  unfolding update_entity
  update_entity-IsCovered m e loc v =
      let id = s2.parent loc.lat loc.lng e.cell.config.topology_level in
      elim (Bool-cases (id == e.cell.s2cell_id)) [
        | inl same ↦
            rw (changed_same m e.cell loc same, update_entity)
              (refl, sym ((eq_iff id e.cell.s2cell_id).0 same), v, rw same)
        | inr new ↦
            let (there, v') =
              update_bounding_cells-cover m (record (e.cell) { s2cell_id = id }) v.slice in
            rw (changed_new m e.cell loc new, update_entity)
              (unfold update_bounding_cells in
                (refl, refl, record { slice = v'; group = there }, rw new))
      ]
