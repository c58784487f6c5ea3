-- ===== src/Tests/Cell.antt =====
-- core/cell.go and core/entity.go over a line of cells.
use envisilab.Base.{ℕ, suc, ◌≡◌, refl, some, [], ◌∷◌, nat_eq, arith, replicate}
use envisilab.Base.Int.{pos}
use envisilab.Location.{Location}
use envisilab.Slice.{Memory, Slice, contents}
use envisilab.Topology.{Config}
use envisilab.Cell.{S2, Cell, Entity, update_entity}
use envisilab.Cell.Update.{IsCovered, update_entity-IsCovered}
use envisilab.Cell.Shared.{update_entity_changes_copy}

-- The cell of a place is its latitude, and it is covered with the next one.
abbrev pub line : S2
line = record {
  parent = λ lat lng level. lat;
  covering = λ cell height level. cell ∷ suc cell ∷ [];
  center_lat = λ cell. cell;
  center_lng = λ cell. 0;
}

abbrev pub twice : ℕ → ℕ
twice n = n

abbrev pub config : Config
config = record {
  search_radius_meters = 100;
  topology_level = 15;
  height = 1;
  redis_url = [];
  token_timeout_sec = 30;
}

abbrev pub memory : Memory
memory = record { next = 1; array = λ a. 4 ∷ 5 ∷ replicate 7 0 }

abbrev pub group_slice : Slice
group_slice = record { base = 0; len = 2; cap = 9 }

abbrev pub cell : Cell
cell = record { s2cell_id = 4; cell_group = group_slice; config = config }

abbrev pub at : ℕ → Location
at lat = record { lat = lat; lng = 0; alt = 0; heading = 0; timestamp = pos 0 }

abbrev pub entity : Entity
entity = record { client_id = []; token_id = []; cell = cell; location = at 4; groups = [] }

cell-IsCovered : IsCovered line twice memory cell
unfolding contents
cell-IsCovered = record {
  slice = record { cells = omega arith; within = omega arith; there = omega arith };
  group = refl;
}

update_entity-IsCovered_example :
    (let (e', sent, m') = update_entity line twice memory entity (at 8) in
      (e'.location ≡ at 8)
      × (e'.cell.s2cell_id ≡ 8)
      × IsCovered line twice m' e'.cell
      × (sent ≡ some e'.cell))
update_entity-IsCovered_example =
    update_entity-IsCovered line twice memory entity (at 8) cell-IsCovered

update_entity_changes_copy_example :
    (contents memory cell.cell_group ≡ 4 ∷ 5 ∷ [])
    × (contents (update_entity line twice memory entity (at 8)).2 cell.cell_group ≡ 8 ∷ 9 ∷ [])
update_entity_changes_copy_example =
    update_entity_changes_copy line twice memory entity cell (at 8) cell-IsCovered refl refl refl
