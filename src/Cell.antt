-- ===== src/Cell.antt =====
-- core/cell.go, and core/entity.go below it: the cell that an entity is in, and the cells around it.
-- github.com/golang/geo/s2 is not part of the repository: `S2` holds the calls that are made on it.
pub mod Update
pub mod Shared
use envisilab.Base.{
  ℕ, ◌==◌, nat_eq, if◌then◌else◌, Bool, true, false, not, Option, none, some, List, [], Bytes,
}
use envisilab.Base.Int.{pos}
use envisilab.Location.{Location, make_location}
use envisilab.Slice.{Memory, Slice, make, clear, append_all}
use envisilab.Topology.{Config, Group}

-- `parent lat lng level` is `CellIDFromLatLng(LatLngFromDegrees(lat, lng)).Parent(level)`, and
-- `covering cell height level` the covering of the cap of that height round the cell's centre by
-- cells of that level; `center` gives a cell's centre in degrees.
pub record S2 : Type 0 where
  pub parent : ℕ → ℕ → ℕ → ℕ
  pub covering : ℕ → ℕ → ℕ → List ℕ
  pub center_lat : ℕ → ℕ
  pub center_lng : ℕ → ℕ

pub record Cell : Type 0 where
  pub s2cell_id : ℕ
  pub cell_group : Slice
  pub config : Config

unfoldable pub make_cell : Memory → Config → Cell × Memory
make_cell m config =
    let (group, m') = make m 9 in
    (record { s2cell_id = 0; cell_group = group; config = config }, m')

-- `grow` is how the runtime grows a slice.
module _ (s2 : S2) (grow : ℕ → ℕ) where
  unfoldable pub update_bounding_cells : Memory → Cell → Cell × Memory
  update_bounding_cells m c =
      let cells = s2.covering c.s2cell_id c.config.height c.config.topology_level in
      let (group, m') = append_all grow m (clear c.cell_group) cells in
      (record c { cell_group = group }, m')

  unfoldable pub update : Memory → Cell → ℕ → Cell × Memory
  unfolding update_bounding_cells
  update m c cid = update_bounding_cells m (record c { s2cell_id = cid })

  unfoldable pub changed : Memory → Cell → Location → Bool × Cell × Memory
  unfolding update_bounding_cells
  changed m c loc =
      let id = s2.parent loc.lat loc.lng c.config.topology_level in
      if not (id == c.s2cell_id)
      then (let (c', m') = update_bounding_cells m (record c { s2cell_id = id }) in (true, c', m'))
      else (false, c, m)

unfoldable pub cell_center_location : S2 → ℕ → Location
cell_center_location s2 cell_id =
    make_location (s2.center_lat cell_id) (s2.center_lng cell_id) 0 0 (pos 0)

-- The entity's subscription stands apart: `update_entity` returns what it sends to it.
pub record Entity : Type 0 where
  pub client_id : Bytes
  pub token_id : Bytes
  pub cell : Cell
  pub location : Location
  pub groups : List Group

abbrev pub zero_location : Location
zero_location = record { lat = 0; lng = 0; alt = 0; heading = 0; timestamp = pos 0 }

unfoldable pub make_entity : Bytes → Bytes → Cell → Entity
make_entity client_id token_id c = record {
  client_id = client_id;
  token_id = token_id;
  cell = c;
  location = zero_location;
  groups = [];
}

unfoldable pub set_groups : Entity → List Group → Entity
set_groups e groups = record e { groups = groups }

unfoldable pub expired : Entity → Bool
expired e = false

-- `Update`: where the cell has changed, a copy of it goes to the subscription.
unfoldable pub update_entity :
    S2 → (ℕ → ℕ) → Memory → Entity → Location → Entity × Option Cell × Memory
unfolding changed
update_entity s2 grow m e loc =
    let (differs, c, m') = changed s2 grow m e.cell loc in
    let e' : Entity = record e { location = loc; cell = c } in
    if not differs then (e', none, m') else (e', some c, m')
