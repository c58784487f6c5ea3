-- ===== src/Tests/Store.antt =====
-- core/context.go over a database that accepts everything.
use mathlib.Core.Option
use envisilab.Base.{ℕ, suc, ◌≡◌, true, none, some, is_some, [], Bool}
use envisilab.DataStore.{Sql}
use envisilab.Slice.{Memory}
use envisilab.Topology.{Config, Topology, make_topology}
use envisilab.Cell.{Entity, zero_location}
use envisilab.Context.{Activity, zero_activity, create_entity, broadcast, get_data}
use envisilab.Context.NeverStored.{aggregator_store, aggregator_context, context_never_stores}
use envisilab.Tests.Instances.{server, nothing, redis, no_redis, plain}

abbrev pub database : Sql
database = record {
  Db = ℕ;
  open_db = λ kind info. (none, 0);
  ping = λ db. none;
  insert_entity = λ db client token agent. suc db;
  prepare = λ db. none;
  insert_location = λ db token loc. (none, suc db);
  select_locations = λ db token. ([], none, none);
}

abbrev pub config : Config
config = record {
  search_radius_meters = 100;
  topology_level = 15;
  height = 1;
  redis_url = [];
  token_timeout_sec = 30;
}

abbrev pub topology : Topology redis server
topology = make_topology config no_redis nothing nothing

abbrev pub memory : Memory
memory = record { next = 0; array = λ a. [] }

abbrev pub entity : Entity
entity = record {
  client_id = [];
  token_id = [];
  cell = record {
    s2cell_id = 3;
    cell_group = record { base = 0; len = 0; cap = 0 };
    config = config;
  };
  location = zero_location;
  groups = [];
}

context_never_stores_example :
    (Option.map
        (λ r. r.1.0.store)
        (create_entity plain (aggregator_context database redis server plain topology) memory [] 1)
      ≡ some (aggregator_store database))
    × (Option.map
          (λ r. r.1.store)
          (broadcast (aggregator_context database redis server plain topology) entity [])
        ≡ some (aggregator_store database))
    × (Option.map {B = Activity × Bool}
          (λ r. (r.0.0, is_some r.0.1))
          (get_data plain (aggregator_context database redis server plain topology) [])
        ≡ some (zero_activity, true))
context_never_stores_example =
    context_never_stores database redis server plain topology memory [] 1 entity []
