-- ===== src/Context/NeverStored.antt =====
-- The data store of core/datastore.go under core/context.go: what reaches the database.
use mathlib.Core.Option
use envisilab.Base.{ℕ, ◌≡◌, refl, Bool, true, false, some, is_some, arith, Bytes}
use envisilab.Redis.{Pool, PubSub}
use envisilab.Uuid.{Uuid}
use envisilab.Slice.{Memory}
use envisilab.Cell.{Entity}
use envisilab.DataStore.{Sql, DataStore, make_data_store, connect, is_connected}
use envisilab.Topology.{Topology}
use envisilab.Context.{
  DataStoreContext, Activity, zero_activity, make_data_store_context, store_entity, create_entity,
  get_data, broadcast,
}

module _ (sql : Sql) where
  -- `Connect` keeps its database handle to itself, so that no number of calls, successful ones
  -- included, connects a data store that is not connected.
  connect-is_connected :
      (ds : DataStore sql) → is_connected ds ≡ false → is_connected (connect ds).0 ≡ false
  unfolding connect is_connected
  connect-is_connected ds h = ground arith

  never_connected : is_connected (connect (make_data_store {sql = sql})).0 ≡ false
  never_connected =
      connect-is_connected make_data_store (unfold make_data_store is_connected in refl)

  -- The store that the aggregator runs with: made, and told to connect.
  abbrev pub aggregator_store : DataStore sql
  aggregator_store = (connect make_data_store).0

  module _ (p : Pool) (ps : PubSub) (u : Uuid) (t : Topology p ps) where
    abbrev pub aggregator_context : DataStoreContext p ps sql
    aggregator_context = make_data_store_context t aggregator_store

    never_created :
        (m : Memory) (token : Bytes) (user_agent : ℕ)
        → Option.map (λ r. r.1.0.store) (create_entity u aggregator_context m token user_agent)
          ≡ some aggregator_store
    unfolding make_data_store_context create_entity store_entity
    never_created m token user_agent = ground (arith, never_connected)

    never_sent :
        (entity : Entity) (message : Bytes)
        → Option.map (λ r. r.1.store) (broadcast aggregator_context entity message)
          ≡ some aggregator_store
    unfolding make_data_store_context broadcast
    never_sent entity message = ground (arith, never_connected)

    never_got :
        (token : Bytes)
        → Option.map {B = Activity × Bool}
            (λ r. (r.0.0, is_some r.0.1))
            (get_data u aggregator_context token)
          ≡ some (zero_activity, true)
    unfolding make_data_store_context get_data
    never_got token = ground (arith, never_connected)

    -- Whatever the database answers to `Connect`: to create an entity and to broadcast its location
    -- change nothing in the store, and `GetData` returns no location and reports an error, for every
    -- token. None of the three panics.
    pub context_never_stores :
        (m : Memory) (token : Bytes) (user_agent : ℕ) (entity : Entity) (message : Bytes)
        → (Option.map (λ r. r.1.0.store) (create_entity u aggregator_context m token user_agent)
            ≡ some aggregator_store)
          × (Option.map (λ r. r.1.store) (broadcast aggregator_context entity message)
              ≡ some aggregator_store)
          × (Option.map {B = Activity × Bool}
                (λ r. (r.0.0, is_some r.0.1))
                (get_data u aggregator_context token)
              ≡ some (zero_activity, true))
    context_never_stores m token user_agent entity message =
        (never_created m token user_agent, never_sent entity message, never_got token)
