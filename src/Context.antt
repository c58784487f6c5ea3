-- ===== src/Context.antt =====
-- core/context.go, `DataStoreContext`: the topology and the data store behind the endpoint. A result
-- `none` is a panic on a `nil` database handle.
pub mod NeverStored
pub mod Interface
pub mod Stored
pub mod Total
use envisilab.Base.{
  ℕ, Bool, true, false, Option, none, some, is_some, if◌then◌else◌, List, [], Bytes, Text, Error,
  text,
}
use envisilab.Base.Decimal.{format_uint}
use envisilab.Redis.{Pool, PubSub}
use envisilab.Uuid.{Uuid}
use envisilab.Message.Header.{nil_uuid}
use envisilab.Location.{Location}
use envisilab.Slice.{Memory}
use envisilab.Cell.{Cell, Entity, make_cell, make_entity}
use envisilab.DataStore.{Sql, DataStore, is_connected, new_entity, location_data}
use envisilab.DataStore
use envisilab.Subscriber.{Conn}
use envisilab.Topology.{Topology}
use envisilab.Topology

-- `Activity` of core/activity.go.
pub record Activity : Type 0 where
  pub client_id : Bytes
  pub locations : List Location

abbrev pub zero_activity : Activity
zero_activity = record { client_id = nil_uuid; locations = [] }

abbrev pub not_connected : Error
not_connected = some (text "Database is not connected.")

module _ (p : Pool) (ps : PubSub) (sql : Sql) where
  pub record DataStoreContext : Type 0 where
    pub t : Topology p ps
    pub store : DataStore sql

-- The entity as the database gets to know it, where there is one.
unfoldable pub store_entity :
    {sql : Sql} → DataStore sql → Bytes → Bytes → ℕ → Option (DataStore sql × Error)
store_entity store client_id token_id user_agent =
    if is_connected store
    then new_entity store client_id token_id (format_uint user_agent)
    else some (store, none)

module _ {p : Pool} {ps : PubSub} {sql : Sql} where
  unfoldable pub make_data_store_context : Topology p ps → DataStore sql → DataStoreContext p ps sql
  make_data_store_context t store = record { t = t; store = store }

  module _ (u : Uuid) where
    unfoldable pub create_token :
        DataStoreContext p ps sql
        → Bytes × Error
        → Bytes
        → Bytes × Error × DataStoreContext p ps sql
    create_token ctx random client_id =
        let (token, err, t) = Topology.create_token u ctx.t random client_id in
        (token, err, record ctx { t = t })

    unfoldable pub get_client_id :
        DataStoreContext p ps sql → Bytes → Bytes × Error × DataStoreContext p ps sql
    get_client_id ctx token_id =
        let (cid, err, t) = Topology.get_client_id u ctx.t token_id in
        (cid, err, record ctx { t = t })

    unfoldable pub create_entity :
        DataStoreContext p ps sql
        → Memory
        → Bytes
        → ℕ
        → Option ((Option Entity × Error) × (DataStoreContext p ps sql × Memory))
    unfolding store_entity
    create_entity ctx m token_id user_agent =
        let (client_id, err, t) = Topology.get_client_id u ctx.t token_id in
        if is_some err
        then some ((none, err), (record ctx { t = t }, m))
        else elim (store_entity ctx.store client_id token_id user_agent) [
          | none ↦ none
          | some (store, err') ↦
              let ctx' : DataStoreContext p ps sql = record { t = t; store = store } in
              if is_some err'
              then some ((none, err'), (ctx', m))
              else (let (cell, m') = make_cell m t.config in
                  some ((some (make_entity client_id token_id cell), none), (ctx', m')))
        ]

    unfoldable pub get_data :
        DataStoreContext p ps sql → Bytes → Option ((Activity × Error) × DataStoreContext p ps sql)
    get_data ctx token_id =
        let (client_id, err, t) = Topology.get_client_id u ctx.t token_id in
        let ctx' : DataStoreContext p ps sql = record ctx { t = t } in
        if is_some err
        then some ((zero_activity, err), ctx')
        else if is_connected ctx.store
        then elim (DataStore.get_data ctx.store token_id) [
          | none ↦ none
          | some (locations, err') ↦
              some ((record { client_id = client_id; locations = locations }, err'), ctx')
        ]
        else some ((zero_activity, not_connected), ctx')

  unfoldable pub standby : DataStoreContext p ps sql → Entity → Bytes → Error
  standby ctx entity message = none

  -- The location goes to the database first, where there is one; its error ends the broadcast.
  unfoldable pub broadcast :
      DataStoreContext p ps sql → Entity → Bytes → Option (Error × DataStoreContext p ps sql)
  broadcast ctx entity message =
      let stored : Option (DataStore sql × Error) =
        if is_connected ctx.store
        then location_data ctx.store entity.token_id entity.location
        else some (ctx.store, none) in
      elim stored [
        | none ↦ none
        | some (store, err) ↦
            if is_some err
            then some (err, record ctx { store = store })
            else (let (t, err') =
                  Topology.broadcast ctx.t entity.cell.s2cell_id entity.groups message in
                some (err', record { t = t; store = store }))
      ]

  unfoldable pub subscribe_to_cell :
      (List Text → List Text)
      → DataStoreContext p ps sql
      → Conn
      → List ℕ
      → DataStoreContext p ps sql × Error
  subscribe_to_cell order ctx conn cell_group =
      let (t, err) = Topology.subscribe_to_cell order ctx.t conn cell_group in
      (record ctx { t = t }, err)

  unfoldable pub subscribe_to_group :
      (List Text → List Text)
      → DataStoreContext p ps sql
      → Conn
      → Text
      → DataStoreContext p ps sql × Error
  subscribe_to_group order ctx conn group_id =
      let (t, err) = Topology.subscribe_to_group order ctx.t conn group_id true in
      (record ctx { t = t }, err)

  unfoldable pub unsubscribe_from_groups :
      (List Text → List Text) → DataStoreContext p ps sql → Conn → DataStoreContext p ps sql × Error
  unsubscribe_from_groups order ctx conn =
      let (t, err) = Topology.unsubscribe_from_groups order ctx.t conn in
      (record ctx { t = t }, err)

  unfoldable pub unsubscribe :
      (List Text → List Text) → DataStoreContext p ps sql → Conn → DataStoreContext p ps sql × Error
  unsubscribe order ctx conn =
      let (t, err) = Topology.unsubscribe_all order ctx.t conn in (record ctx { t = t }, err)
