-- ===== src/Context/Total.antt =====
-- The methods of `DataStoreContext` (core/context.go) that may reach the database.
use envisilab.Base.{
  ℕ, ◌≡◌, ◌≢◌, ◌⊎◌, refl, none, some, inl, inr, Option-cases, present, if◌then◌else◌, arith, Bytes,
  Text, Error,
}
use envisilab.Base.Decimal.{format_uint}
use envisilab.Location.{Location}
use envisilab.Redis.{Pool, PubSub}
use envisilab.Uuid.{Uuid}
use envisilab.Slice.{Memory}
use envisilab.Cell.{Entity, make_entity, make_cell}
use envisilab.DataStore.{Sql, DataStore, is_connected, new_entity, location_data}
use envisilab.DataStore
use envisilab.Topology
use envisilab.Context.{DataStoreContext, Activity, store_entity, create_entity, broadcast, get_data}

-- The methods of the data store panic on a `nil` handle only, and the context looks first.
module _ {sql : Sql} (store : DataStore sql) where
  store_entity_present :
      (client token : Bytes) (user_agent : ℕ)
      → (store' : DataStore sql) × (store_entity store client token user_agent
          ≡ some (store', none))
  unfolding store_entity is_connected new_entity
  store_entity_present client token user_agent = elim (Option-cases store.db) [
    | inl nil ↦ (store, ground (arith, nil))
    | inr (db, there) ↦ (
      record store { db = some (sql.insert_entity db client token (format_uint user_agent)) },
      ground (arith, there),
    )
  ]

  location_data_present :
      (token : Bytes) (loc : Location)
      → (if is_connected store then location_data store token loc else some (store, none)) ≢ none
  unfolding is_connected location_data
  location_data_present token loc gone = elim (Option-cases store.db) [
    | inl nil ↦ ground (arith, nil)
    | inr (db, there) ↦ ground (arith, there)
  ]

module _ {p : Pool} {ps : PubSub} {sql : Sql} where
  pub broadcast_present :
      (ctx : DataStoreContext p ps sql) (entity : Entity) (message : Bytes)
      → (r : Error × DataStoreContext p ps sql) × (broadcast ctx entity message ≡ some r)
  unfolding broadcast
  broadcast_present ctx entity message =
      present (broadcast ctx entity message)
        (λ gone. ground (arith, location_data_present ctx.store entity.token_id entity.location))

  pub get_data_present :
      (u : Uuid) (ctx : DataStoreContext p ps sql) (token : Bytes)
      → (r : (Activity × Error) × DataStoreContext p ps sql) × (get_data u ctx token ≡ some r)
  unfolding get_data is_connected DataStore.get_data
  get_data_present u ctx token = present (get_data u ctx token) (λ gone.
      elim (Option-cases ctx.store.db) [
        | inl nil ↦ ground (arith, nil)
        | inr (db, there) ↦ ground (arith, there)
      ])

  -- An error and no entity, or an entity with the token.
  pub create_entity_cases :
      (u : Uuid) (ctx : DataStoreContext p ps sql) (m : Memory) (token : Bytes) (user_agent : ℕ)
      → ((err : Text) × (ctx' : DataStoreContext p ps sql) × (create_entity u ctx m token user_agent
            ≡ some ((none, some err), (ctx', m))))
        ⊎ ((e : Entity) × (ctx' : DataStoreContext p ps sql) × (m' : Memory) × (create_entity u ctx
                m token user_agent
              ≡ some ((some e, none), (ctx', m')))
            × (e.token_id ≡ token))
  unfolding create_entity make_entity
  create_entity_cases u ctx m token user_agent =
      let (client, failed, t) = Topology.get_client_id u ctx.t token in
      elim (Option-cases failed) [
        | inr (err, bad) ↦ inl (err, record ctx { t = t }, ground (arith, bad))
        | inl fine ↦
            let (store', stored) = store_entity_present ctx.store client token user_agent in
            let (cell, m') = make_cell m t.config in
            inr (
              make_entity client token cell,
              record { t = t; store = store' },
              m',
              ground (arith, fine, stored),
              refl,
            )
      ]
