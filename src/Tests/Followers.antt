-- ===== src/Tests/Followers.antt =====
-- A beacon of the client of Tests/Server, with the connections of Tests/Topology.
use envisilab.Base.{
  ◌≡◌, refl, true, false, none, some, List, [], ◌∷◌, list_eq, nat_eq, Bytes, Text, text,
}
use envisilab.Base.Int.{add64, sub64}
use envisilab.Base.Decimal.{format_uint, decimal}
use envisilab.Base.Dict.{
  inner, empty, is_empty, get, set, delete, keys, find, without, names, drop_key,
}
use envisilab.Redis.{select}
use envisilab.Publisher.{publish_message, set_token, parse_client_id}
use envisilab.Publisher
use envisilab.DataStore.{make_data_store, is_connected}
use envisilab.Subscriber.{
  Conn, make_subscriber, subscribe, unsubscribe, subscribe_cells, subscribe_no_lock,
  unsubscribe_no_lock, leave_channels, leave_channel,
}
use envisilab.Subscriber
use envisilab.Subscriber.Delivery.{Outboxes, writes}
use envisilab.Topology.{
  Topology, subscribe_to_cell, subscribe_to_group, make_topology, broadcast, publish_groups,
}
use envisilab.Topology
use envisilab.Topology.Exclusive.{Call, to_cell, to_group, apply, apply_all, smooth, all_smooth}
use envisilab.Subscriber.Calls.{step, quiet}
use envisilab.Topology.Broadcasts.{groups_accepted}
use envisilab.Topology.Fanout.{Feed, to_cells, deliver}
use envisilab.Topology.Fanout.Reaches.{AreCopies, channels_of, wants, IsAfter, apply_all-IsAfter}
use envisilab.Context.{make_data_store_context, store_entity, create_token}
use envisilab.Context
use envisilab.Context.Stored.{point_to}
use envisilab.Cell.{make_entity}
use envisilab.Heap.{allocate, update_at}
use envisilab.Endpoint.{in_sync, make_endpoint, create_entity, get_entity}
use envisilab.Endpoint.Http.{silent}
use envisilab.Endpoint.Sync.{sync_handler, sync_client}
use envisilab.Server.{Server, make_server, answer, handle, serve}
use envisilab.Server.Followers.{serve_reaches, beacon_topology}
use envisilab.Server.Sessions.{beacon_message}
use envisilab.Tests.Instances.{
  server, server-IsPubSub, nothing, in_order, texts_in_order, numbers_in_order, redis, redis-IsPool,
  no_redis,
}
use envisilab.Tests.Cell.{line, twice}
use envisilab.Tests.Store.{database}
use envisilab.Tests.Topology.{config, fresh, team}
use envisilab.Tests.Fanout.{broker}
use envisilab.Tests.Endpoint.{ops, token}
use envisilab.Tests.Server.{outside, to, first, place, on_time}

-- Connection 1 is in a group, and connection 2 follows the cell of the place.
abbrev pub calls : List Call
calls = to_group 1 team true ∷ to_cell 2 (8 ∷ 9 ∷ []) ∷ []

accepted : all_smooth in_order fresh calls ≡ true
unfolding all_smooth smooth apply subscribe_to_cell subscribe_to_group make_topology
    Subscriber.subscribe_to_cell quiet step make_subscriber subscribe unsubscribe subscribe_cells
    subscribe_no_lock unsubscribe_no_lock leave_channels leave_channel inner empty is_empty get set
    delete keys find without names drop_key format_uint decimal
accepted = refl

abbrev pub followed : Topology redis server
followed = apply_all in_order (make_topology config no_redis nothing nothing) calls

-- The server behind the sync, with the subscriptions of the calls.
abbrev pub service : Server ops
service = record (first.1) {
  endpoint = record (first.1.endpoint) { ctx = record (first.1.endpoint.ctx) { t = followed } };
}

abbrev pub sent : Topology redis server
sent = (beacon_topology outside redis server database in_order service (to token []) 0).0

abbrev pub copies : List (Feed × Text)
copies = (to_cells, format_uint 8) ∷ []

pub token_known : get_entity service.endpoint token ≡ (some 0, none)
unfolding get_entity serve handle make_server sync_handler sync_client in_sync add64 sub64 text
    create_entity point_to allocate create_token Topology.create_token set_token
    Context.create_entity Topology.get_client_id Publisher.get_client_id parse_client_id
    store_entity is_connected make_data_store make_topology make_endpoint make_data_store_context
    make_entity get set find without empty
token_known = refl

pub not_connected : is_connected service.endpoint.ctx.store ≡ false
unfolding serve handle make_server sync_handler sync_client in_sync add64 sub64 text create_entity
    point_to allocate create_token Topology.create_token set_token Context.create_entity
    Topology.get_client_id Publisher.get_client_id parse_client_id store_entity is_connected
    make_data_store make_topology make_endpoint make_data_store_context make_entity
not_connected = refl

abbrev pub user_data : Bytes
user_data = beacon_message outside service (to token []) 0

pub cell_taken :
    (publish_message redis service.endpoint.ctx.t.publisher (format_uint 8) user_data).0 ≡ none
unfolding publish_message
cell_taken = refl

pub no_groups : (service.heap.objects.entity 0).groups ≡ []
unfolding serve handle make_server sync_handler sync_client in_sync add64 sub64 text create_entity
    point_to allocate create_token Topology.create_token set_token Context.create_entity
    Topology.get_client_id Publisher.get_client_id parse_client_id store_entity is_connected
    make_data_store make_topology make_endpoint make_data_store_context make_entity
no_groups = refl

pub are_copies :
    AreCopies redis server redis-IsPool server-IsPubSub broker service.endpoint.ctx.t sent user_data
      copies
unfolding serve handle make_server sync_handler sync_client in_sync add64 sub64 text create_entity
    point_to allocate create_token Topology.create_token set_token Context.create_entity
    Topology.get_client_id Publisher.get_client_id parse_client_id store_entity is_connected
    make_data_store make_topology make_endpoint make_data_store_context make_entity apply_all apply
    subscribe_to_cell subscribe_to_group Subscriber.subscribe_to_cell make_subscriber subscribe
    unsubscribe subscribe_cells subscribe_no_lock unsubscribe_no_lock leave_channels leave_channel
    inner empty is_empty get set delete keys find without names drop_key format_uint decimal
    broadcast publish_message publish_groups select
are_copies = (refl, refl)

pub groups_taken :
    groups_accepted redis redis-IsPool
      (publish_message redis service.endpoint.ctx.t.publisher (format_uint 8) user_data).1
      (service.heap.objects.entity 0).groups
      user_data
    ≡ true
unfolding groups_accepted
groups_taken = rw no_groups refl

pub after : IsAfter redis server redis-IsPool server-IsPubSub broker in_order calls followed
after =
    apply_all-IsAfter redis server redis-IsPool server-IsPubSub broker in_order config no_redis
      nothing nothing calls (λ c. refl) (λ c. refl) accepted

abbrev quiet_boxes : Outboxes
quiet_boxes conn = []

serve_reaches_example :
    (let (offered, moved) = update_at line twice service.heap 0 place in
      serve outside service (to token [])
      ≡ some (
        answer outside (silent ∷ []) offered,
        record {
          endpoint = record (service.endpoint) { ctx = record (service.endpoint.ctx) { t = sent } };
          heap = moved;
        },
      ))
    × ((out' : Outboxes) × (deliver in_order sent user_data copies quiet_boxes ≡ some out')
        × ((conn : Conn)
            → out' conn
              ≡ writes
                  (wants redis server redis-IsPool server-IsPubSub broker calls conn
                    (channels_of 8 (service.heap.objects.entity 0).groups))
                  []
                  user_data))
serve_reaches_example =
    serve_reaches outside redis server database in_order redis-IsPool server-IsPubSub broker
      in_order calls service (to token []) token 0 copies quiet_boxes texts_in_order
      numbers_in_order after not_connected refl refl refl refl on_time (λ ud. refl) token_known
      cell_taken groups_taken are_copies
