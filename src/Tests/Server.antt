-- ===== src/Tests/Server.antt =====
-- The service of core/http.go over the context of Tests/Endpoint: a client syncs twice and then sends a
-- beacon.
use envisilab.Base.{
  ℕ, ◌≡◌, refl, true, none, some, nat_eq, list_eq, ◌==◌, if◌then◌else◌, List, [], ◌∷◌, Bytes, Text,
  Error, text,
}
use envisilab.Base.Int.{pos, add64, sub64}
use envisilab.Location.{Location}
use envisilab.Publisher.{set_token, parse_client_id, publish_message}
use envisilab.Publisher
use envisilab.DataStore.{make_data_store, is_connected}
use envisilab.Topology.{make_topology, publish_groups}
use envisilab.Topology
use envisilab.Context.{make_data_store_context, store_entity, create_token}
use envisilab.Context
use envisilab.Context.Stored.{point_to, data_store_ops-IsContext, data_store_ops-IsSound}
use envisilab.Cell.{make_entity}
use envisilab.Heap.{Heap, allocate, update_at}
use envisilab.Endpoint.{in_sync, make_endpoint, create_entity, get_entity}
use envisilab.Endpoint.Http.{sync_response}
use envisilab.Endpoint.Sync.{sync_handler, sync_client}
use envisilab.Server.{
  Outside, sync, beacon, Arrival, Answer, Server, make_server, answer, handle, serve, serve_all,
}
use envisilab.Server.Sessions.{beacon_response, beacon_after_sync}
use envisilab.Tests.Instances.{plain, redis, server, in_order}
use envisilab.Tests.Cell.{line, twice}
use envisilab.Tests.Store.{database}
use envisilab.Tests.WebSocket.{socket}
use envisilab.Tests.Endpoint.{ops, endpoint, heap, token, client}

abbrev pub place : Location
place = record { lat = 8; lng = 0; alt = 0; heading = 0; timestamp = pos 1500000003 }

abbrev pub outside : Outside
outside = record {
  uuid = plain;
  s2 = line;
  grow = twice;
  marshal_user_data = λ ud. (ud.client_id, none);
  marshal_activity = λ activity. ([], none);
  decode_sync = λ body. (record { uuid = body; time = pos 1500000003 }, none);
  decode_location = λ body. (place, none);
  socket = socket;
  mux = λ routes path. if path == [] then some (sync, []) else some (beacon, path);
}

abbrev pub to : Text → Bytes → Arrival outside
to path body = record {
  method = text "POST";
  content_type = text "application/json";
  path = path;
  body = body;
  now = pos 1500000000;
  random = (token, none);
  upgraded = ([], none);
}

abbrev pub start : Server ops
start = make_server outside endpoint.ctx heap

abbrev idle : List (Answer outside) × Server ops
idle = ([], start)

abbrev pub first : Answer outside × Server ops
first = elim (serve outside start (to [] client)) [
  | none ↦ (answer outside [] none, start)
  | some r ↦ r
]

abbrev second : List (Answer outside) × Server ops
second = elim (serve_all outside first.1 (to [] client ∷ [])) [ none ↦ idle | some r ↦ r ]

synced :
    serve outside start (to [] client)
    ≡ some (answer outside (sync_response token [] ∷ []) none, first.1)
unfolding serve handle make_server sync_handler sync_client in_sync add64 sub64 text create_entity
    point_to allocate create_token Topology.create_token set_token Context.create_entity
    Topology.get_client_id Publisher.get_client_id parse_client_id store_entity is_connected
    make_data_store make_topology make_endpoint make_data_store_context make_entity
synced = refl

synced_again : serve_all outside first.1 (to [] client ∷ []) ≡ some (second.0, second.1)
unfolding serve_all serve handle make_server sync_handler sync_client in_sync add64 sub64 text
    create_entity point_to allocate create_token Topology.create_token set_token
    Context.create_entity Topology.get_client_id Publisher.get_client_id parse_client_id
    store_entity is_connected make_data_store make_topology make_endpoint make_data_store_context
    make_entity
synced_again = refl

nothing_before : serve_all outside start [] ≡ some ([], start)
unfolding serve_all
nothing_before = refl

pub on_time : in_sync (pos 1500000000) place.timestamp ≡ true
unfolding in_sync add64 sub64
on_time = refl

abbrev last : Server ops
last = second.1

beacon_after_sync_example :
    (a : ℕ) × (get_entity last.endpoint token ≡ (some a, none))
    × (let (sent, moved) = update_at line twice last.heap a place in
        (err : Error) × (ctx' : ops.State) × (heap' : Heap) × (ops.broadcast last.endpoint.ctx moved
            (pos 1500000000)
            a
            ((last.heap.objects.entity a).client_id)
          ≡ some (err, ctx', heap'))
        × (serve outside last (to token [])
            ≡ some (
              answer outside (beacon_response err ∷ []) sent,
              record { endpoint = record (last.endpoint) { ctx = ctx' }; heap = heap' },
            )))
beacon_after_sync_example =
    beacon_after_sync outside (data_store_ops-IsContext redis server database plain in_order)
      (data_store_ops-IsSound redis server database plain in_order) endpoint.ctx heap []
      (to [] client ∷ []) [] second.0 start first.1 last (to [] client) (to token []) [] token []
      nothing_before refl synced synced_again refl refl refl refl on_time (λ ud. refl)
