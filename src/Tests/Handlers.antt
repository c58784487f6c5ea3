-- ===== src/Tests/Handlers.antt =====
-- The handlers of core/http.go for the entity of Tests/Endpoint.
use envisilab.Base.{◌≡◌, ◌⊎◌, refl, Option, none, some, nat_eq, list_eq, Bytes, Error, text}
use envisilab.Base.Int.{ℤ, pos, add64, sub64}
use envisilab.Base.Dict.{get, set, find, without, empty}
use envisilab.Location.{Location}
use envisilab.Publisher.{set_token, parse_client_id, publish_message}
use envisilab.Publisher
use envisilab.DataStore.{make_data_store, is_connected}
use envisilab.Topology.{make_topology, publish_groups}
use envisilab.Topology
use envisilab.Context.{Activity, make_data_store_context, store_entity, create_token}
use envisilab.Context
use envisilab.Context.Stored.{point_to}
use envisilab.Cell.{Cell, make_entity}
use envisilab.Heap.{Heap, allocate, update_at}
use envisilab.Endpoint.{Endpoint, in_sync, make_endpoint, create_entity, get_entity}
use envisilab.Endpoint.Http.{Response, silent}
use envisilab.Endpoint.UserData.{
  UserData, Request, beacon_handler, standby_handler, with_user_data, handle_user_data, act_on,
}
use envisilab.Endpoint.UserData.Accepted.{IsActedOn, beacon_handler-cases, standby_handler-cases}
use envisilab.Tests.Instances.{plain}
use envisilab.Tests.Cell.{line, twice}
use envisilab.Tests.Endpoint.{ops, token, outcome}

abbrev place : Location
place = record { lat = 8; lng = 0; alt = 0; heading = 0; timestamp = pos 1500000003 }

abbrev now : ℤ
now = pos 1500000000

abbrev request : Request
request = record {
  method = text "POST";
  content_type = text "application/json";
  token_id = token;
  decode = (place, none);
}

abbrev marshal : UserData → Bytes × Error
marshal ud = (ud.client_id, none)

abbrev known : Endpoint ops
known = outcome.1.0

abbrev heap : Heap
heap = outcome.1.1

abbrev moved : Option Cell × Heap
moved = update_at line twice heap 0 place

abbrev nothing : Response × Option Cell × (Endpoint ops × Heap)
nothing = (silent, none, (known, heap))

abbrev beaconed : Response × Option Cell × (Endpoint ops × Heap)
beaconed = elim (beacon_handler plain line twice marshal known heap now request) [
  | none ↦ nothing
  | some r ↦ r
]

abbrev stood_by : Response × Option Cell × (Endpoint ops × Heap)
stood_by = elim (standby_handler plain line twice marshal known heap now request) [
  | none ↦ nothing
  | some r ↦ r
]

beacon_answers :
    beacon_handler plain line twice marshal known heap now request
    ≡ some (beaconed.0, beaconed.1, (beaconed.2.0, beaconed.2.1))
unfolding beacon_handler with_user_data act_on handle_user_data in_sync add64 sub64 text get_entity
    get find set without empty create_entity create_token Topology.create_token set_token
    Context.create_entity point_to allocate Topology.get_client_id Publisher.get_client_id
    parse_client_id store_entity is_connected make_data_store make_topology make_endpoint
    make_data_store_context make_entity Context.broadcast Topology.broadcast publish_message
beacon_answers = refl

beacon_handler-cases_example :
    ((beaconed.1 ≡ none) × (beaconed.2.0 ≡ known) × (beaconed.2.1 ≡ heap))
    ⊎ IsActedOn plain line twice marshal ops.broadcast known heap now request beaconed.1
        beaconed.2.0 beaconed.2.1
beacon_handler-cases_example =
    beacon_handler-cases plain line twice marshal known beaconed.2.0 heap beaconed.2.1 now request
      beaconed.0 beaconed.1 beacon_answers

standby_answers :
    standby_handler plain line twice marshal known heap now request
    ≡ some (stood_by.0, stood_by.1, (stood_by.2.0, stood_by.2.1))
unfolding standby_handler with_user_data act_on handle_user_data in_sync add64 sub64 text get_entity
    get find set without empty create_entity create_token Topology.create_token set_token
    Context.create_entity point_to allocate Topology.get_client_id Publisher.get_client_id
    parse_client_id store_entity is_connected make_data_store make_topology make_endpoint
    make_data_store_context make_entity Context.standby
standby_answers = refl

standby_handler-cases_example :
    ((stood_by.1 ≡ none) × (stood_by.2.0 ≡ known) × (stood_by.2.1 ≡ heap))
    ⊎ IsActedOn plain line twice marshal ops.standby known heap now request stood_by.1 stood_by.2.0
        stood_by.2.1
standby_handler-cases_example =
    standby_handler-cases plain line twice marshal known stood_by.2.0 heap stood_by.2.1 now request
      stood_by.0 stood_by.1 standby_answers
