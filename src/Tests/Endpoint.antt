-- ===== src/Tests/Endpoint.antt =====
-- `Endpoint` of core/http.go over Redis in memory and a data store that is not connected.
use envisilab.Base.{
  ℕ, ◌+◌, ◌≡◌, ◌↔◌, refl, true, Option, none, some, nat_eq, list_eq, arith, Bytes, Error, replicate,
  text, [],
}
use envisilab.Base.Int.{pos, add64, sub64, ◌+ℤ◌, ◌≤ℤ◌}
use envisilab.Publisher.{set_token, parse_client_id}
use envisilab.Publisher
use envisilab.DataStore.{make_data_store, is_connected}
use envisilab.Topology.{make_topology}
use envisilab.Topology
use envisilab.Context.{make_data_store_context, store_entity, create_token}
use envisilab.Context
use envisilab.Context.Interface.{ContextOps}
use envisilab.Context.Stored.{data_store_ops, data_store_ops-IsContext, point_to}
use envisilab.Cell.{make_entity}
use envisilab.Heap.{Heap, allocate}
use envisilab.Endpoint.{Endpoint, in_sync, make_endpoint, create_entity, get_entity}
use envisilab.Endpoint.Clock.{in_sync_iff}
use envisilab.Endpoint.Http.{sync_response}
use envisilab.Endpoint.Sync.{Request, sync_handler, sync_client}
use envisilab.Endpoint.Sync.Answers.{sync_handler-get_entity}
use envisilab.Tests.Instances.{server, redis, plain, in_order}
use envisilab.Tests.Store.{database, topology, memory, entity}

in_sync_iff_example :
    (in_sync (pos 1500000000) (pos 1500000003) ≡ true)
    ↔ ((pos 1500000003 ≤ℤ pos (1500000000 + 5)) × (pos 1500000000 ≤ℤ (pos 1500000003 +ℤ pos 5)))
in_sync_iff_example = in_sync_iff 1500000000 (pos 1500000003) (omega arith)

abbrev pub ops : ContextOps
ops = data_store_ops redis server database plain in_order

abbrev pub endpoint : Endpoint ops
endpoint = make_endpoint (make_data_store_context topology make_data_store)

abbrev pub heap : Heap
heap = record { memory = memory; objects = record { next = 0; entity = λ a. entity } }

abbrev pub token : Bytes
token = replicate 16 3

abbrev pub client : Bytes
client = replicate 16 5

abbrev pub Outcome : Type 0
Outcome = (Option ℕ × Error) × (Endpoint ops × Heap)

abbrev pub outcome : Outcome
outcome = elim (create_entity plain endpoint heap (token, none) client 0) [
  | none ↦ ((none, none), (endpoint, heap))
  | some r ↦ r
]

created :
    create_entity plain endpoint heap (token, none) client 0
    ≡ some ((some 0, none), (outcome.1.0, outcome.1.1))
unfolding create_entity point_to allocate create_token Topology.create_token set_token
    Context.create_entity Topology.get_client_id Publisher.get_client_id parse_client_id
    store_entity is_connected make_data_store make_topology make_endpoint make_data_store_context
created = refl

abbrev request : Request
request = record {
  method = text "POST";
  content_type = text "application/json";
  decode = (record { uuid = client; time = pos 1500000003 }, none);
}

answered :
    sync_handler plain endpoint heap (token, none) (pos 1500000000) request
    ≡ some (sync_response token [], (outcome.1.0, outcome.1.1))
unfolding sync_handler sync_client in_sync add64 sub64 text create_entity point_to allocate
    create_token Topology.create_token set_token Context.create_entity Topology.get_client_id
    Publisher.get_client_id parse_client_id store_entity is_connected make_data_store make_topology
    make_endpoint make_data_store_context make_entity
answered = refl

sync_handler-get_entity_example :
    (request.method ≡ text "POST")
    × (request.content_type ≡ text "application/json")
    × (in_sync (pos 1500000000) (pos 1500000003) ≡ true)
    × ((a : ℕ) × (get_entity outcome.1.0 token ≡ (some a, none))
        × ((outcome.1.1.objects.entity a).token_id ≡ token))
sync_handler-get_entity_example =
    sync_handler-get_entity (data_store_ops-IsContext redis server database plain in_order) plain
      endpoint outcome.1.0 heap outcome.1.1 (token, none) (pos 1500000000) request token [] answered
