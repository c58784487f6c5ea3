-- ===== src/Tests/Overlap.antt =====
-- Requests that overlap at the service of Tests/Server.
use envisilab.Base.{
  arith, ℕ, ◌<◌, ◌≤◌, ◌≡◌, refl, none, some, [], ◌∷◌, ◌==◌, if◌then◌else◌, list_eq, nat_eq,
  replicate, Bytes, Text, text,
}
use envisilab.Base.Int.{add64, sub64}
use envisilab.Publisher.{set_token, parse_client_id}
use envisilab.Publisher
use envisilab.DataStore.{make_data_store, is_connected}
use envisilab.Topology.{make_topology, Group, broadcast}
use envisilab.Topology
use envisilab.Context.{make_data_store_context, store_entity, create_token}
use envisilab.Context
use envisilab.Context.Stored.{point_to, data_store_ops-IsSound}
use envisilab.Cell.{make_entity}
use envisilab.Heap.{allocate, update_at}
use envisilab.Endpoint.{in_sync, make_endpoint, get_entity}
use envisilab.Endpoint.Http.{sync_response}
use envisilab.Server.{Handler, sync, beacon, Arrival, Server, make_server, answer}
use envisilab.Server.Sessions.{beacon_message, beacon_response}
use envisilab.Server.Step.{IsReady}
use envisilab.Server.Overlap.{
  Stage, found, moved, finished, arrived, move, refused, draw_token, enter,
}
use envisilab.Server.Overlap
use envisilab.Server.Overlap.Invariant.{rank}
use envisilab.Server.Overlap.Reachable.{System, Reach, fresh, move_of, reach_turns}
use envisilab.Server.Overlap.Answered.{responses, reach_known}
use envisilab.Server.Overlap.Schedule.{run, Reach-run}
use envisilab.Server.Overlap.Finishes.{run_answers}
use envisilab.Server.{Answer}
use envisilab.Server.Overlap.Race.{IsBeacon, place, at_place, beacon_race}
use envisilab.Tests.Instances.{plain, redis, server, in_order}
use envisilab.Tests.Cell.{line, twice}
use envisilab.Tests.Store.{database}
use envisilab.Tests.Endpoint.{ops, endpoint, heap, token, client}
use envisilab.Tests.Server.{outside, to, start, on_time}
use envisilab.Tests.Followers.{service, not_connected}

abbrev other_token : Bytes
other_token = replicate 16 9

-- Two syncs, each with a token of its own.
abbrev reqs : ℕ → Arrival outside
reqs i = if i == 0 then to [] client else record (to [] client) { random = (other_token, none) }

abbrev route : ℕ → Text × Handler
route i = ([], sync)

abbrev at_first : System outside ops
at_first = record { server = start; stage = λ i. arrived }

-- The first is answered while the second has its token only.
abbrev later_on : System outside ops
later_on = run outside reqs route at_first (0 ∷ 1 ∷ 0 ∷ 0 ∷ [])

reached : Reach outside reqs route endpoint.ctx heap later_on
reached = Reach-run outside reqs route (0 ∷ 1 ∷ 0 ∷ 0 ∷ []) fresh

reach_turns_example :
    IsReady plain later_on.server.endpoint later_on.server.heap
    × ((i : ℕ)
        → 0 < rank outside (later_on.stage i)
        → (stage : Stage outside) × (server : Server ops) × (move_of outside reqs route later_on i
            ≡ some (stage, server))
          × (rank outside stage < rank outside (later_on.stage i)))
    × ((i : ℕ) → rank outside (later_on.stage i) ≤ 3)
reach_turns_example =
    reach_turns outside reqs route (data_store_ops-IsSound redis server database plain in_order)
      endpoint.ctx heap later_on reached

first_answered : responses outside (later_on.stage 0) ≡ sync_response token [] ∷ []
unfolding run make_server move Overlap.start refused draw_token Overlap.make_entity enter in_sync
    add64 sub64 text point_to allocate create_token Topology.create_token set_token
    Context.create_entity Topology.get_client_id Publisher.get_client_id parse_client_id
    store_entity is_connected make_data_store make_topology make_endpoint make_data_store_context
    make_entity
first_answered = refl

reach_known_example :
    (a : ℕ) × (get_entity later_on.server.endpoint token ≡ (some a, none))
    × (a < later_on.server.heap.objects.next)
    × ((later_on.server.heap.objects.entity a).token_id ≡ token)
reach_known_example =
    reach_known outside reqs route (data_store_ops-IsSound redis server database plain in_order)
      endpoint.ctx heap later_on 0 token [] reached first_answered

on_time-IsBeacon : IsBeacon outside (to token [])
on_time-IsBeacon = record { post = refl; json = refl; decoded = refl; on_time = on_time }

beacon_race_example :
    (let e = service.heap.objects.entity 0 in
      let server1 = at_place outside service (to token []) 0 in
      let server2 = at_place outside server1 (to token []) 0 in
      let data1 = beacon_message outside service (to token []) 0 in
      let data2 = beacon_message outside server1 (to token []) 0 in
      let sent1 = (update_at line twice service.heap 0 (place outside (to token []))).0 in
      let sent2 = (update_at line twice server1.heap 0 (place outside (to token []))).0 in
      let p = place outside (to token []) in
      let cell2 = line.parent p.lat p.lng e.cell.config.topology_level in
      let (t', err) = broadcast service.endpoint.ctx.t cell2 e.groups data1 in
      (move outside service (to token []) token beacon (found (some 0))
        ≡ some (moved (some 0) data1 sent1, server1))
      × (move outside server1 (to token []) token beacon (found (some 0))
          ≡ some (moved (some 0) data2 sent2, server2))
      × (move outside server2 (to token []) token beacon (moved (some 0) data1 sent1)
          ≡ some (
            finished (answer outside (beacon_response err ∷ []) sent1),
            record server2 {
              endpoint = record (service.endpoint) {
                ctx = record (service.endpoint.ctx) { t = t' };
              };
            },
          )))
beacon_race_example =
    beacon_race outside redis server database in_order service (to token []) (to token []) token 0
      not_connected on_time-IsBeacon on_time-IsBeacon (λ ud. refl)

-- The second request has its turns, with others in between.
run_answers_example :
    (answered : Answer outside) × ((run outside reqs route later_on (1 ∷ 0 ∷ 1 ∷ 2 ∷ 1 ∷ [])).stage
        1
      ≡ finished answered)
run_answers_example =
    run_answers outside reqs route (data_store_ops-IsSound redis server database plain in_order)
      endpoint.ctx heap (1 ∷ 0 ∷ 1 ∷ 2 ∷ 1 ∷ []) later_on 1 reached (omega arith)
