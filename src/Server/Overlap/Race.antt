-- ===== src/Server/Overlap/Race.antt =====
-- Two beacons for one entity that overlap (core/http.go, core/entity.go): nothing guards the entity
-- between `Update` and `Broadcast`.
use envisilab.Base.{
  ℕ, ◌≡◌, true, false, none, some, List, [], ◌∷◌, nat_eq, list_eq, eq_iff, arith, Text, text,
}
use envisilab.Redis.{Pool, PubSub}
use envisilab.DataStore.{Sql, is_connected}
use envisilab.Heap.{update_at}
use envisilab.Heap.Moved.{moved_entity}
use envisilab.Location.{Location}
use envisilab.Topology.{broadcast}
use envisilab.Context.Interface.{ContextOps}
use envisilab.Endpoint.{in_sync}
use envisilab.Endpoint.UserData.{UserData, handle_user_data}
use envisilab.Server.{Outside, beacon, Arrival, Server, answer}
use envisilab.Server.Sessions.{beacon_message, beacon_response}
use envisilab.Server.Followers.{ops, context_broadcast}
use envisilab.Server.Overlap.{found, moved, finished, take, act, move}

-- A POST of JSON with a location whose time is in sync.
pub record IsBeacon (o : Outside) (req : Arrival o) : Type 0 where
  pub post : req.method ≡ text "POST"
  pub json : req.content_type ≡ text "application/json"
  pub decoded : (o.decode_location req.body).1 ≡ none
  pub on_time : in_sync req.now (o.decode_location req.body).0.timestamp ≡ true

module _ (o : Outside) where
  abbrev pub place : Arrival o → Location
  place req = (o.decode_location req.body).0

  abbrev pub at_place : {c : ContextOps} → Server c → Arrival o → ℕ → Server c
  at_place server req a = record server {
    heap = (update_at o.s2 o.grow server.heap a (place req)).1;
  }

  -- A beacon that is taken moves its entity and has its message.
  take_beacon :
      {c : ContextOps} (server : Server c) (req : Arrival o) (token : Text) (a : ℕ)
      → IsBeacon o req
      → ((ud : UserData) → (o.marshal_user_data ud).1 ≡ none)
      → move o server req token beacon (found (some a))
        ≡ some (
          moved
              (some a)
              (beacon_message o server req a)
              (update_at o.s2 o.grow server.heap a (place req)).0,
          at_place server req a,
        )
  unfolding move take handle_user_data
  take_beacon server req token a v marshals = ground (
    arith,
    v.decoded,
    v.on_time,
    (eq_iff req.method (text "POST")).1 v.post,
    (eq_iff req.content_type (text "application/json")).1 v.json,
    marshals (record {
      client_id = o.uuid.string (server.heap.objects.entity a).client_id;
      location = place req;
    }),
  )

  -- Two beacons for an entity, at the aggregator without a database: when the second is taken between
  -- the update and the broadcast of the first, the data of the first, with its own location, are
  -- broadcast on the channel of the cell of the second's location, and the first is answered as the
  -- others are. User data can be marshalled.
  pub beacon_race :
      (p : Pool) (ps : PubSub) (sql : Sql) (order : List Text → List Text)
      (server : Server (ops o p ps sql order)) (req1 req2 : Arrival o) (token : Text) (a : ℕ)
      → is_connected server.endpoint.ctx.store ≡ false
      → IsBeacon o req1
      → IsBeacon o req2
      → ((ud : UserData) → (o.marshal_user_data ud).1 ≡ none)
      → let e = server.heap.objects.entity a in
        let server1 = at_place server req1 a in
        let server2 = at_place server1 req2 a in
        let data1 = beacon_message o server req1 a in
        let data2 = beacon_message o server1 req2 a in
        let sent1 = (update_at o.s2 o.grow server.heap a (place req1)).0 in
        let sent2 = (update_at o.s2 o.grow server1.heap a (place req2)).0 in
        let cell2 = o.s2.parent (place req2).lat (place req2).lng e.cell.config.topology_level in
        let (t', err) = broadcast server.endpoint.ctx.t cell2 e.groups data1 in
        (move o server req1 token beacon (found (some a))
          ≡ some (moved (some a) data1 sent1, server1))
        × (move o server1 req2 token beacon (found (some a))
            ≡ some (moved (some a) data2 sent2, server2))
        × (move o server2 req1 token beacon (moved (some a) data1 sent1)
            ≡ some (
              finished (answer o (beacon_response err ∷ []) sent1),
              record server2 {
                endpoint = record (server.endpoint) {
                  ctx = record (server.endpoint.ctx) { t = t' };
                };
              },
            ))
  unfolding move act
  beacon_race p ps sql order server req1 req2 token a off v1 v2 marshals =
      let server1 = at_place server req1 a in
      let server2 = at_place server1 req2 a in
      let data1 = beacon_message o server req1 a in
      let (cell1, groups1, level1) = moved_entity o.s2 o.grow server.heap a (place req1) in
      let (cell2, groups2, level2) = moved_entity o.s2 o.grow server1.heap a (place req2) in
      let sent =
        context_broadcast o p ps sql order server.endpoint.ctx (server2.heap.objects.entity a) data1
          off in
      (
        take_beacon server req1 token a v1 marshals,
        take_beacon server1 req2 token a v2 marshals,
        ground (arith, sent, cell2, groups1, groups2, level1),
      )
