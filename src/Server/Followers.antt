-- ===== src/Server/Followers.antt =====
-- A beacon at the service of the aggregator (core/http.go, core/context.go), down to the connections
-- that are written to (core/subscriber.go).
use envisilab.Base.{
  ℕ, ◌≡◌, true, false, none, some, List, [], ◌∷◌, nat_eq, list_eq, arith, Text, Bytes, Error, text,
}
use envisilab.Base.Dict.{IsOrder}
use envisilab.Base.Decimal.{format_uint}
use envisilab.Redis.{Pool, IsPool, PubSub, IsPubSub, IsBroker}
use envisilab.Publisher.{publish_message}
use envisilab.DataStore.{Sql, is_connected}
use envisilab.Cell.{Entity}
use envisilab.Heap.{update_at}
use envisilab.Heap.Moved.{moved_entity}
use envisilab.Subscriber.{Conn}
use envisilab.Subscriber.Delivery.{Outboxes, writes}
use envisilab.Topology.{Topology, broadcast}
use envisilab.Topology.Exclusive.{Call}
use envisilab.Topology.Broadcasts.{groups_accepted, published-broadcast}
use envisilab.Topology.Fanout.{Feed, deliver}
use envisilab.Topology.Fanout.Reaches.{channels_of, AreCopies, IsAfter, wants, reaches}
use envisilab.Context.{DataStoreContext}
use envisilab.Context
use envisilab.Context.Interface.{ContextOps}
use envisilab.Context.Stored.{data_store_ops, data_store_ops-IsContext, data_store_ops-IsSound}
use envisilab.Endpoint.{get_entity, in_sync}
use envisilab.Endpoint.Http.{silent}
use envisilab.Endpoint.UserData.{UserData}
use envisilab.Server.{Outside, beacon, routes, Arrival, Server, answer, serve}
use envisilab.Server.Sessions.{beacon_message, serve_beacon}

module _ (o : Outside) (p : Pool) (ps : PubSub) (sql : Sql) (order : List Text → List Text) where
  abbrev pub ops : ContextOps
  ops = data_store_ops p ps sql o.uuid order

  -- The cell of the location of a beacon, for the entity at `a`.
  abbrev pub beacon_cell : Server ops → Arrival o → ℕ → ℕ
  beacon_cell server req a =
      let loc = (o.decode_location req.body).0 in
      o.s2.parent loc.lat loc.lng (server.heap.objects.entity a).cell.config.topology_level

  abbrev pub beacon_topology : Server ops → Arrival o → ℕ → Topology p ps × Error
  beacon_topology server req a =
      broadcast server.endpoint.ctx.t (beacon_cell server req a)
        (server.heap.objects.entity a).groups (beacon_message o server req a)

  pub context_broadcast :
      (ctx : DataStoreContext p ps sql) (e : Entity) (data' : Bytes)
      → is_connected ctx.store ≡ false
      → let (t, err) = broadcast ctx.t e.cell.s2cell_id e.groups data' in
        Context.broadcast ctx e data' ≡ some (err, record ctx { t = t })
  unfolding Context.broadcast
  context_broadcast ctx e data' off = ground (arith, off)

  -- Where the data store is not connected, a beacon is one broadcast of the topology.
  beacon_ctx :
      (server : Server ops) (req : Arrival o) (a : ℕ)
      → is_connected server.endpoint.ctx.store ≡ false
      → let moved = (update_at o.s2 o.grow server.heap a (o.decode_location req.body).0).1 in
        let (t, err) = beacon_topology server req a in
        ops.broadcast server.endpoint.ctx moved req.now a (beacon_message o server req a)
        ≡ some (err, record (server.endpoint.ctx) { t = t }, moved)
  beacon_ctx server req a off =
      let loc = (o.decode_location req.body).0 in
      let moved = (update_at o.s2 o.grow server.heap a loc).1 in
      let (cell, groups, level) = moved_entity o.s2 o.grow server.heap a loc in
      let sent =
        context_broadcast server.endpoint.ctx (moved.objects.entity a)
          (beacon_message o server req a) off in
      ground (arith, sent, cell, groups)

  module _ (i : IsPool p) (r : IsPubSub ps) (b : IsBroker i r) where
    -- A beacon for an entity that the endpoint knows, a POST of JSON with a location whose time is in
    -- sync, goes to everybody who follows the place: where Redis accepts it, the service answers with
    -- nothing; and each connection is written the user data, once for each channel that its calls
    -- asked for, among that of the cell in which the location lies, at the entity's level, and those
    -- of the entity's groups; no other connection is. The goroutines take the copies in any order, the
    -- subscribers stand as calls that Redis accepts have left them, the data store is not connected,
    -- and user data can be marshalled.
    pub serve_reaches :
        (visits : List Conn → List Conn) (calls : List Call) (server : Server ops) (req : Arrival o)
        (token : Text) (a : ℕ) (copies : List (Feed × Text)) (out : Outboxes)
        → IsOrder order
        → IsOrder visits
        → IsAfter p ps i r b order calls server.endpoint.ctx.t
        → is_connected server.endpoint.ctx.store ≡ false
        → o.mux routes req.path ≡ some (beacon, token)
        → req.method ≡ text "POST"
        → req.content_type ≡ text "application/json"
        → (o.decode_location req.body).1 ≡ none
        → in_sync req.now (o.decode_location req.body).0.timestamp ≡ true
        → ((ud : UserData) → (o.marshal_user_data ud).1 ≡ none)
        → get_entity server.endpoint token ≡ (some a, none)
        → let t = server.endpoint.ctx.t in
          let groups = (server.heap.objects.entity a).groups in
          let cell = beacon_cell server req a in
          let data' = beacon_message o server req a in
          let (err, s') = publish_message p t.publisher (format_uint cell) data' in
          let (t', err') = beacon_topology server req a in
          let (sent, moved) = update_at o.s2 o.grow server.heap a (o.decode_location req.body).0 in
          err ≡ none
          → groups_accepted p i s' groups data' ≡ true
          → AreCopies p ps i r b t t' data' copies
          → (serve o server req
              ≡ some (
                answer o (silent ∷ []) sent,
                record {
                  endpoint = record (server.endpoint) {
                    ctx = record (server.endpoint.ctx) { t = t' };
                  };
                  heap = moved;
                },
              ))
            × ((out' : Outboxes) × (deliver visits t' data' copies out ≡ some out')
                × ((conn : Conn)
                    → out' conn
                      ≡ writes
                          (wants p ps i r b calls conn (channels_of cell groups))
                          (out conn)
                          data'))
    serve_reaches visits calls server req token a copies out ordered visited after off route post
          json decoded on_time marshals known accepted all are_copies =
        let t = server.endpoint.ctx.t in
        let groups = (server.heap.objects.entity a).groups in
        let cell = beacon_cell server req a in
        let data' = beacon_message o server req a in
        let (err, ctx', heap', done, served) =
          serve_beacon o (data_store_ops-IsContext p ps sql o.uuid order)
            (data_store_ops-IsSound p ps sql o.uuid order) server req token a route post json
            decoded on_time marshals known in
        let fine = (published-broadcast p i t cell groups data' accepted all).0 in
        (
          ground (arith, served, done, beacon_ctx server req a off, fine),
          reaches p ps i r b order visits calls t cell groups data' copies out ordered visited after
              accepted all are_copies,
        )
