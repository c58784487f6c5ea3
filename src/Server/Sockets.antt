-- ===== src/Server/Sockets.antt =====
-- A beacon at the service of core/http.go, down to the web sockets of those who follow the place.
use mathlib.Core.List.{append_assoc, append-nil}
use envisilab.Base.{
  ℕ, zero, suc, ◌+◌, ◌≤◌, ◌≡◌, sym, ◌∙◌, true, false, none, some, List, [], ◌∷◌, ◌++◌, nat_eq,
  list_eq, length, length-append, replicate, arith, Text, Bytes, text,
}
use envisilab.Base.Dict.{IsOrder}
use envisilab.Base.Decimal.{format_uint}
use envisilab.Redis.{Pool, IsPool, PubSub, IsPubSub, IsBroker}
use envisilab.Publisher.{publish_message}
use envisilab.DataStore.{Sql, is_connected}
use envisilab.Heap.{update_at}
use envisilab.WebSocket.{Socket, WebSocketConnection, Wake, write_round, send_capacity, write}
use envisilab.WebSocket.Fifo.{IsOpen, frame_of, frames-write_round}
use envisilab.Subscriber.{Conn}
use envisilab.Subscriber.Delivery.{Outboxes, writes}
use envisilab.Topology.Exclusive.{Call}
use envisilab.Topology.Broadcasts.{groups_accepted}
use envisilab.Topology.Fanout.{Feed, deliver}
use envisilab.Topology.Fanout.Reaches.{channels_of, AreCopies, IsAfter, wants}
use envisilab.Endpoint.{get_entity, in_sync}
use envisilab.Endpoint.Http.{silent}
use envisilab.Endpoint.UserData.{UserData}
use envisilab.Server.{Outside, beacon, routes, Arrival, Server, answer, serve}
use envisilab.Server.Sessions.{beacon_message}
use envisilab.Server.Followers.{ops, beacon_cell, beacon_topology, serve_reaches}

-- Messages that find room are all in the channel.
writes-replicate :
    (n : ℕ) (send : List Bytes) (data' : Bytes)
    → length send + n ≤ send_capacity
    → writes n send data' ≡ send ++ replicate n data'
unfolding write
writes-replicate zero send data' room = sym (append-nil send)
writes-replicate (suc n) send data' room =
    let fits : write send data' ≡ send ++ data' ∷ [] = ground (arith, room) in
    rw fits (
      writes-replicate n (send ++ data' ∷ []) data'
        (omega (arith, room, length-append send (data' ∷ [])))
      ∙ append_assoc send (data' ∷ []) (replicate n data'))

module _ {k : Socket} (w : IsOpen k) where
  -- What the pump of a connection sends once messages have been written to it.
  pump_sends :
      (c : WebSocketConnection k) (n : ℕ) (data' : Bytes) (queue : List Bytes)
      → length c.send + n ≤ send_capacity
      → queue ≡ writes n c.send data'
      → let end = (write_round (record c { send = queue }) Wake.message).1 in
        (end.send ≡ [])
        × (w.frames end.conn ≡ w.frames c.conn ++ frame_of (c.send ++ replicate n data'))
  pump_sends c n data' queue room same =
      frames-write_round w (record c { send = queue }) (c.send ++ replicate n data')
        (same ∙ writes-replicate n c.send data' room)

module _ (o : Outside) (p : Pool) (ps : PubSub) (sql : Sql) (order : List Text → List Text)
    (i : IsPool p) (r : IsPubSub ps) (b : IsBroker i r) {k : Socket} (w : IsOpen k) where
  -- A beacon comes out at the sockets of those who follow its place. Where the request is a POST of JSON
  -- to the route of beacons, under a token that the endpoint knows, with a location whose time is in
  -- sync, and Redis accepts the broadcast: the service answers with nothing; and once the goroutines
  -- have taken the copies, in any order, the pump of each connection, when a message wakes it, sends
  -- one frame, a JSON array of what waited in its channel and then the user data, once for each channel that the
  -- connection's calls asked for, among that of the cell in which the location lies and those of the
  -- entity's groups. Nothing is left in the channel, and no frame is sent where nothing waits. The
  -- sockets accept everything, each channel has room, the subscribers stand as calls that Redis
  -- accepts have left them, the data store is not connected, and user data can be marshalled.
  pub serve_sends :
      (visits : List Conn → List Conn) (calls : List Call) (server : Server (ops o p ps sql order))
      (req : Arrival o) (token : Text) (a : ℕ) (copies : List (Feed × Text))
      (sockets : Conn → WebSocketConnection k)
      → IsOrder order
      → IsOrder visits
      → IsAfter p ps i r b order calls server.endpoint.ctx.t
      → is_connected server.endpoint.ctx.store ≡ false
      → o.mux routes req.path ≡ some (beacon, token)
      → req.method ≡ text "POST"
      → req.content_type ≡ text "application/json"
      → (o.decode_location req.body).1 ≡ none
      → in_sync req.now (o.decode_location req.body).0.timestamp ≡ true
      → ((ud : UserData) → (o.marshal_user_data ud).1 ≡ none)
      → get_entity server.endpoint token ≡ (some a, none)
      → let t = server.endpoint.ctx.t in
        let groups = (server.heap.objects.entity a).groups in
        let cell = beacon_cell o p ps sql order server req a in
        let data' = beacon_message o server req a in
        let (err, s') = publish_message p t.publisher (format_uint cell) data' in
        let (t', err') = beacon_topology o p ps sql order server req a in
        let (sent, moved) = update_at o.s2 o.grow server.heap a (o.decode_location req.body).0 in
        err ≡ none
        → groups_accepted p i s' groups data' ≡ true
        → AreCopies p ps i r b t t' data' copies
        → ((conn : Conn)
            → length (sockets conn).send + wants p ps i r b calls conn (channels_of cell groups)
              ≤ send_capacity)
        → (serve o server req
            ≡ some (
              answer o (silent ∷ []) sent,
              record {
                endpoint = record (server.endpoint) {
                  ctx = record (server.endpoint.ctx) { t = t' };
                };
                heap = moved;
              },
            ))
          × ((out' : Outboxes) × (deliver visits t' data' copies (λ conn. (sockets conn).send)
                ≡ some out')
              × ((conn : Conn)
                  → let c = sockets conn in
                    let n = wants p ps i r b calls conn (channels_of cell groups) in
                    let end = (write_round (record c { send = out' conn }) Wake.message).1 in
                    (end.send ≡ [])
                    × (w.frames end.conn
                        ≡ w.frames c.conn ++ frame_of (c.send ++ replicate n data'))))
  serve_sends visits calls server req token a copies sockets ordered visited after off route post
        json decoded on_time marshals known accepted all are_copies room =
      let groups = (server.heap.objects.entity a).groups in
      let cell = beacon_cell o p ps sql order server req a in
      let data' = beacon_message o server req a in
      let (served, (out', taken, each)) =
        serve_reaches o p ps sql order i r b visits calls server req token a copies
          (λ conn. (sockets conn).send) ordered visited after off route post json decoded on_time
          marshals known accepted all are_copies in
      (
        served,
        (
          out',
          taken,
          λ conn.
              pump_sends w (sockets conn) (wants p ps i r b calls conn (channels_of cell groups))
                data' (out' conn) (room conn) (each conn),
        ),
      )
