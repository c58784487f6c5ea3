-- ===== src/Tests/Sockets.antt =====
-- The beacon of Tests/Followers, at sockets in memory.
use envisilab.Base.{
  ℕ, ◌+◌, ◌≤◌, ◌≡◌, refl, none, some, [], ◌∷◌, length, replicate, arith, list_eq, nat_eq,
}
use envisilab.WebSocket.{WebSocketConnection, Wake, write_round, send_capacity}
use envisilab.WebSocket.Fifo.{frame_of}
use envisilab.Subscriber.{Conn}
use envisilab.Subscriber.Delivery.{Outboxes}
use envisilab.Topology.Fanout.{deliver}
use envisilab.Topology.Fanout.Reaches.{channels_of, wants, wants_bound}
use envisilab.Heap.{update_at}
use envisilab.Endpoint.Http.{silent}
use envisilab.Server.{answer, serve}
use envisilab.Server.Sockets.{serve_sends}
use envisilab.Tests.Instances.{
  server, server-IsPubSub, in_order, texts_in_order, numbers_in_order, redis, redis-IsPool,
}
use envisilab.Tests.Cell.{line, twice}
use envisilab.Tests.Store.{database}
use envisilab.Tests.Fanout.{broker}
use envisilab.Tests.Endpoint.{token}
use envisilab.Tests.Server.{outside, to, place, on_time}
use envisilab.Tests.WebSocket.{socket, socket-IsOpen}
use envisilab.Tests.Followers.{
  calls, service, sent, copies, user_data, token_known, not_connected, cell_taken, no_groups,
  groups_taken, are_copies, after,
}

-- A message waits at each.
abbrev sockets : Conn → WebSocketConnection socket
sockets conn = record { entity = none; conn = []; send = (1 ∷ []) ∷ [] }

abbrev copies_of : Conn → ℕ
copies_of conn =
    wants redis server redis-IsPool server-IsPubSub broker calls conn
      (channels_of 8 (service.heap.objects.entity 0).groups)

room : (conn : Conn) → length (sockets conn).send + copies_of conn ≤ send_capacity
room conn =
    let channels = channels_of 8 (service.heap.objects.entity 0).groups in
    let one : length channels ≡ 1 = rw no_groups refl in
    omega
      (arith, one, wants_bound redis server redis-IsPool server-IsPubSub broker calls conn channels)

serve_sends_example :
    (let (offered, moved) = update_at line twice service.heap 0 place in
      serve outside service (to token [])
      ≡ some (
        answer outside (silent ∷ []) offered,
        record {
          endpoint = record (service.endpoint) { ctx = record (service.endpoint.ctx) { t = sent } };
          heap = moved;
        },
      ))
    × ((out' : Outboxes) × (deliver in_order sent user_data copies (λ conn. (1 ∷ []) ∷ [])
          ≡ some out')
        × ((conn : Conn)
            → let end = (write_round (record (sockets conn) { send = out' conn }) Wake.message).1 in
              (end.send ≡ [])
              × (end.conn ≡ frame_of ((1 ∷ []) ∷ replicate (copies_of conn) user_data))))
serve_sends_example =
    serve_sends outside redis server database in_order redis-IsPool server-IsPubSub broker
      socket-IsOpen in_order calls service (to token []) token 0 copies sockets texts_in_order
      numbers_in_order after not_connected refl refl refl refl on_time (λ ud. refl) token_known
      cell_taken groups_taken are_copies room
