-- ===== src/Subscriber/Delivery.antt =====
-- `Run` of core/subscriber.go: a message from Redis is written to the connections of its channel.
use envisilab.Base.{
  ℕ, zero, suc, ◌+◌, ◌≡◌, refl, ◌∙◌, Bool, true, false, Option, none, some, List, [], ◌∷◌, nat_eq,
  list_eq, count, ◌==◌, if◌then◌else◌, arith, Text, Bytes,
}
use envisilab.Base.Dict.{Dict, inner, count-keys, IsOrder}
use envisilab.Base.Dict
use envisilab.Redis.{PubSub}
use envisilab.Subscriber.{Conn, Subscriber}
use envisilab.Subscriber.View.{listening}
use envisilab.WebSocket

-- What `Receive` returns: a message, an error, or anything else.
pub data Received : Type 0 where
  message : Text → Bytes → Received
  failure : Text → Received
  other : Received

-- The messages that wait in each connection's channel.
abbrev pub Outboxes : Type 0
Outboxes = Conn → List Bytes

-- `conn.Write(v.Data)`
unfoldable pub write_to : Outboxes → Conn → Bytes → Outboxes
write_to out conn data' j = if conn == j then WebSocket.write (out j) data' else out j

unfoldable pub write_all : Outboxes → List Conn → Bytes → Outboxes
unfolding write_to
write_all out [] data' = out
write_all out (conn ∷ conns) data' = write_all (write_to out conn data') conns data'

-- One round of the goroutine. The result `none` is its panic.
unfoldable pub receive :
    {ps : PubSub} → (List Conn → List Conn) → Subscriber ps → Received → Outboxes → Option Outboxes
receive order self (message channel data') out =
    some (write_all out (order (Dict.keys (inner self.channels channel))) data')
receive order self (failure err) out = none
receive order self other out = some out

-- The message `n` times.
abbrev pub writes : ℕ → List Bytes → Bytes → List Bytes
writes zero send data' = send
writes (suc n) send data' = writes n (WebSocket.write send data') data'

pub writes-if :
    (b : Bool) (n : ℕ) (send : List Bytes) (data' : Bytes)
    → writes n (if b then WebSocket.write send data' else send) data'
      ≡ writes ((if b then 1 else 0) + n) send data'
writes-if true n send data' = let e : 1 + n ≡ suc n = omega arith in rw e
writes-if false n send data' = let e : 0 + n ≡ n = omega arith in rw e

write_all-count :
    (out : Outboxes) (conns : List Conn) (data' : Bytes) (j : Conn)
    → write_all out conns data' j ≡ writes (count j conns) (out j) data'
unfolding write_all
write_all-count out [] data' j = refl
write_all-count out (conn ∷ conns) data' j =
    write_all-count (write_to out conn data') conns data' j
    ∙ writes-if (conn == j) (count j conns) (out j) data'

-- A message is written once to each connection that listens on its channel, and to no other, in
-- whatever order the connections are visited.
pub receive_message :
    (ps : PubSub) (order : List Conn → List Conn) (s : Subscriber ps) (channel : Text)
    (data' : Bytes) (out : Outboxes)
    → IsOrder order
    → (out' : Outboxes) × (receive order s (message channel data') out ≡ some out')
      × ((j : Conn)
          → out' j ≡ (if listening s channel j then WebSocket.write (out j) data' else out j))
unfolding receive listening
receive_message ps order s channel data' out o =
    let row = inner s.channels channel in
    let conns = order (Dict.keys row) in
    (
      write_all out conns data',
      refl,
      λ j.
          write_all-count out conns data' j
          ∙ ground (arith, o.same j (Dict.keys row), count-keys row j),
    )
