-- ===== src/WebSocket.antt =====
-- core/http.go, `WebSocketConnection`: the buffered channel of outbound messages, and the two pumps.
pub mod Fifo
pub mod Reading
use envisilab.Base.{
  ℕ, Bool, true, false, Option, none, some, is_some, ltb, if◌then◌else◌, nat_eq, List, [], ◌∷◌,
  ◌++◌, length, Bytes, Error,
}
use envisilab.Subscription.{UserFilter}

-- `make(chan []byte, 100)`
abbrev pub send_capacity : ℕ
send_capacity = 100

-- `Write`: a message that finds the channel full is dropped.
unfoldable pub write : List Bytes → Bytes → List Bytes
write send message = if ltb (length send) send_capacity then send ++ message ∷ [] else send

-- The comma-separated messages that `WritePump` adds to the first one: all that were queued.
unfoldable pub queued : List Bytes → Bytes
queued [] = []
queued (m ∷ ms) = b',' ∷ (m ++ queued ms)

-- `WritePump` on a message from the channel: one text frame, a JSON array of all that is queued.
unfoldable pub frame : Bytes → List Bytes → Bytes
unfolding queued
frame message send = b'[' ∷ (message ++ (queued send ++ b']' ∷ []))

-- github.com/gorilla/websocket: `NextWriter`; `Close` of the writer, which sends the frame; a ping;
-- and a close message. The writes to the writer drop their errors.
pub record Socket : Type 1 where
  pub State : Type 0
  pub next_writer : State → Error × State
  pub close_writer : State → Bytes → Error × State
  pub write_ping : State → Error × State
  pub write_close : State → State

-- The fields of the connection. The entity is an address, or `nil`.
pub record WebSocketConnection (k : Socket) : Type 0 where
  pub entity : Option ℕ
  pub conn : k.State
  pub send : List Bytes

-- What wakes `WritePump`: a message in the channel, the channel's end, or the ticker.
pub data Wake : Type 0 where
  message ended tick : Wake

module _ {k : Socket} where
  unfoldable pub make_web_socket_connection : Option ℕ → k.State → WebSocketConnection k
  make_web_socket_connection entity conn = record { entity = entity; conn = conn; send = [] }

  unfoldable pub get_entity : WebSocketConnection k → Option ℕ
  get_entity c = c.entity

  -- The message case: the channel is empty behind the frame.
  unfoldable pub send_frame :
      WebSocketConnection k → Bytes → List Bytes → Bool × WebSocketConnection k
  unfolding frame
  send_frame c m rest =
      let (err, conn) = k.next_writer c.conn in
      if is_some err
      then (false, record c { conn = conn; send = rest })
      else (let (err', conn') = k.close_writer conn (frame m rest) in
          (if is_some err' then false else true, record c { conn = conn'; send = [] }))

  -- One round of `WritePump`, and whether there is another. An empty channel wakes nobody.
  unfoldable pub write_round : WebSocketConnection k → Wake → Bool × WebSocketConnection k
  unfolding send_frame
  write_round c message = elim c.send [ [] ↦ (true, c) | m ∷ rest ↦ send_frame c m rest ]
  write_round c ended = (false, record c { conn = k.write_close c.conn })
  write_round c tick =
      let (err, conn) = k.write_ping c.conn in
      (if is_some err then false else true, record c { conn = conn })

-- What `ReadMessage` returns.
pub data Read : Type 0 where
  message : Bytes → Read
  failure : Read

-- How `ReadPump` stands: it still reads; or it has offered "stop" to the subscription and closed the
-- socket.
pub data ReadState : Type 0 where
  reading closed : ReadState

-- `ReadPump` on what is read, with the filters that it offers to the subscription. `decode` is
-- encoding/json: a message that it refuses is skipped.
unfoldable pub read_pump : (Bytes → UserFilter × Error) → List Read → ReadState × List UserFilter
read_pump decode [] = (reading, [])
read_pump decode (failure ∷ reads) = (closed, [])
read_pump decode (message m ∷ reads) =
    let (user_filter, err) = decode m in
    let (end, filters) = read_pump decode reads in
    (end, if is_some err then filters else user_filter ∷ filters)
