-- ===== src/WebSocket/Fifo.antt =====
-- The channel of a `WebSocketConnection` of core/http.go between `Write` and `WritePump`.
use mathlib.Core.List.{append_assoc, append-nil, map-append}
use envisilab.Base.{
  ◌≤◌, ◌≡◌, refl, sym, ap, ◌∙◌, none, if◌then◌else◌, ltb, List, [], ◌∷◌, ◌++◌, map, length,
  length-append, arith, nat_eq, Bytes,
}
use envisilab.WebSocket.{
  Socket, WebSocketConnection, Wake, write, frame, queued, write_round, send_capacity,
}
use envisilab.WebSocket

-- A socket that accepts everything; `frames` is what it has sent.
pub record IsOpen (k : Socket) : Type 0 where
  pub frames : k.State → List Bytes
  pub next_writer_ok :
      (s : k.State) → ((k.next_writer s).0 ≡ none) × (frames (k.next_writer s).1 ≡ frames s)
  pub close_writer_ok :
      (s : k.State) (f : Bytes)
      → ((k.close_writer s f).0 ≡ none) × (frames (k.close_writer s f).1 ≡ frames s ++ f ∷ [])
  pub write_ping_ok :
      (s : k.State) → ((k.write_ping s).0 ≡ none) × (frames (k.write_ping s).1 ≡ frames s)

-- What happens at a connection: a message is written to it, or the pump wakes by a message or by the
-- ticker. Nothing in the program ends the channel.
pub data Action : Type 0 where
  put : Bytes → Action
  take tick : Action

module _ {k : Socket} where
  unfoldable pub act : WebSocketConnection k → Action → WebSocketConnection k
  act c (put m) = record c { send = write c.send m }
  act c take = (write_round c Wake.message).1
  act c tick = (write_round c Wake.tick).1

  unfoldable pub run : WebSocketConnection k → List Action → WebSocketConnection k
  run c [] = c
  run c (a ∷ actions) = run (act c a) actions

  -- The message of an action, if it finds room.
  unfoldable pub added : WebSocketConnection k → Action → List Bytes
  added c (put m) = if ltb (length c.send) send_capacity then m ∷ [] else []
  added c take = []
  added c tick = []

  unfoldable pub accepted : WebSocketConnection k → List Action → List Bytes
  accepted c [] = []
  accepted c (a ∷ actions) = added c a ++ accepted (act c a) actions

-- A frame holds a message and those behind it.
abbrev pub Batch : Type 0
Batch = Bytes × List Bytes

-- The text of a JSON array, from the texts of its elements.
abbrev pub elements : List Bytes → Bytes
elements [] = []
elements (m ∷ []) = m
elements (m ∷ m' ∷ ms) = m ++ b',' ∷ elements (m' ∷ ms)

abbrev pub json_array : List Bytes → Bytes
json_array ms = b'[' ∷ (elements ms ++ b']' ∷ [])

elements-queued : (m : Bytes) (ms : List Bytes) → m ++ queued ms ≡ elements (m ∷ ms)
unfolding queued
elements-queued m [] = append-nil m
elements-queued m (m' ∷ ms) = ap (λ (l : Bytes). m ++ b',' ∷ l) (elements-queued m' ms)

frame-json_array : (m : Bytes) (ms : List Bytes) → frame m ms ≡ json_array (m ∷ ms)
unfolding frame
frame-json_array m ms =
    ap (λ (l : Bytes). b'[' ∷ l)
      (sym (append_assoc m (queued ms) (b']' ∷ []))
        ∙ ap (λ (l : Bytes). l ++ b']' ∷ []) (elements-queued m ms))

abbrev pub batch_frame : Batch → Bytes
batch_frame (m, ms) = json_array (m ∷ ms)

-- One frame, a JSON array, for all that waits in a channel, and none where nothing does.
abbrev pub frame_of : List Bytes → List Bytes
frame_of [] = []
frame_of (m ∷ ms) = json_array (m ∷ ms) ∷ []

abbrev pub messages : List Batch → List Bytes
messages [] = []
messages ((m, ms) ∷ batches) = m ∷ ms ++ messages batches

module _ {k : Socket} (o : IsOpen k) where
  -- What a connection has sent since, and what is left in the channel.
  pub record IsFifo (before after : WebSocketConnection k) (added : List Bytes) : Type 0 where
    pub batches : List Batch
    pub framed : o.frames after.conn ≡ o.frames before.conn ++ map batch_frame batches
    pub order : messages batches ++ after.send ≡ before.send ++ added
    pub room : length before.send ≤ send_capacity → length after.send ≤ send_capacity

  IsFifo-refl : (c : WebSocketConnection k) → IsFifo c c []
  IsFifo-refl c = record {
    batches = [];
    framed = sym (append-nil (o.frames c.conn));
    order = sym (append-nil c.send);
    room = λ h. h;
  }

  messages-append : (xs ys : List Batch) → messages (xs ++ ys) ≡ messages xs ++ messages ys
  messages-append [] ys = refl
  messages-append ((m, ms) ∷ xs) ys =
      ap (λ (l : List Bytes). m ∷ ms ++ l) (messages-append xs ys)
      ∙ sym (append_assoc (m ∷ ms) (messages xs) (messages ys))

  IsFifo-trans :
      (a b c : WebSocketConnection k) (xs ys : List Bytes)
      → IsFifo a b xs
      → IsFifo b c ys
      → IsFifo a c (xs ++ ys)
  IsFifo-trans a b c xs ys v w = record {
    batches = v.batches ++ w.batches;
    framed = simp (w.framed, v.framed, map-append, append_assoc);
    order =
        ap (λ (l : List Bytes). l ++ c.send) (messages-append v.batches w.batches)
        ∙ append_assoc (messages v.batches) (messages w.batches) c.send
        ∙ ap (λ (l : List Bytes). messages v.batches ++ l) w.order
        ∙ sym (append_assoc (messages v.batches) b.send ys)
        ∙ ap (λ (l : List Bytes). l ++ ys) v.order
        ∙ append_assoc a.send xs ys;
    room = λ h. w.room (v.room h);
  }

  take-IsFifo : (c : WebSocketConnection k) (s : List Bytes) → c.send ≡ s → IsFifo c (act c take) []
  unfolding act write_round WebSocket.send_frame
  take-IsFifo c [] e = record {
    batches = [];
    framed = ground (arith, e, append-nil (o.frames c.conn));
    order = ground (arith, e, append-nil c.send);
    room = λ h. ground (arith, e);
  }
  take-IsFifo c (m ∷ rest) e =
      let (ready, same) = o.next_writer_ok c.conn in
      let (sent, more) = o.close_writer_ok (k.next_writer c.conn).1 (frame m rest) in
      record {
        batches = (m, rest) ∷ [];
        framed = ground (arith, e, ready, same, sent, more, frame-json_array m rest);
        order = ground (arith, e, ready, sent, append-nil c.send, append-nil (m ∷ rest));
        room = λ h. ground (arith, e, ready, sent);
      }

  act-IsFifo : (c : WebSocketConnection k) (a : Action) → IsFifo c (act c a) (added c a)
  unfolding act added write_round WebSocket.send_frame write
  act-IsFifo c (put m) = record {
    batches = [];
    framed = sym (append-nil (o.frames c.conn));
    order = ground (arith, append-nil c.send);
    room = λ h. ground (arith, length-append c.send (m ∷ []));
  }
  act-IsFifo c take = take-IsFifo c c.send refl
  act-IsFifo c tick = record {
    batches = [];
    framed = (o.write_ping_ok c.conn).1 ∙ sym (append-nil (o.frames c.conn));
    order = sym (append-nil c.send);
    room = λ h. h;
  }

  -- Whatever is written to a connection and whenever its pump wakes, over a socket that accepts
  -- everything: what was accepted comes out in the frames, each a JSON array of what it holds, once and in its order, up to what is still
  -- in the channel, and the channel never holds more than 100 messages.
  pub run-IsFifo :
      (c : WebSocketConnection k) (actions : List Action)
      → IsFifo c (run c actions) (accepted c actions)
  unfolding run accepted
  run-IsFifo c [] = IsFifo-refl c
  run-IsFifo c (a ∷ actions) =
      IsFifo-trans c (act c a) (run (act c a) actions) (added c a) (accepted (act c a) actions)
        (act-IsFifo c a) (run-IsFifo (act c a) actions)

  take_empties : (c : WebSocketConnection k) → (act c take).send ≡ []
  unfolding act write_round WebSocket.send_frame
  take_empties c =
      ground (arith, o.next_writer_ok c.conn, o.close_writer_ok (k.next_writer c.conn).1)

  -- The frame that the pump sends of what it finds in the channel.
  pub frames-write_round :
      (c : WebSocketConnection k) (s : List Bytes)
      → c.send ≡ s
      → let end = (write_round c Wake.message).1 in
        (end.send ≡ []) × (o.frames end.conn ≡ o.frames c.conn ++ frame_of s)
  unfolding write_round WebSocket.send_frame
  frames-write_round c [] e = ground (arith, e, append-nil (o.frames c.conn))
  frames-write_round c (m ∷ rest) e =
      let (ready, same) = o.next_writer_ok c.conn in
      let (sent, more) = o.close_writer_ok (k.next_writer c.conn).1 (frame m rest) in
      (
        ground (arith, e, ready, sent),
        ground (arith, e, ready, same, sent, more, frame-json_array m rest),
      )

  -- Once the pump has woken by a message after whatever was written, over a socket that accepts
  -- everything, each message that found room has been sent: the frames since are JSON arrays that hold these messages, once
  -- and in their order, and nothing is left in the channel.
  pub run_sends_all :
      (c : WebSocketConnection k) (actions : List Action)
      → c.send ≡ []
      → let end = act (run c actions) take in
        (end.send ≡ [])
        × ((batches : List Batch) × (o.frames end.conn ≡ o.frames c.conn ++ map batch_frame batches)
            × (messages batches ≡ accepted c actions))
  run_sends_all c actions fresh =
      let end = act (run c actions) take in
      let empty = take_empties (run c actions) in
      let v =
        IsFifo-trans c (run c actions) end (accepted c actions) [] (run-IsFifo c actions)
          (take-IsFifo (run c actions) (run c actions).send refl) in
      (
        empty,
        (
          v.batches,
          v.framed,
          sym (append-nil (messages v.batches))
              ∙ ap (λ (l : List Bytes). messages v.batches ++ l) (sym empty)
              ∙ v.order
              ∙ ap (λ (l : List Bytes). l ++ (accepted c actions ++ [])) fresh
              ∙ append-nil (accepted c actions),
        ),
      )
