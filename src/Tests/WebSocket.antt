-- ===== src/Tests/WebSocket.antt =====
-- The pumps of core/http.go over a socket in memory.
use envisilab.Base.{◌≡◌, refl, none, some, List, [], ◌∷◌, ◌++◌, map, Bytes}
use envisilab.WebSocket.{Socket, WebSocketConnection, make_web_socket_connection}
use envisilab.WebSocket.Fifo.{
  IsOpen, Action, put, take, tick, act, run, accepted, Batch, batch_frame, messages, IsFifo,
  run-IsFifo, run_sends_all,
}

-- The state is what was sent.
abbrev pub socket : Socket
socket = record {
  State = List Bytes;
  next_writer = λ s. (none, s);
  close_writer = λ s f. (none, s ++ f ∷ []);
  write_ping = λ s. (none, s);
  write_close = λ s. s;
}

abbrev pub socket-IsOpen : IsOpen socket
socket-IsOpen = record {
  frames = λ s. s;
  next_writer_ok = λ s. (refl, refl);
  close_writer_ok = λ s f. (refl, refl);
  write_ping_ok = λ s. (refl, refl);
}

abbrev fresh : WebSocketConnection socket
fresh = make_web_socket_connection (some 0) []

abbrev actions : List Action
actions = put (1 ∷ []) ∷ put (2 ∷ []) ∷ tick ∷ take ∷ put (3 ∷ []) ∷ []

run-IsFifo_example : IsFifo socket-IsOpen fresh (run fresh actions) (accepted fresh actions)
run-IsFifo_example = run-IsFifo socket-IsOpen fresh actions

empty : fresh.send ≡ []
unfolding make_web_socket_connection
empty = refl

run_sends_all_example :
    (let end = act (run fresh actions) take in
      (end.send ≡ [])
      × ((batches : List Batch) × (end.conn ≡ fresh.conn ++ map batch_frame batches)
          × (messages batches ≡ accepted fresh actions)))
run_sends_all_example = run_sends_all socket-IsOpen fresh actions empty
