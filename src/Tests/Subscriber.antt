-- ===== src/Tests/Subscriber.antt =====
-- core/subscriber.go over a Redis server in memory: two connections, one on a cell and one on a group.
use envisilab.Base.{
  elem, arith, ℕ, ◌≡◌, ◌↔◌, refl, true, false, some, List, [], ◌∷◌, list_eq, nat_eq, if◌then◌else◌,
  Text,
}
use envisilab.Base.Decimal.{format_uint, decimal}
use envisilab.Base.Dict.{
  inner, empty, is_empty, get, set, delete, keys, find, without, names, drop_key,
}
use envisilab.Subscriber.{
  Conn, Subscriber, make_subscriber, subscribe, unsubscribe, subscribe_to_cell, subscribe_cells,
  subscribe_no_lock, unsubscribe_no_lock, leave_channels, leave_channel,
}
use envisilab.Subscriber.View.{recorded, listening}
use envisilab.Subscriber.Calls.{
  Call, to_cell, to_channel, leave, run, step, quiet, all_quiet, want_all,
}
use envisilab.Subscriber.Synced.{run-refines, run-IsBacked}
use envisilab.Subscriber.Cells.{receive_cell}
use envisilab.Subscriber.OnRecord.{run-listening-recorded}
use envisilab.Subscriber.Delivery.{Outboxes, message, receive}
use envisilab.WebSocket
use envisilab.Tests.Instances.{
  server, server-IsPubSub, nothing, in_order, texts_in_order, numbers_in_order,
}

abbrev group_channel : Text
group_channel = 103 ∷ []

abbrev fresh : Subscriber server
fresh = make_subscriber [] nothing

-- Connection 1 follows a group, then cells; connection 2 the group, and leaves; 3 stays in the group.
abbrev calls : List Call
calls =
    to_channel 1 group_channel true
    ∷ to_channel 2 group_channel true
    ∷ to_channel 3 group_channel false
    ∷ to_cell 1 (7 ∷ 12 ∷ [])
    ∷ leave 2
    ∷ []

accepted : all_quiet in_order fresh calls ≡ true
unfolding all_quiet quiet step make_subscriber subscribe unsubscribe subscribe_to_cell
    subscribe_cells subscribe_no_lock unsubscribe_no_lock leave_channels leave_channel inner empty
    is_empty get set delete keys find without names drop_key format_uint decimal
accepted = refl

run-refines_example :
    (recorded (run in_order fresh calls) 1 (format_uint 12)
      ≡ want_all (λ j b. false) calls 1 (format_uint 12))
    × (listening (run in_order fresh calls) (format_uint 12) 1
        ≡ want_all (λ j b. false) calls 1 (format_uint 12))
run-refines_example =
    run-refines server [] nothing in_order calls 1 (format_uint 12) texts_in_order accepted

run-IsBacked_example :
    ((run in_order fresh calls).subconn group_channel ≡ true)
    ↔ ((conn : Conn) × (want_all (λ j b. false) calls conn group_channel ≡ true))
run-IsBacked_example =
    run-IsBacked server [] nothing server-IsPubSub in_order calls group_channel texts_in_order
      (λ b. refl) accepted

listens : listening (run in_order fresh calls) group_channel 3 ≡ true
unfolding listening run step make_subscriber subscribe unsubscribe subscribe_to_cell subscribe_cells
    subscribe_no_lock unsubscribe_no_lock leave_channels leave_channel inner empty is_empty get set
    delete keys find without names drop_key format_uint decimal
listens = refl

run-listening-recorded_example : recorded (run in_order fresh calls) 3 group_channel ≡ true
run-listening-recorded_example =
    run-listening-recorded server in_order [] nothing calls 3 group_channel texts_in_order listens

abbrev no_messages : Outboxes
no_messages conn = []

-- Connection 1 went to the cells 7 and 12, and the call behind that is another's.
receive_cell_example :
    (let s = run in_order fresh calls in
      (out' : Outboxes) × (receive in_order s (message (format_uint 12) (1 ∷ [])) no_messages
        ≡ some out')
      × (out' 1 ≡ (if elem {A = ℕ} 12 (7 ∷ 12 ∷ []) then WebSocket.write [] (1 ∷ []) else [])))
receive_cell_example =
    receive_cell server in_order in_order [] nothing
      (to_channel 1 group_channel true
        ∷ to_channel 2 group_channel true
        ∷ to_channel 3 group_channel false
        ∷ [])
      (leave 2 ∷ []) 1 (7 ∷ 12 ∷ []) 12 (1 ∷ []) no_messages texts_in_order numbers_in_order
      accepted refl (omega arith) (omega arith)
