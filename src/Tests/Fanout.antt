-- ===== src/Tests/Fanout.antt =====
-- A broadcast of core/topology.go to the connections of Tests/Topology.
use envisilab.Base.{
  ◌≡◌, ◌+◌, refl, ap, true, none, some, List, [], ◌∷◌, list_eq, nat_eq, length, drop, drop-append,
  Text,
}
use envisilab.Base.Decimal.{format_uint, decimal}
use envisilab.Base.Dict.{
  inner, empty, is_empty, get, set, delete, keys, find, without, names, drop_key,
}
use envisilab.Redis.{IsBroker, select}
use envisilab.Publisher.{publish_message}
use envisilab.Subscriber.{
  Conn, make_subscriber, subscribe, unsubscribe, subscribe_cells, subscribe_no_lock,
  unsubscribe_no_lock, leave_channels, leave_channel,
}
use envisilab.Subscriber
use envisilab.Subscriber.Delivery.{Outboxes, writes}
use envisilab.Topology.{
  Topology, subscribe_to_cell, subscribe_to_group, make_topology, broadcast, publish_groups,
}
use envisilab.Topology.Exclusive.{apply, apply_all}
use envisilab.Topology.Broadcasts.{groups_accepted}
use envisilab.Topology.Fanout.{Feed, to_cells, to_groups, deliver}
use envisilab.Topology.Fanout.Calls.{cell_calls, group_calls}
use envisilab.Topology.Fanout.Heard.{asked}
use envisilab.Topology.Fanout.Reaches.{AreCopies, channels_of, wanted}
use envisilab.Topology.Fanout.FromStart.{broadcast_reaches}
use envisilab.Tests.Instances.{
  server, server-IsPubSub, nothing, in_order, texts_in_order, numbers_in_order, redis, redis-IsPool,
  no_redis,
}
use envisilab.Tests.Topology.{config, team, calls, accepted, groups}

abbrev pub broker : IsBroker redis-IsPool server-IsPubSub
broker = record {
  arrivals = λ s s' c. select c (drop (length s.published) s'.published);
  arrive =
      λ s s' c ms e. ap (select c) (rw e (drop-append (length s.published) s.published ms refl));
}

-- The group's copy comes first.
abbrev copies : List (Feed × Text)
copies = (to_groups, team) ∷ (to_cells, format_uint 5) ∷ []

abbrev followed : Topology redis server
followed = apply_all in_order (make_topology config no_redis nothing nothing) calls

abbrev sent : Topology redis server
sent = (broadcast followed 5 groups (1 ∷ [])).0

cell_taken : (publish_message redis followed.publisher (format_uint 5) (1 ∷ [])).0 ≡ none
unfolding publish_message
cell_taken = refl

groups_taken :
    groups_accepted redis redis-IsPool
      (publish_message redis followed.publisher (format_uint 5) (1 ∷ [])).1
      groups
      (1 ∷ [])
    ≡ true
unfolding publish_message groups_accepted
groups_taken = refl

are_copies :
    AreCopies redis server redis-IsPool server-IsPubSub broker followed sent (1 ∷ []) copies
unfolding apply_all apply subscribe_to_cell subscribe_to_group make_topology
    Subscriber.subscribe_to_cell make_subscriber subscribe unsubscribe subscribe_cells
    subscribe_no_lock unsubscribe_no_lock leave_channels leave_channel inner empty is_empty get set
    delete keys find without names drop_key format_uint decimal broadcast publish_message
    publish_groups select
are_copies = (refl, refl)

abbrev silent : Outboxes
silent conn = []

broadcast_reaches_example :
    (out' : Outboxes) × (deliver in_order sent (1 ∷ []) copies silent ≡ some out')
    × ((conn : Conn)
        → out' conn
          ≡ writes
              (asked (wanted (cell_calls calls)) conn (channels_of 5 groups)
                + asked (wanted (group_calls calls)) conn (channels_of 5 groups))
              []
              (1 ∷ []))
broadcast_reaches_example =
    broadcast_reaches redis server redis-IsPool server-IsPubSub broker in_order in_order config
      no_redis nothing nothing calls 5 groups (1 ∷ []) copies silent texts_in_order numbers_in_order
      (λ c. refl) (λ c. refl) accepted cell_taken groups_taken are_copies
