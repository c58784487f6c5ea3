-- ===== src/Tests/Topology.antt =====
-- core/topology.go over Redis servers in memory.
use envisilab.Base.{◌≡◌, refl, true, false, List, [], ◌∷◌, list_eq, nat_eq, Text}
use envisilab.Base.Decimal.{format_uint, decimal}
use envisilab.Base.Dict.{
  inner, empty, is_empty, get, set, delete, keys, find, without, names, drop_key,
}
use envisilab.Subscriber.{
  make_subscriber, subscribe, unsubscribe, subscribe_cells, subscribe_no_lock, unsubscribe_no_lock,
  leave_channels, leave_channel,
}
use envisilab.Subscriber
use envisilab.Subscriber.View.{recorded}
use envisilab.Subscriber.Calls.{step, quiet}
use envisilab.Topology.{
  Config, Group, Topology, make_topology, subscribe_to_cell, subscribe_to_group,
}
use envisilab.Topology.Exclusive.{
  Call, to_cell, to_group, apply, apply_all, smooth, all_smooth, apply_all_exclusive,
}
use envisilab.Tests.Instances.{server, nothing, in_order, texts_in_order, redis, no_redis}

abbrev pub config : Config
config = record {
  search_radius_meters = 100;
  topology_level = 15;
  height = 1;
  redis_url = [];
  token_timeout_sec = 30;
}

abbrev pub fresh : Topology redis server
fresh = make_topology config no_redis nothing nothing

abbrev pub team : Text
team = 116 ∷ []

-- Connection 1 is in a group before it follows cells; connection 2 the other way round.
abbrev pub calls : List Call
calls =
    to_group 1 team true ∷ to_cell 2 (4 ∷ []) ∷ to_cell 1 (4 ∷ 5 ∷ []) ∷ to_group 2 team true ∷ []

pub accepted : all_smooth in_order fresh calls ≡ true
unfolding all_smooth smooth apply subscribe_to_cell subscribe_to_group make_topology
    Subscriber.subscribe_to_cell quiet step make_subscriber subscribe unsubscribe subscribe_cells
    subscribe_no_lock unsubscribe_no_lock leave_channels leave_channel inner empty is_empty get set
    delete keys find without names drop_key format_uint decimal
accepted = refl

on_cell : recorded (apply_all in_order fresh calls).cell_subscriber 1 (format_uint 5) ≡ true
unfolding recorded apply_all apply subscribe_to_cell subscribe_to_group make_topology
    Subscriber.subscribe_to_cell make_subscriber subscribe unsubscribe subscribe_cells
    subscribe_no_lock unsubscribe_no_lock leave_channels leave_channel inner empty is_empty get set
    delete keys find without names drop_key format_uint decimal
on_cell = refl

apply_all_exclusive_example :
    recorded (apply_all in_order fresh calls).group_subscriber 1 team ≡ false
apply_all_exclusive_example =
    apply_all_exclusive redis server in_order config no_redis nothing nothing calls 1
      (format_uint 5) team texts_in_order accepted on_cell

abbrev pub groups : List Group
groups = record { uuid = team; name = [] } ∷ record { uuid = 117 ∷ []; name = [] } ∷ []
