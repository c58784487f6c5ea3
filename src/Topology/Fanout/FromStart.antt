-- ===== src/Topology/Fanout/FromStart.antt =====
-- A broadcast of core/topology.go after calls on a new topology.
use envisilab.Base.{ℕ, ◌≡◌, true, false, none, some, List, nat_eq, list_eq, Text, Bytes}
use envisilab.Base.Dict.{IsOrder}
use envisilab.Base.Decimal.{format_uint}
use envisilab.Redis.{Pool, IsPool, PubSub, IsPubSub, IsBroker}
use envisilab.Publisher.{publish_message}
use envisilab.Subscriber.{Conn}
use envisilab.Subscriber.Delivery.{Outboxes, writes}
use envisilab.Topology.{Config, Group, Topology, make_topology, broadcast}
use envisilab.Topology.Exclusive.{Call, apply_all, all_smooth}
use envisilab.Topology.Broadcasts.{groups_accepted}
use envisilab.Topology.Fanout.{Feed, deliver}
use envisilab.Topology.Fanout.Reaches.{channels_of, AreCopies, wants, reaches, apply_all-IsAfter}

module _ (p : Pool) (ps : PubSub) (i : IsPool p) (r : IsPubSub ps) (b : IsBroker i r) where
  -- After any calls on a new topology that Redis accepts, a broadcast that Redis accepts reaches the
  -- connections, whichever goroutine takes its copies first: each connection is written the message
  -- once for each channel, among that of the cell and those of the groups, that its calls asked for,
  -- and no other connection is. The two Redis connections start with no subscription.
  pub broadcast_reaches :
      (order : List Text → List Text) (visits : List Conn → List Conn) (config : Config)
      (s : p.State) (cells groups : ps.State) (calls : List Call) (cell_id : ℕ)
      (entity_groups : List Group) (data' : Bytes) (copies : List (Feed × Text)) (out : Outboxes)
      → IsOrder order
      → IsOrder visits
      → ((c : Text) → r.subscribed cells c ≡ false)
      → ((c : Text) → r.subscribed groups c ≡ false)
      → let t : Topology p ps = apply_all order (make_topology config s cells groups) calls in
        let (err, s') = publish_message p t.publisher (format_uint cell_id) data' in
        let t' = (broadcast t cell_id entity_groups data').0 in
        let channels = channels_of cell_id entity_groups in
        all_smooth order (make_topology {p = p} {ps = ps} config s cells groups) calls ≡ true
        → err ≡ none
        → groups_accepted p i s' entity_groups data' ≡ true
        → AreCopies p ps i r b t t' data' copies
        → (out' : Outboxes) × (deliver visits t' data' copies out ≡ some out')
          × ((conn : Conn)
              → out' conn ≡ writes (wants p ps i r b calls conn channels) (out conn) data')
  broadcast_reaches order visits config s cells groups calls cell_id entity_groups data' copies out
        o v no_cells no_groups smooth =
      reaches p ps i r b order visits calls
        (apply_all order (make_topology config s cells groups) calls) cell_id entity_groups data'
        copies out o v
        (apply_all-IsAfter p ps i r b order config s cells groups calls no_cells no_groups smooth)
