-- ===== src/Subscriber.antt =====
-- core/subscriber.go: `Subscriber`, which keeps the channels of each connection and the connections
-- of each channel, and the Redis subscriptions behind them. The lock makes each method one step. A
-- connection is a pointer, which the maps compare by identity: a number here.
pub mod View
pub mod Leave
pub mod Invariant
pub mod Effects
pub mod Calls
pub mod Runs
pub mod Refines
pub mod Synced
pub mod OnRecord
pub mod Faults
pub mod Delivery
pub mod Cells
use Prim.Native.Nat.{ℕ}
use envisilab.Base.{
  ◌≡◌, Bool, true, false, Option, none, some, is_some, not, List, [], ◌∷◌, nat_eq, list_eq, count,
  ◌==◌, if◌then◌else◌, Text, Bytes, Error,
}
use envisilab.Base.Decimal.{format_uint}
use envisilab.Base.Dict.{Dict, inner}
use envisilab.Base.Dict
use envisilab.Redis.{PubSub}

abbrev pub Conn : Type 0
Conn = ℕ

module _ (ps : PubSub) where
  pub record Subscriber : Type 0 where
    pub redis_url : Text
    pub connections : Dict Conn (Dict Text Bool)
    pub channels : Dict Text (Dict Conn Bool)
    pub subconn : ps.State

module _ {ps : PubSub} where
  -- `self.connections[conn][channel] = true`, then the same in `channels`, where the first
  -- connection of a channel subscribes it in Redis.
  unfoldable pub subscribe_no_lock : Subscriber ps → Conn → Text → Subscriber ps × Error
  subscribe_no_lock self conn channel =
      let connections =
        Dict.set self.connections conn (Dict.set (inner self.connections conn) channel true) in
      elim (Dict.get self.channels channel) [
        | none ↦
            let opened = Dict.set self.channels channel Dict.empty in
            let (err, subconn) = ps.subscribe self.subconn channel in
            if is_some err
            then (
              record self { connections = connections; channels = opened; subconn = subconn },
              err,
            )
            else (
              record self {
                connections = connections;
                channels = Dict.set opened channel (Dict.set (inner opened channel) conn true);
                subconn = subconn;
              },
              none,
            )
        | some conns ↦ (
          record self {
            connections = connections;
            channels = Dict.set self.channels channel (Dict.set conns conn true);
          },
          none,
        )
      ]

  -- One round of the loop of `unsubscribeNoLock`: `delete(self.channels[c], conn)`, and the channel
  -- goes with its last connection. A delete from the nil map does nothing.
  unfoldable pub leave_channel : Subscriber ps → Conn → Text → Subscriber ps × Error
  leave_channel self conn c =
      let left : Dict Text (Dict Conn Bool) = elim (Dict.get self.channels c) [
        | none ↦ self.channels
        | some conns ↦ Dict.set self.channels c (Dict.delete conns conn)
      ] in
      if Dict.is_empty (inner left c)
      then (let (err, subconn) = ps.unsubscribe self.subconn c in
          (record self { channels = Dict.delete left c; subconn = subconn }, err))
      else (record self { channels = left }, none)

  unfoldable pub leave_channels : Subscriber ps → Conn → List Text → Subscriber ps × Error
  leave_channels self conn [] = (self, none)
  leave_channels self conn (c ∷ cs) =
      let (self', err) = leave_channel self conn c in
      elim err [ none ↦ leave_channels self' conn cs | some e ↦ (self', some e) ]

  unfoldable pub unsubscribe_no_lock :
      (List Text → List Text) → Subscriber ps → Conn → Subscriber ps × Error
  unfolding leave_channels
  unsubscribe_no_lock order self conn =
      let (self', err) =
        leave_channels self conn (order (Dict.keys (inner self.connections conn))) in
      if is_some err
      then (self', err)
      else (record self' { connections = Dict.delete self'.connections conn }, none)

  -- The loop of `SubscribeToCell` over the ids of the cell group.
  unfoldable pub subscribe_cells : Subscriber ps → Conn → List ℕ → Subscriber ps × Error
  subscribe_cells self conn [] = (self, none)
  subscribe_cells self conn (cell_id ∷ ids) =
      let (self', err) = subscribe_no_lock self conn (format_uint cell_id) in
      elim err [ none ↦ subscribe_cells self' conn ids | some e ↦ (self', some e) ]

  unfoldable pub subscribe_to_cell :
      (List Text → List Text) → Subscriber ps → Conn → List ℕ → Subscriber ps × Error
  subscribe_to_cell order self conn cell_group =
      let (self', err) = unsubscribe_no_lock order self conn in
      elim err [ none ↦ subscribe_cells self' conn cell_group | some e ↦ (self', some e) ]

  unfoldable pub subscribe :
      (List Text → List Text) → Subscriber ps → Conn → Text → Bool → Subscriber ps × Error
  subscribe order self conn channel unsubscribe =
      let self' = if unsubscribe then (unsubscribe_no_lock order self conn).0 else self in
      subscribe_no_lock self' conn channel

  unfoldable pub unsubscribe :
      (List Text → List Text) → Subscriber ps → Conn → Subscriber ps × Error
  unsubscribe order self conn = unsubscribe_no_lock order self conn

  -- `redis.DialURL`, and the connection is kept where it succeeds.
  unfoldable pub connect : Subscriber ps → Subscriber ps × Error
  connect self =
      let (err, c) = ps.dial self.redis_url in
      if is_some err then (self, err) else (record self { subconn = c }, none)

  -- `c` is the `redis.PubSubConn` that the struct starts with.
  unfoldable pub make_subscriber : Text → ps.State → Subscriber ps
  make_subscriber redis_url c = record {
    redis_url = redis_url;
    connections = Dict.empty;
    channels = Dict.empty;
    subconn = c;
  }
