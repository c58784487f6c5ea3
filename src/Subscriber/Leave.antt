-- ===== src/Subscriber/Leave.antt =====
-- What `unsubscribeNoLock` of core/subscriber.go does to the channels, one at a time and all in turn.
use envisilab.Base.{
  ◌≡◌, refl, Bool, true, ◌&&◌, not, none, some, is_some, List, [], ◌∷◌, nat_eq, list_eq, elem, ◌==◌,
  eq_iff, if◌then◌else◌, arith, Text, Option-cases, inl, inr,
}
use envisilab.Base.Dict.{
  Dict, inner, get-set, get-delete, get-empty, inner-set, inner-delete, inner-some, inner-none,
  is_empty-get, get-not-is_empty,
}
use envisilab.Base.Dict
use envisilab.Redis.{PubSub}
use envisilab.Subscriber.{Conn, Subscriber, leave_channel, leave_channels}
use envisilab.Subscriber.View.{listening, known, connections-leave_channel}

module _ {ps : PubSub} where
  -- The channels without the connection, before the test for an empty channel.
  abbrev pub left : Subscriber ps → Conn → Text → Dict Text (Dict Conn Bool)
  left s conn c = elim (Dict.get s.channels c) [
    | none ↦ s.channels
    | some conns ↦ Dict.set s.channels c (Dict.delete conns conn)
  ]

  pub get-left :
      (s : Subscriber ps) (conn j : Conn) (c d : Text)
      → is_some (Dict.get (inner (left s conn c) d) j)
        ≡ (listening s d j && not (conn == j && c == d))
  unfolding listening
  get-left s conn j c d = elim (Option-cases (Dict.get s.channels c)) [
    | inl new ↦ ground (arith, new, inner-none s.channels c new, get-empty {V = Bool} j, eq_iff c d)
    | inr (conns, old) ↦ ground (
      arith,
      old,
      inner-some s.channels c conns old,
      inner-set s.channels c d (Dict.delete conns conn),
      get-delete conns conn j,
      eq_iff c d,
    )
  ]

  pub listening-leave_channel :
      (s : Subscriber ps) (conn j : Conn) (c d : Text)
      → listening (leave_channel s conn c).0 d j ≡ (listening s d j && not (conn == j && c == d))
  unfolding leave_channel
  listening-leave_channel s conn j c d =
      unfold listening in
      ground (
        arith,
        get-left s conn j c d,
        is_empty-get (inner (left s conn c) c) j,
        inner-delete (left s conn c) c d,
        get-empty {V = Bool} j,
        eq_iff c d,
      )

  get-left_ne :
      (s : Subscriber ps) (conn : Conn) (c d : Text)
      → is_some (Dict.get (left s conn c) d) ≡ known s d
  unfolding known
  get-left_ne s conn c d = elim (Option-cases (Dict.get s.channels c)) [
    | inl new ↦ ground (arith, new)
    | inr (conns, old) ↦
        ground (arith, old, get-set s.channels c d (Dict.delete conns conn), eq_iff c d)
  ]

  -- A channel other than the one left keeps its entry, and the one left has none but for the
  -- connections that stay.
  pub known-leave_channel :
      (s : Subscriber ps) (conn : Conn) (c d : Text)
      → known (leave_channel s conn c).0 d
        ≡ (known s d && not (c == d && Dict.is_empty (inner (left s conn c) c)))
  unfolding leave_channel
  known-leave_channel s conn c d =
      unfold known in
      ground (arith, get-left_ne s conn c d, get-delete (left s conn c) c d, eq_iff c d)

  -- After all the channels, failing or not, nobody is added to a channel.
  pub listening-leave_channels_le :
      (s : Subscriber ps) (conn j : Conn) (d : Text) (cs : List Text)
      → listening (leave_channels s conn cs).0 d j ≡ true
      → listening s d j ≡ true
  unfolding leave_channels
  listening-leave_channels_le s conn j d [] h = h
  listening-leave_channels_le s conn j d (c ∷ cs) h = ground (
    arith,
    listening-leave_channel s conn j c d,
    listening-leave_channels_le (leave_channel s conn c).0 conn j d cs,
  )

  pub connections-leave_channels :
      (s : Subscriber ps) (conn : Conn) (cs : List Text)
      → (leave_channels s conn cs).0.connections ≡ s.connections
  unfolding leave_channels
  connections-leave_channels s conn [] = refl
  connections-leave_channels s conn (c ∷ cs) = ground (
    arith,
    connections-leave_channel s conn c,
    connections-leave_channels (leave_channel s conn c).0 conn cs,
  )

  -- Where Redis accepts every step, exactly the channels listed have lost the connection.
  pub listening-leave_channels :
      (s : Subscriber ps) (conn j : Conn) (d : Text) (cs : List Text)
      → (leave_channels s conn cs).1 ≡ none
      → listening (leave_channels s conn cs).0 d j
        ≡ (listening s d j && not (conn == j && elem d cs))
  unfolding leave_channels
  listening-leave_channels s conn j d [] h = ground arith
  listening-leave_channels s conn j d (c ∷ cs) h = ground (
    arith,
    listening-leave_channel s conn j c d,
    listening-leave_channels (leave_channel s conn c).0 conn j d cs,
    eq_iff c d,
  )

  -- Redis is asked to unsubscribe exactly where the last connection leaves the channel.
  pub subconn-leave_channel :
      (s : Subscriber ps) (conn : Conn) (c : Text)
      → let gone = Dict.is_empty (inner (left s conn c) c) in
        let answer = ps.unsubscribe s.subconn c in
        ((leave_channel s conn c).0.subconn ≡ (if gone then answer.1 else s.subconn))
        × ((leave_channel s conn c).1 ≡ (if gone then answer.0 else none))
  unfolding leave_channel
  subconn-leave_channel s conn c = ground arith
