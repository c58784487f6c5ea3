-- ===== src/Subscriber/Effects.antt =====
-- What the methods of core/subscriber.go do to the two maps, where Redis accepts every step.
use envisilab.Base.{
  ℕ, ◌≡◌, Bool, true, ◌&&◌, ◌||◌, not, none, is_some, List, [], ◌∷◌, map, nat_eq, list_eq, elem,
  elem-count, ◌==◌, eq_iff, arith, Text,
}
use envisilab.Base.Decimal.{format_uint}
use envisilab.Base.Dict.{Dict, inner, count-keys, get-delete, get-empty, inner-delete, IsOrder}
use envisilab.Base.Dict
use envisilab.Redis.{PubSub}
use envisilab.Subscriber.{Conn, Subscriber, subscribe_no_lock, unsubscribe_no_lock, subscribe_cells}
use envisilab.Subscriber.View.{recorded, listening, recorded-subscribe, listening-subscribe}
use envisilab.Subscriber.Leave.{
  connections-leave_channels, listening-leave_channels, listening-leave_channels_le,
}

module _ {ps : PubSub} (order : List Text → List Text) where
  -- The loop of `unsubscribeNoLock` meets the channels of the connection and no others.
  elem-order :
      IsOrder order
      → (s : Subscriber ps) (conn : Conn) (d : Text)
      → elem d (order (Dict.keys (inner s.connections conn))) ≡ recorded s conn d
  unfolding recorded
  elem-order o s conn d =
      let row = inner s.connections conn in
      ground
        (arith, elem-count d (order (Dict.keys row)), o.same d (Dict.keys row), count-keys row d)

  pub recorded-unsubscribe :
      (s : Subscriber ps) (conn j : Conn) (d : Text)
      → (unsubscribe_no_lock order s conn).1 ≡ none
      → recorded (unsubscribe_no_lock order s conn).0 j d ≡ (not (conn == j) && recorded s j d)
  unfolding unsubscribe_no_lock recorded
  recorded-unsubscribe s conn j d e =
      let cs = order (Dict.keys (inner s.connections conn)) in
      ground (
        arith,
        connections-leave_channels s conn cs,
        inner-delete s.connections conn j,
        get-empty {V = Bool} d,
        eq_iff conn j,
      )

  pub listening-unsubscribe :
      IsOrder order
      → (s : Subscriber ps) (conn j : Conn) (d : Text) → (unsubscribe_no_lock order s conn).1 ≡ none
      → listening (unsubscribe_no_lock order s conn).0 d j
        ≡ (listening s d j && not (conn == j && recorded s conn d))
  unfolding unsubscribe_no_lock
  listening-unsubscribe o s conn j d e =
      let cs = order (Dict.keys (inner s.connections conn)) in
      unfold listening in
      ground (arith, elem-order o s conn d, listening-leave_channels s conn j d cs)

  -- A failing `unsubscribeNoLock` leaves the connection's own set as it was.
  pub recorded-unsubscribe_err :
      (s : Subscriber ps) (conn j : Conn) (d : Text)
      → is_some (unsubscribe_no_lock order s conn).1 ≡ true
      → recorded (unsubscribe_no_lock order s conn).0 j d ≡ recorded s j d
  unfolding unsubscribe_no_lock recorded
  recorded-unsubscribe_err s conn j d e =
      let cs = order (Dict.keys (inner s.connections conn)) in
      ground (arith, connections-leave_channels s conn cs)

  pub listening-unsubscribe_le :
      (s : Subscriber ps) (conn j : Conn) (d : Text)
      → listening (unsubscribe_no_lock order s conn).0 d j ≡ true
      → listening s d j ≡ true
  unfolding unsubscribe_no_lock
  listening-unsubscribe_le s conn j d h =
      let cs = order (Dict.keys (inner s.connections conn)) in
      unfold listening in ground (arith, listening-leave_channels_le s conn j d cs)

module _ {ps : PubSub} where
  pub recorded-subscribe_cells :
      (s : Subscriber ps) (conn j : Conn) (d : Text) (ids : List ℕ)
      → (subscribe_cells s conn ids).1 ≡ none
      → recorded (subscribe_cells s conn ids).0 j d
        ≡ ((conn == j && elem d (map format_uint ids)) || recorded s j d)
  unfolding subscribe_cells
  recorded-subscribe_cells s conn j d [] e = ground arith
  recorded-subscribe_cells s conn j d (id ∷ ids) e = ground (
    arith,
    recorded-subscribe s conn j (format_uint id) d,
    recorded-subscribe_cells (subscribe_no_lock s conn (format_uint id)).0 conn j d ids,
  )

  pub listening-subscribe_cells :
      (s : Subscriber ps) (conn j : Conn) (d : Text) (ids : List ℕ)
      → (subscribe_cells s conn ids).1 ≡ none
      → listening (subscribe_cells s conn ids).0 d j
        ≡ ((conn == j && elem d (map format_uint ids)) || listening s d j)
  unfolding subscribe_cells
  listening-subscribe_cells s conn j d [] e = ground arith
  listening-subscribe_cells s conn j d (id ∷ ids) e = ground (
    arith,
    listening-subscribe s conn j (format_uint id) d,
    listening-subscribe_cells (subscribe_no_lock s conn (format_uint id)).0 conn j d ids,
  )
