-- ===== src/Subscriber/View.antt =====
-- What the maps of a subscriber say, and what each step of core/subscriber.go does to it.
use envisilab.Base.{
  ◌≡◌, Bool, true, ◌&&◌, ◌||◌, not, none, is_some, nat_eq, list_eq, ◌==◌, eq_iff, if◌then◌else◌,
  arith, Text, Option-cases, inl, inr,
}
use envisilab.Base.Dict.{
  Dict, inner, dict_laws, get-set, get-delete, get-empty, inner-set, inner-delete, inner-some,
  inner-none, is_empty-get, get-not-is_empty,
}
use envisilab.Base.Dict
use envisilab.Redis.{PubSub}
use envisilab.Subscriber.{Conn, Subscriber, subscribe_no_lock, leave_channel}

module _ {ps : PubSub} where
  -- The channel stands in the connection's set.
  unfoldable pub recorded : Subscriber ps → Conn → Text → Bool
  recorded s conn c = is_some (Dict.get (inner s.connections conn) c)

  -- The connection stands in the channel's set, so that it is written to.
  unfoldable pub listening : Subscriber ps → Text → Conn → Bool
  listening s c conn = is_some (Dict.get (inner s.channels c) conn)

  -- The channel has an entry.
  unfoldable pub known : Subscriber ps → Text → Bool
  known s c = is_some (Dict.get s.channels c)

  -- Whatever Redis answers, the connection's own set has the channel afterwards.
  pub recorded-subscribe :
      (s : Subscriber ps) (conn j : Conn) (c d : Text)
      → recorded (subscribe_no_lock s conn c).0 j d ≡ ((conn == j && c == d) || recorded s j d)
  unfolding recorded subscribe_no_lock
  recorded-subscribe s conn j c d =
      let row = Dict.set (inner s.connections conn) c true in
      ground (
        arith,
        inner-set s.connections conn j row,
        get-set (inner s.connections conn) c d true,
        eq_iff conn j,
      )

  -- A step that fails leaves no new connection behind a channel.
  pub listening-subscribe :
      (s : Subscriber ps) (conn j : Conn) (c d : Text)
      → listening (subscribe_no_lock s conn c).0 d j ≡ (
          (not (is_some (subscribe_no_lock s conn c).1) && (conn == j && c == d))
          || listening s d j)
  unfolding listening subscribe_no_lock
  listening-subscribe s conn j c d = elim (Option-cases (Dict.get s.channels c)) [
    | inl new ↦
        let opened = Dict.set s.channels c Dict.empty in
        let row = Dict.set (inner opened c) conn true in
        ground (
          arith,
          new,
          inner-none s.channels c new,
          inner-set s.channels c c Dict.empty,
          inner-set s.channels c d Dict.empty,
          inner-set opened c d row,
          get-set (inner opened c) conn j true,
          get-empty {V = Bool} j,
          eq_iff c c,
          eq_iff c d,
        )
    | inr (conns, old) ↦ ground (
      arith,
      old,
      inner-set s.channels c d (Dict.set conns conn true),
      inner-some s.channels c conns old,
      get-set conns conn j true,
      eq_iff c d,
    )
  ]

  -- The channel has an entry afterwards, whatever Redis answers.
  pub known-subscribe :
      (s : Subscriber ps) (conn : Conn) (c d : Text)
      → known (subscribe_no_lock s conn c).0 d ≡ (c == d || known s d)
  unfolding known subscribe_no_lock
  known-subscribe s conn c d = elim (Option-cases (Dict.get s.channels c)) [
    | inl new ↦
        let opened = Dict.set s.channels c Dict.empty in
        ground (
          arith,
          new,
          get-set s.channels c d Dict.empty,
          get-set opened c d (Dict.set (inner opened c) conn true),
          eq_iff c d,
        )
    | inr (conns, old) ↦
        ground (arith, old, get-set s.channels c d (Dict.set conns conn true), eq_iff c d)
  ]

  pub connections-leave_channel :
      (s : Subscriber ps) (conn : Conn) (c : Text)
      → (leave_channel s conn c).0.connections ≡ s.connections
  unfolding leave_channel
  connections-leave_channel s conn c = ground arith

  -- Redis is asked to subscribe exactly where the channel has no entry yet.
  pub subconn-subscribe :
      (s : Subscriber ps) (conn : Conn) (c : Text)
      → let answer = ps.subscribe s.subconn c in
        ((subscribe_no_lock s conn c).0.subconn ≡ (if known s c then s.subconn else answer.1))
        × ((subscribe_no_lock s conn c).1 ≡ (if known s c then none else answer.0))
  unfolding subscribe_no_lock known
  subconn-subscribe s conn c = ground arith

  -- A channel that somebody listens on has an entry.
  pub known-listening :
      (s : Subscriber ps) (c : Text) (conn : Conn) → listening s c conn ≡ true → known s c ≡ true
  unfolding known listening
  known-listening s c conn h = elim (Option-cases (Dict.get s.channels c)) [
    | inl new ↦ ground (arith, new, inner-none s.channels c new, get-empty {V = Bool} conn)
    | inr (conns, old) ↦ rw (old, is_some)
  ]
