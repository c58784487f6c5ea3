-- ===== src/Subscriber/Faults.antt =====
-- What a refusal by Redis leaves behind in core/subscriber.go.
use envisilab.Base.{◌≡◌, true, false, none, some, List, nat_eq, list_eq, eq_self, arith, Text}
use envisilab.Redis.{PubSub}
use envisilab.Subscriber.{Conn, Subscriber, subscribe_no_lock, unsubscribe_no_lock, subscribe}
use envisilab.Subscriber.View.{
  recorded, listening, known, recorded-subscribe, listening-subscribe, known-subscribe,
  subconn-subscribe,
}
use envisilab.Subscriber.Effects.{recorded-unsubscribe_err}

module _ (ps : PubSub) (order : List Text → List Text) where
  -- A refused subscription leaves the channel's entry behind. From then on the next connection that
  -- subscribes is told that it succeeded and is put on the channel, but Redis is not asked again:
  -- the connection to Redis is the one that the refusal left.
  pub subscribe_after_refusal :
      (s : Subscriber ps) (first second : Conn) (c : Text) (e : Text) (left : ps.State)
      → known s c ≡ false
      → ps.subscribe s.subconn c ≡ (some e, left)
      → let (s1, err1) = subscribe order s first c false in
        let (s2, err2) = subscribe order s1 second c false in
        (err1 ≡ some e) × (err2 ≡ none) × (listening s2 c second ≡ true) × (s2.subconn ≡ left)
  unfolding subscribe
  subscribe_after_refusal s first second c e left new refused =
      let s1 : Subscriber ps = (subscribe_no_lock s first c).0 in
      let asked = subconn-subscribe s first c in
      let there = known-subscribe s first c c in
      let again = subconn-subscribe s1 second c in
      let written = listening-subscribe s1 second second c c in
      (
        ground (arith, asked),
        ground (arith, again, there, eq_self c),
        ground (arith, again, there, written, eq_self c, eq_self second),
        ground (arith, asked, again, there, eq_self c),
      )

  -- `Subscribe` drops the error of the unsubscription that it begins with: where Redis refuses that,
  -- for a channel that has
  -- an entry, success is reported and the connection keeps every channel it had on its record.
  pub subscribe_keeps_old :
      (s : Subscriber ps) (conn : Conn) (c d : Text) (e : Text)
      → (unsubscribe_no_lock order s conn).1 ≡ some e
      → known (unsubscribe_no_lock order s conn).0 c ≡ true
      → recorded s conn d ≡ true
      → let (s', err) = subscribe order s conn c true in
        (err ≡ none) × (recorded s' conn d ≡ true) × (recorded s' conn c ≡ true)
  unfolding subscribe
  subscribe_keeps_old s conn c d e refused there old =
      let s1 : Subscriber ps = (unsubscribe_no_lock order s conn).0 in
      let kept = recorded-unsubscribe_err order s conn conn d in
      (
        ground (arith, subconn-subscribe s1 conn c),
        ground (arith, kept, recorded-subscribe s1 conn conn c d),
        ground (arith, recorded-subscribe s1 conn conn c c, eq_self c, eq_self conn),
      )
