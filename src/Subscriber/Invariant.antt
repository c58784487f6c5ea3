-- ===== src/Subscriber/Invariant.antt =====
-- The bookkeeping of core/subscriber.go stays consistent.
use envisilab.Base.{
  ◌≡◌, true, false, none, nat_eq, list_eq, ◌==◌, eq_iff, arith, Text, Bool-cases, inl, inr,
}
use envisilab.Base.Dict.{Dict, inner, get-not-is_empty}
use envisilab.Base.Dict
use envisilab.Redis.{PubSub, IsPubSub}
use envisilab.Subscriber.{Conn, Subscriber, subscribe_no_lock, leave_channel}
use envisilab.Subscriber.View.{
  recorded, listening, known, listening-subscribe, known-subscribe, subconn-subscribe,
}
use envisilab.Subscriber.Leave.{
  left, get-left, listening-leave_channel, known-leave_channel, subconn-leave_channel,
}

-- Every channel with an entry has a connection, so no entry is left behind empty.
pub record IsPeopled {ps : PubSub} (s : Subscriber ps) : Type 0 where
  pub someone : (c : Text) → known s c ≡ true → (conn : Conn) × (listening s c conn ≡ true)

-- Redis is subscribed to exactly the channels that have an entry.
pub record IsBacked {ps : PubSub} (r : IsPubSub ps) (s : Subscriber ps) : Type 0 where
  pub same : (c : Text) → r.subscribed s.subconn c ≡ known s c

-- The two maps hold the same pairs.
pub record IsAgreed {ps : PubSub} (s : Subscriber ps) : Type 0 where
  pub same : (c : Text) (conn : Conn) → listening s c conn ≡ recorded s conn c

-- Whoever is written to is on record, so that leaving can find the channel.
pub record IsOnRecord {ps : PubSub} (s : Subscriber ps) : Type 0 where
  pub found : (c : Text) (conn : Conn) → listening s c conn ≡ true → recorded s conn c ≡ true

module _ {ps : PubSub} where
  pub leave_channel-IsPeopled :
      (s : Subscriber ps) (conn : Conn) (c : Text)
      → IsPeopled s
      → IsPeopled (leave_channel s conn c).0
  leave_channel-IsPeopled s conn c v = record {
    someone = λ d h. elim (Bool-cases (c == d)) [
      | inl here ↦
          let full : Dict.is_empty (inner (left s conn c) c) ≡ false =
            ground (arith, known-leave_channel s conn c d) in
          let (k, v', e) = get-not-is_empty (inner (left s conn c) c) full in
          (
            k,
            ground (
              arith,
              e,
              eq_iff c d,
              eq_iff c c,
              get-left s conn k c d,
              listening-leave_channel s conn k c d,
            ),
          )
      | inr other ↦
          let (k, l) = v.someone d (ground (arith, known-leave_channel s conn c d)) in
          (k, ground (arith, listening-leave_channel s conn k c d))
    ];
  }

  pub subscribe-IsPeopled :
      (s : Subscriber ps) (conn : Conn) (c : Text)
      → (subscribe_no_lock s conn c).1 ≡ none
      → IsPeopled s
      → IsPeopled (subscribe_no_lock s conn c).0
  subscribe-IsPeopled s conn c e v = record {
    someone = λ d h. elim (Bool-cases (c == d)) [
      | inl here ↦ (conn, ground (arith, listening-subscribe s conn conn c d, eq_iff conn conn))
      | inr other ↦
          let (k, l) = v.someone d (ground (arith, known-subscribe s conn c d)) in
          (k, ground (arith, listening-subscribe s conn k c d))
    ];
  }

  module _ (r : IsPubSub ps) where
    pub leave_channel-IsBacked :
        (s : Subscriber ps) (conn : Conn) (c : Text)
        → (leave_channel s conn c).1 ≡ none
        → IsBacked r s
        → IsBacked r (leave_channel s conn c).0
    leave_channel-IsBacked s conn c e v = record {
      same = λ d. ground (
        arith,
        v.same d,
        known-leave_channel s conn c d,
        subconn-leave_channel s conn c,
        r.unsubscribe_ok s.subconn (ps.unsubscribe s.subconn c).1 c d,
      );
    }

    pub subscribe-IsBacked :
        (s : Subscriber ps) (conn : Conn) (c : Text)
        → (subscribe_no_lock s conn c).1 ≡ none
        → IsBacked r s
        → IsBacked r (subscribe_no_lock s conn c).0
    subscribe-IsBacked s conn c e v = record {
      same = λ d. ground (
        arith,
        v.same d,
        known-subscribe s conn c d,
        subconn-subscribe s conn c,
        r.subscribe_ok s.subconn (ps.subscribe s.subconn c).1 c d,
        eq_iff c d,
      );
    }
