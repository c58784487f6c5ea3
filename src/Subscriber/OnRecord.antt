-- ===== src/Subscriber/OnRecord.antt =====
-- What holds of core/subscriber.go whether Redis accepts a call or not.
use envisilab.Base.{
  ℕ, ◌≡◌, true, false, List, [], ◌∷◌, nat_eq, list_eq, eq_iff, arith, Text, Option-cases, inl, inr,
}
use envisilab.Base.Decimal.{format_uint}
use envisilab.Base.Dict.{IsOrder}
use envisilab.Redis.{PubSub}
use envisilab.Subscriber.{
  Conn, Subscriber, subscribe_no_lock, unsubscribe_no_lock, subscribe_cells, subscribe_to_cell,
  subscribe, unsubscribe, make_subscriber,
}
use envisilab.Subscriber.View.{recorded, listening, recorded-subscribe, listening-subscribe}
use envisilab.Subscriber.Invariant.{IsOnRecord}
use envisilab.Subscriber.Effects.{
  recorded-unsubscribe, listening-unsubscribe, recorded-unsubscribe_err, listening-unsubscribe_le,
}
use envisilab.Subscriber.Calls.{Call, to_cell, to_channel, leave, step, run}
use envisilab.Subscriber.Synced.{listening-make}

module _ {ps : PubSub} where
  subscribe-IsOnRecord :
      (s : Subscriber ps) (conn : Conn) (c : Text)
      → IsOnRecord s
      → IsOnRecord (subscribe_no_lock s conn c).0
  subscribe-IsOnRecord s conn c v = record {
    found = λ d j h.
        ground
          (arith, v.found d j, recorded-subscribe s conn j c d, listening-subscribe s conn j c d);
  }

  subscribe_cells-IsOnRecord :
      (s : Subscriber ps) (conn : Conn) (ids : List ℕ)
      → IsOnRecord s
      → IsOnRecord (subscribe_cells s conn ids).0
  unfolding subscribe_cells
  subscribe_cells-IsOnRecord s conn [] v = v
  subscribe_cells-IsOnRecord s conn (id ∷ ids) v =
      let c = format_uint id in
      let w = subscribe-IsOnRecord s conn c v in
      elim (Option-cases (subscribe_no_lock s conn c).1) [
        | inl fine ↦
            rw (fine, subscribe_cells)
              (subscribe_cells-IsOnRecord (subscribe_no_lock s conn c).0 conn ids w)
        | inr (err, bad) ↦ rw (bad, subscribe_cells) w
      ]

  module _ (order : List Text → List Text) (o : IsOrder order) where
    unsubscribe-IsOnRecord :
        (s : Subscriber ps) (conn : Conn)
        → IsOnRecord s
        → IsOnRecord (unsubscribe_no_lock order s conn).0
    unsubscribe-IsOnRecord s conn v = record {
      found = λ d j h. ground (
        arith,
        v.found d j,
        recorded-unsubscribe order s conn j d,
        recorded-unsubscribe_err order s conn j d,
        listening-unsubscribe order o s conn j d,
        listening-unsubscribe_le order s conn j d,
        eq_iff conn j,
      );
    }

    step-IsOnRecord :
        (s : Subscriber ps) (call : Call) → IsOnRecord s → IsOnRecord (step order s call).0
    unfolding step subscribe_to_cell subscribe unsubscribe
    step-IsOnRecord s (to_cell conn ids) v =
        let w = unsubscribe-IsOnRecord s conn v in
        elim (Option-cases (unsubscribe_no_lock order s conn).1) [
          | inl fine ↦ rw (fine, subscribe_to_cell) (subscribe_cells-IsOnRecord _ conn ids w)
          | inr (err, bad) ↦ rw (bad, subscribe_to_cell) w
        ]
    step-IsOnRecord s (to_channel conn c true) v =
        subscribe-IsOnRecord _ conn c (unsubscribe-IsOnRecord s conn v)
    step-IsOnRecord s (to_channel conn c false) v = subscribe-IsOnRecord s conn c v
    step-IsOnRecord s (leave conn) v = unsubscribe-IsOnRecord s conn v

    run-IsOnRecord :
        (s : Subscriber ps) (calls : List Call) → IsOnRecord s → IsOnRecord (run order s calls)
    unfolding run
    run-IsOnRecord s [] v = v
    run-IsOnRecord s (call ∷ calls) v =
        run-IsOnRecord (step order s call).0 calls (step-IsOnRecord s call v)

-- Whatever is called, and whatever Redis answers: a connection that a channel writes to has the
-- channel on its own record, so that the next unsubscription can find it.
pub run-listening-recorded :
    (ps : PubSub) (order : List Text → List Text) (url : Text) (c : ps.State) (calls : List Call)
    (conn : Conn) (d : Text)
    → IsOrder order
    → let s = run order (make_subscriber {ps = ps} url c) calls in
      listening s d conn ≡ true → recorded s conn d ≡ true
run-listening-recorded ps order url c calls conn d o h =
    let fresh : IsOnRecord {ps = ps} (make_subscriber url c) = record {
      found = λ b j l. cc (l, listening-make ps url c j b);
    } in
    (run-IsOnRecord order o (make_subscriber url c) calls fresh).found d conn h
