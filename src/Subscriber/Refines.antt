-- ===== src/Subscriber/Refines.antt =====
-- core/subscriber.go keeps what its callers asked for.
use envisilab.Base.{
  ◌≡◌, refl, sym, ap, ◌∙◌, fun_ext, true, false, List, [], ◌∷◌, nat_eq, list_eq, eq_iff, arith,
  Text,
}
use envisilab.Base.Dict.{IsOrder}
use envisilab.Redis.{PubSub}
use envisilab.Subscriber.{
  Conn, Subscriber, unsubscribe_no_lock, subscribe_to_cell, subscribe, unsubscribe,
}
use envisilab.Subscriber.View.{recorded, listening, recorded-subscribe, listening-subscribe}
use envisilab.Subscriber.Invariant.{IsAgreed}
use envisilab.Subscriber.Effects.{
  recorded-unsubscribe, listening-unsubscribe, recorded-subscribe_cells, listening-subscribe_cells,
}
use envisilab.Subscriber.Calls.{
  Call, to_cell, to_channel, leave, step, run, quiet, all_quiet, Wanted, want, want_all,
}

module _ {ps : PubSub} (order : List Text → List Text) (o : IsOrder order) where
  pub recorded-step :
      (s : Subscriber ps) (call : Call) (j : Conn) (d : Text)
      → quiet order s call ≡ true
      → recorded (step order s call).0 j d ≡ want (recorded s) call j d
  unfolding step quiet want subscribe_to_cell subscribe unsubscribe
  recorded-step s (to_cell conn ids) j d e = ground (
    arith,
    recorded-unsubscribe order s conn j d,
    recorded-subscribe_cells (unsubscribe_no_lock order s conn).0 conn j d ids,
  )
  recorded-step s (to_channel conn c true) j d e = ground (
    arith,
    recorded-unsubscribe order s conn j d,
    recorded-subscribe (unsubscribe_no_lock order s conn).0 conn j c d,
  )
  recorded-step s (to_channel conn c false) j d e = ground (arith, recorded-subscribe s conn j c d)
  recorded-step s (leave conn) j d e = ground (arith, recorded-unsubscribe order s conn j d)

  listening-step :
      (s : Subscriber ps) (call : Call) (j : Conn) (d : Text)
      → IsAgreed s
      → quiet order s call ≡ true
      → listening (step order s call).0 d j ≡ want (recorded s) call j d
  unfolding step quiet want subscribe_to_cell subscribe unsubscribe
  listening-step s (to_cell conn ids) j d v e = ground (
    arith,
    v.same d j,
    listening-unsubscribe order o s conn j d,
    listening-subscribe_cells (unsubscribe_no_lock order s conn).0 conn j d ids,
    eq_iff conn j,
  )
  listening-step s (to_channel conn c true) j d v e = ground (
    arith,
    v.same d j,
    listening-unsubscribe order o s conn j d,
    listening-subscribe (unsubscribe_no_lock order s conn).0 conn j c d,
    eq_iff conn j,
  )
  listening-step s (to_channel conn c false) j d v e =
      ground (arith, v.same d j, listening-subscribe s conn j c d)
  listening-step s (leave conn) j d v e =
      ground (arith, v.same d j, listening-unsubscribe order o s conn j d, eq_iff conn j)

  step-IsAgreed :
      (s : Subscriber ps) (call : Call)
      → IsAgreed s
      → quiet order s call ≡ true
      → IsAgreed (step order s call).0
  step-IsAgreed s call v e = record {
    same = λ c conn. listening-step s call conn c v e ∙ sym (recorded-step s call conn c e);
  }

  pub run-want :
      (s : Subscriber ps) (calls : List Call)
      → IsAgreed s
      → all_quiet order s calls ≡ true
      → IsAgreed (run order s calls) × (recorded (run order s calls) ≡ want_all (recorded s) calls)
  unfolding run all_quiet want_all
  run-want s [] v e = (v, refl)
  run-want s (call ∷ calls) v e =
      let q : quiet order s call ≡ true = ground arith in
      let (agreed, wanted) =
        run-want (step order s call).0 calls (step-IsAgreed s call v q) (ground arith) in
      let now : recorded (step order s call).0 ≡ want (recorded s) call =
        fun_ext λ j. fun_ext λ d. recorded-step s call j d q in
      (agreed, wanted ∙ ap (λ (w : Wanted). want_all w calls) now)
