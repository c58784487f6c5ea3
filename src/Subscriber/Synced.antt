-- ===== src/Subscriber/Synced.antt =====
-- What core/subscriber.go guarantees from a fresh subscriber on, whatever is called.
use envisilab.Base.{
  ◌≡◌, ◌↔◌, sym, ap, ◌∙◌, fun_ext, Bool, true, false, List, nat_eq, list_eq, arith, Text,
}
use envisilab.Base.Dict.{Dict, IsOrder, inner-none, get-empty}
use envisilab.Base.Dict
use envisilab.Redis.{PubSub, IsPubSub}
use envisilab.Subscriber.{Conn, Subscriber, make_subscriber}
use envisilab.Subscriber.View.{recorded, listening, known, known-listening}
use envisilab.Subscriber.Invariant.{
  IsAgreed, IsPeopled, IsBacked, leave_channel-IsPeopled, subscribe-IsPeopled,
  leave_channel-IsBacked, subscribe-IsBacked,
}
use envisilab.Subscriber.Runs.{IsStable, run-kept}
use envisilab.Subscriber.Refines.{run-want}
use envisilab.Subscriber.Calls.{Call, run, all_quiet, Wanted, want_all}

module _ (ps : PubSub) (url : Text) (c : ps.State) where
  pub recorded-make :
      (conn : Conn) (d : Text) → recorded (make_subscriber {ps = ps} url c) conn d ≡ false
  unfolding make_subscriber recorded
  recorded-make conn d = ground (
    arith,
    inner-none (Dict.empty {K = Conn} {V = Dict Text Bool}) conn (get-empty conn),
    get-empty {V = Bool} d,
  )

  pub listening-make :
      (conn : Conn) (d : Text) → listening (make_subscriber {ps = ps} url c) d conn ≡ false
  unfolding make_subscriber listening
  listening-make conn d = ground (
    arith,
    inner-none (Dict.empty {K = Text} {V = Dict Conn Bool}) d (get-empty d),
    get-empty {V = Bool} conn,
  )

  pub known-make : (d : Text) → known (make_subscriber {ps = ps} url c) d ≡ false
  unfolding make_subscriber known
  known-make d = ground (arith, get-empty {V = Dict Conn Bool} d)

  make-IsAgreed : IsAgreed (make_subscriber {ps = ps} url c)
  make-IsAgreed = record { same = λ d conn. listening-make conn d ∙ sym (recorded-make conn d) }

  -- After any calls that Redis accepts, each connection is on record for, and is written to on,
  -- exactly the channels that the calls ask for: the last cell group, or the channels since.
  pub run-refines :
      (order : List Text → List Text) (calls : List Call) (conn : Conn) (d : Text)
      → IsOrder order
      → all_quiet order (make_subscriber {ps = ps} url c) calls ≡ true
      → let s = run order (make_subscriber {ps = ps} url c) calls in
        (recorded s conn d ≡ want_all (λ j b. false) calls conn d)
        × (listening s d conn ≡ want_all (λ j b. false) calls conn d)
  run-refines order calls conn d o e =
      let (agreed, wanted) = run-want order o (make_subscriber url c) calls make-IsAgreed e in
      let none_yet : recorded (make_subscriber {ps = ps} url c) ≡ (λ j b. false) =
        fun_ext λ j. fun_ext λ b. recorded-make j b in
      let there =
        ap (λ (w : Wanted). w conn d) (wanted ∙ ap (λ (w : Wanted). want_all w calls) none_yet) in
      (there, agreed.same d conn ∙ there)

  IsPeopled-IsStable : IsStable (IsPeopled {ps = ps})
  unfolding known listening
  IsPeopled-IsStable = record {
    leaving = λ s conn b e v. leave_channel-IsPeopled s conn b v;
    joining = subscribe-IsPeopled;
    forgetting = λ s m v. record { someone = v.someone };
  }

  IsBacked-IsStable : (r : IsPubSub ps) → IsStable (IsBacked r)
  unfolding known
  IsBacked-IsStable r = record {
    leaving = leave_channel-IsBacked r;
    joining = subscribe-IsBacked r;
    forgetting = λ s m v. record { same = v.same };
  }

  -- After any calls that Redis accepts, it has a subscription to a channel exactly when some connection
  -- asked for it, where the Redis connection starts with no subscription.
  pub run-IsBacked :
      (r : IsPubSub ps) (order : List Text → List Text) (calls : List Call) (d : Text)
      → IsOrder order
      → ((b : Text) → r.subscribed c b ≡ false)
      → all_quiet order (make_subscriber {ps = ps} url c) calls ≡ true
      → (r.subscribed (run order (make_subscriber {ps = ps} url c) calls).subconn d ≡ true)
        ↔ ((conn : Conn) × (want_all (λ j b. false) calls conn d ≡ true))
  unfolding make_subscriber
  run-IsBacked r order calls d o clean e =
      let start : Subscriber ps = make_subscriber url c in
      let backed =
        run-kept (IsBacked-IsStable r) order start calls e
          (record { same = λ b. ground (arith, clean b, known-make b) }) in
      let peopled =
        run-kept IsPeopled-IsStable order start calls e
          (record { someone = λ b h. absurd (ground (arith, known-make b)) }) in
      let wanted = λ (conn : Conn). (run-refines order calls conn d o e).1 in
      (
        λ h.
            let (conn, l) = peopled.someone d (sym (backed.same d) ∙ h) in
            (conn, sym (wanted conn) ∙ l),
        λ (conn, w). backed.same d ∙ known-listening _ d conn (wanted conn ∙ w),
      )
