-- ===== src/Tests/Subscription.antt =====
-- The goroutine of core/subscriber.go on some input. A cell is a number.
use envisilab.Base.{ℕ, ◌≡◌, none, List, [], ◌∷◌, ◌++◌, text}
use envisilab.Subscription.{
  Input, cell_filter, user_filter, command, group, again, make_subscription, start,
}
use envisilab.Subscription.Stop.{start_ignores_stop}
use envisilab.Subscription.Target.{IsOnTarget, last, start-IsOnTarget}

abbrev before : List (Input ℕ)
before = cell_filter 4 ∷ []

abbrev after : List (Input ℕ)
after = user_filter (record { kind = group; value = text "team" }) ∷ cell_filter 5 ∷ []

start_ignores_stop_example :
    (start make_subscription (before ++ command (text "stop") ∷ after)
      ≡ start make_subscription (before ++ after))
    × ((start make_subscription (before ++ command (text "stop") ∷ after)).0 ≡ again)
start_ignores_stop_example = start_ignores_stop make_subscription before after

start-IsOnTarget_example :
    IsOnTarget
      (start make_subscription (before ++ after)).1
      (last none (start make_subscription (before ++ after)).2)
start-IsOnTarget_example = start-IsOnTarget (before ++ after)
