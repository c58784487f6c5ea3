-- ===== src/Subscription/Stop.antt =====
-- The command "stop" of core/subscriber.go.
use envisilab.Base.{◌≡◌, refl, List, [], ◌∷◌, ◌++◌, arith, text}
use envisilab.Subscription.{
  Input, cell_filter, user_filter, command, other, again, Subscription, round, start,
}

module _ {C : Type 0} where
  pub round-again : (self : Subscription C) (obj : Input C) → (round self obj).0 ≡ again
  unfolding round
  round-again self (cell_filter c) = refl
  round-again self (user_filter uf) = refl
  round-again self (command s) = refl
  round-again self other = refl

  -- `Start` never gets behind its loop, whatever arrives: it never unsubscribes its connection.
  start-again : (self : Subscription C) (objs : List (Input C)) → (start self objs).0 ≡ again
  unfolding start
  start-again self [] = refl
  start-again self (obj ∷ objs) =
      ground (arith, round-again self obj, start-again (round self obj).1 objs)

  -- The command "stop" stops nothing: `Start` never gets behind its loop, and what arrives after
  -- the command has the effect, and leads to the calls, that it has without it.
  pub start_ignores_stop :
      (self : Subscription C) (before after : List (Input C))
      → (start self (before ++ command (text "stop") ∷ after) ≡ start self (before ++ after))
        × ((start self (before ++ command (text "stop") ∷ after)).0 ≡ again)
  unfolding start round
  start_ignores_stop self before after =
      (skip self before, start-again self (before ++ command (text "stop") ∷ after))
    where
      skip :
          (self' : Subscription C) (objs : List (Input C))
          → start self' (objs ++ command (text "stop") ∷ after) ≡ start self' (objs ++ after)
      skip self' [] = refl
      skip self' (obj ∷ objs) = ground (arith, skip (round self' obj).1 objs)
