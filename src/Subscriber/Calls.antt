-- ===== src/Subscriber/Calls.antt =====
-- The calls that reach a subscriber, one after the other, and the abstract view that they implement:
-- which channels each connection wants.
use envisilab.Base.{
  ℕ, Bool, true, false, ◌&&◌, ◌||◌, not, is_some, List, [], ◌∷◌, map, nat_eq, list_eq, elem, ◌==◌,
  if◌then◌else◌, Text, Error,
}
use envisilab.Base.Decimal.{format_uint}
use envisilab.Redis.{PubSub}
use envisilab.Subscriber.{
  Conn, Subscriber, subscribe_to_cell, subscribe, unsubscribe, unsubscribe_no_lock,
}

pub data Call : Type 0 where
  to_cell : Conn → List ℕ → Call
  to_channel : Conn → Text → Bool → Call
  leave : Conn → Call

module _ {ps : PubSub} (order : List Text → List Text) where
  unfoldable pub step : Subscriber ps → Call → Subscriber ps × Error
  step s (to_cell conn cell_group) = subscribe_to_cell order s conn cell_group
  step s (to_channel conn channel unsub) = subscribe order s conn channel unsub
  step s (leave conn) = unsubscribe order s conn

  -- A call that fails leaves its state, and the next call is made.
  unfoldable pub run : Subscriber ps → List Call → Subscriber ps
  run s [] = s
  run s (call ∷ calls) = run (step s call).0 calls

  -- Redis refuses nothing during the call. `Subscribe` drops the error of its unsubscription, so
  -- that it can report success where this is false.
  unfoldable pub quiet : Subscriber ps → Call → Bool
  quiet s (to_cell conn cell_group) = not (is_some (subscribe_to_cell order s conn cell_group).1)
  quiet s (to_channel conn channel true) =
      not (is_some (unsubscribe_no_lock order s conn).1)
      && not (is_some (subscribe order s conn channel true).1)
  quiet s (to_channel conn channel false) = not (is_some (subscribe order s conn channel false).1)
  quiet s (leave conn) = not (is_some (unsubscribe order s conn).1)

  unfoldable pub all_quiet : Subscriber ps → List Call → Bool
  all_quiet s [] = true
  all_quiet s (call ∷ calls) = quiet s call && all_quiet (step s call).0 calls

-- The channels that each connection wants.
abbrev pub Wanted : Type 0
Wanted = Conn → Text → Bool

unfoldable pub want : Wanted → Call → Wanted
want w (to_cell conn cell_group) j d =
    if conn == j then elem d (map format_uint cell_group) else w j d
want w (to_channel conn channel unsub) j d =
    if conn == j then channel == d || (not unsub && w j d) else w j d
want w (leave conn) j d = if conn == j then false else w j d

unfoldable pub want_all : Wanted → List Call → Wanted
want_all w [] = w
want_all w (call ∷ calls) = want_all (want w call) calls
