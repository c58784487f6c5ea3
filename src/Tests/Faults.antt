-- ===== src/Tests/Faults.antt =====
-- core/subscriber.go over a Redis server that refuses some calls.
use envisilab.Base.{◌≡◌, refl, true, false, none, some, [], ◌∷◌, list_eq, nat_eq, Text}
use envisilab.Base.Dict.{
  inner, empty, is_empty, get, set, delete, keys, find, without, names, drop_key,
}
use envisilab.Subscriber.{
  Subscriber, make_subscriber, subscribe, subscribe_no_lock, unsubscribe_no_lock, leave_channels,
  leave_channel,
}
use envisilab.Subscriber.View.{recorded, listening, known}
use envisilab.Subscriber.Synced.{known-make}
use envisilab.Subscriber.Faults.{subscribe_after_refusal, subscribe_keeps_old}
use envisilab.Tests.Instances.{strict, nothing, refused, kept, in_order}

abbrev fresh : Subscriber strict
fresh = make_subscriber [] nothing

make_subconn : fresh.subconn ≡ nothing
unfolding make_subscriber
make_subconn = refl

refuses : strict.subscribe fresh.subconn refused ≡ (some refused, nothing)
refuses = rw make_subconn

subscribe_after_refusal_example :
    (let (s1, err1) = subscribe in_order fresh 1 refused false in
      let (s2, err2) = subscribe in_order s1 2 refused false in
      (err1 ≡ some refused)
      × (err2 ≡ none)
      × (listening s2 refused 2 ≡ true)
      × (s2.subconn ≡ nothing))
subscribe_after_refusal_example =
    subscribe_after_refusal strict in_order fresh 1 2 refused refused nothing
      (known-make strict [] nothing refused) refuses

abbrev wanted : Text
wanted = 119 ∷ []

-- Connection 1 on the channel that Redis does not let go, and connection 2 on another.
abbrev both : Subscriber strict
both = (subscribe in_order (subscribe in_order fresh 1 kept false).0 2 wanted false).0

stays : (unsubscribe_no_lock in_order both 1).1 ≡ some kept
unfolding make_subscriber subscribe subscribe_no_lock unsubscribe_no_lock leave_channels
    leave_channel inner empty is_empty get set delete keys find without names drop_key
stays = refl

has_entry : known (unsubscribe_no_lock in_order both 1).0 wanted ≡ true
unfolding make_subscriber subscribe subscribe_no_lock unsubscribe_no_lock leave_channels
    leave_channel inner empty is_empty get set delete keys find without names drop_key known
has_entry = refl

on_record : recorded both 1 kept ≡ true
unfolding make_subscriber subscribe subscribe_no_lock inner empty get set find without recorded
on_record = refl

subscribe_keeps_old_example :
    (let (s', err) = subscribe in_order both 1 wanted true in
      (err ≡ none) × (recorded s' 1 kept ≡ true) × (recorded s' 1 wanted ≡ true))
subscribe_keeps_old_example =
    subscribe_keeps_old strict in_order both 1 wanted kept kept stays has_entry on_record
