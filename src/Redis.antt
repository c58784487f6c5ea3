-- ===== src/Redis.antt =====
-- github.com/gomodule/redigo/redis, which is not part of the repository, and the Redis server behind
-- it: the calls that core/subscriber.go and core/publisher.go make, and what they rely on.
use envisilab.Base.{
  List, [], ◌∷◌, ◌++◌, ℕ, ◌≡◌, ◌≢◌, ◌⊎◌, Bool, true, false, none, some, Option, ◌==◌, list_eq,
  nat_eq, if◌then◌else◌, Text, Bytes, Error,
}

-- `redis.DialURL`, and a `redis.PubSubConn`: the connection that a subscriber receives over.
pub record PubSub : Type 1 where
  pub State : Type 0
  pub dial : Text → Error × State
  pub subscribe : State → Text → Error × State
  pub unsubscribe : State → Text → Error × State

-- A call that returns no error changes the set of channels that the connection is subscribed to, by
-- its channel. Of a call that fails nothing is known.
pub record IsPubSub (ps : PubSub) : Type 0 where
  pub subscribed : ps.State → Text → Bool
  pub subscribe_ok :
      (s s' : ps.State) (c d : Text)
      → ps.subscribe s c ≡ (none, s')
      → subscribed s' d ≡ (if c == d then true else subscribed s d)
  pub unsubscribe_ok :
      (s s' : ps.State) (c d : Text)
      → ps.unsubscribe s c ≡ (none, s')
      → subscribed s' d ≡ (if c == d then false else subscribed s d)

-- A command on a connection of a `redis.Pool`, and what `Do` returns for it. Taking the connection
-- from the pool and closing it are part of the call.
pub data Command : Type 0 where
  ping : Command
  setex : Text → ℕ → Text → Command
  get : Text → Command
  publish : Text → Bytes → Command

pub data Reply : Type 0 where
  nil : Reply
  bulk : Bytes → Reply
  other : Reply

pub record Pool : Type 1 where
  pub State : Type 0
  pub exec : State → Command → Reply × Error × State

-- The key that a command sets.
abbrev pub key_set : Command → Option Text
key_set (setex key seconds value) = some key
key_set _ = none

-- The server at the moment of a call: the values of the keys that have not expired, and the
-- messages published so far. A call that fails has no reply, and of its effect nothing is known, but
-- that the value of a key changes only where it is set, or expires.
pub record IsPool (p : Pool) : Type 0 where
  pub stored : p.State → Text → Option Text
  pub published : p.State → List (Text × Bytes)
  pub setex_ok :
      (s s' : p.State) (r : Reply) (key value : Text) (seconds : ℕ)
      → p.exec s (setex key seconds value) ≡ (r, none, s')
      → stored s' key ≡ some value
  pub kept :
      (s s' : p.State) (c : Command) (r : Reply) (e : Error) (key : Text)
      → p.exec s c ≡ (r, e, s')
      → key_set c ≢ some key
      → (stored s' key ≡ stored s key) ⊎ (stored s' key ≡ none)
  pub get_ok :
      (s s' : p.State) (r : Reply) (key : Text)
      → p.exec s (get key) ≡ (r, none, s')
      → r ≡ (elim (stored s key) [ none ↦ nil | some value ↦ bulk value ])
  pub publish_ok :
      (s s' : p.State) (r : Reply) (channel : Text) (message : Bytes)
      → p.exec s (publish channel message) ≡ (r, none, s')
      → published s' ≡ published s ++ (channel, message) ∷ []
  pub failed :
      (s s' : p.State) (c : Command) (r : Reply) (e : Text) → p.exec s c ≡ (r, some e, s') → r ≡ nil

-- The messages on channels that are tested to be true.
unfoldable pub select : (Text → Bool) → List (Text × Bytes) → List (Text × Bytes)
select chosen [] = []
select chosen ((channel, message) ∷ ms) =
    if chosen channel then (channel, message) ∷ select chosen ms else select chosen ms

-- A connection is sent each message that is published while it is subscribed to its channel, once, in
-- the order of publishing, and no other. `arrivals s s' c` is what a connection at `c` is sent as the
-- server goes from `s` to `s'`.
pub record IsBroker {p : Pool} {ps : PubSub} (i : IsPool p) (r : IsPubSub ps) : Type 0 where
  pub arrivals : p.State → p.State → ps.State → List (Text × Bytes)
  pub arrive :
      (s s' : p.State) (c : ps.State) (ms : List (Text × Bytes))
      → i.published s' ≡ i.published s ++ ms
      → arrivals s s' c ≡ select (r.subscribed c) ms
