-- ===== src/Context/Interface.antt =====
-- core/context.go, the interface `Context`, as its methods over a state. `GetTopology` is left out: no
-- method of the program calls it. The result `none` is a panic.
use envisilab.Base.{ℕ, ◌≡◌, ◌<◌, Option, none, some, Bytes, Text, Error}
use envisilab.Base.Int.{ℤ}
use envisilab.Heap.{Heap}
use envisilab.Heap.Kept.{Keeps}
use envisilab.Cell.{Cell}
use envisilab.Subscriber.{Conn}
use envisilab.Context.{Activity}

-- An entity is an address. `create_token` takes what `uuid.NewRandom` returns, and the methods that
-- may read the clock take its time.
pub record ContextOps : Type 1 where
  pub State : Type 0
  pub create_token : State → Bytes × Error → Bytes → Bytes × Error × State
  pub create_entity : State → Heap → Bytes → ℕ → Option ((Option ℕ × Error) × (State × Heap))
  pub get_client_id : State → Bytes → Bytes × Error × State
  pub subscribe_to_cell : State → Heap → Conn → Cell → Error × State × Heap
  pub subscribe_to_group : State → Conn → Text → Error × State
  pub unsubscribe_from_groups : State → Conn → Error × State
  pub unsubscribe : State → Conn → Error × State
  pub standby : State → Heap → ℤ → ℕ → Bytes → Option (Error × State × Heap)
  pub broadcast : State → Heap → ℤ → ℕ → Bytes → Option (Error × State × Heap)
  pub get_data : State → Bytes → Option ((Activity × Error) × State)

-- What the endpoint relies on: a token is the one that was drawn, and an entity carries its token.
pub record IsContext (c : ContextOps) : Type 0 where
  pub token-create_token :
      (s s' : c.State) (drawn token client : Bytes) (failed : Error)
      → c.create_token s (drawn, failed) client ≡ (token, none, s')
      → token ≡ drawn
  pub token-create_entity :
      (s s' : c.State) (h h' : Heap) (token : Bytes) (user_agent a : ℕ)
      → c.create_entity s h token user_agent ≡ some ((some a, none), (s', h'))
      → (h'.objects.entity a).token_id ≡ token

-- No method panics on an entity that is there; an entity that is made is there and carries its token,
-- where no error is returned; and the entities that were there keep their tokens.
pub record IsSound (c : ContextOps) : Type 0 where
  pub create_entity_ok :
      (s : c.State) (h : Heap) (token : Bytes) (user_agent : ℕ)
      → (e : Option ℕ) × (err : Error) × (s' : c.State) × (h' : Heap) × (c.create_entity s h token
            user_agent
          ≡ some ((e, err), (s', h')))
        × Keeps h h'
        × (err ≡ none
            → (a : ℕ) × (e ≡ some a)
              × (a < h'.objects.next)
              × ((h'.objects.entity a).token_id ≡ token))
  pub standby_ok :
      (s : c.State) (h : Heap) (now : ℤ) (a : ℕ) (message : Bytes)
      → (err : Error) × (s' : c.State) × (h' : Heap) × (c.standby s h now a message
          ≡ some (err, s', h'))
        × Keeps h h'
  pub broadcast_ok :
      (s : c.State) (h : Heap) (now : ℤ) (a : ℕ) (message : Bytes)
      → (err : Error) × (s' : c.State) × (h' : Heap) × (c.broadcast s h now a message
          ≡ some (err, s', h'))
        × Keeps h h'
  pub get_data_ok :
      (s : c.State) (token : Bytes)
      → (r : Activity × Error) × (s' : c.State) × (c.get_data s token ≡ some (r, s'))
