-- ===== src/Client/Trace.antt =====
-- What client/client.go writes to its connections.
use envisilab.Base.{
  ℕ, zero, suc, ◌≡◌, ◌≤◌, ◌⊎◌, Bool, Option, nat_eq, list_eq, List, [], ◌∷◌, ◌++◌, length, Bytes,
  Text,
}
use envisilab.Base.Int.{ℤ}
use envisilab.Net.{NetConn}
use envisilab.Location.{Location}
use envisilab.Client.{Client, dialled, hung_up, Flow, again, client_round}
use envisilab.Client.Round.{IsLogged, IsAnswer, sync_bytes, data_bytes}

-- A location at another time.
abbrev pub at_time : Location → ℤ → Location
at_time loc now = record loc { timestamp = now }

-- So many requests for a token; and requests with a location at the times given, under a token.
abbrev pub syncs : Bytes → Bytes → Location → ℕ → Bytes
syncs client_uuid service_uuid loc zero = []
syncs client_uuid service_uuid loc (suc n) =
    sync_bytes client_uuid service_uuid loc ++ syncs client_uuid service_uuid loc n

abbrev pub datas : Bytes → Location → List ℤ → Bytes
datas token loc [] = []
datas token loc (now ∷ times) = data_bytes token (at_time loc now) ++ datas token loc times

module _ (client_uuid service_uuid : Bytes) (marshal : Option Bytes → Option Text) (profiled : Bool)
    (c : NetConn) where
  abbrev pub round : ℤ → Client → c.State → Flow × Client × c.State
  round now client s = client_round client_uuid service_uuid marshal profiled c now client s

  -- The rounds of the inner loop at the times given, as long as it goes on.
  unfoldable pub rounds : List ℤ → Client → c.State → Client × c.State
  rounds [] client s = (client, s)
  rounds (now ∷ times) client s =
      let (flow, client', s') = round now client s in
      let rest = rounds times client' s' in elim flow [ again ↦ rest | _ ↦ (client', s') ]

  -- A connection as it was dialled, the times of its rounds, and the connection behind them.
  pub record Session : Type 0 where
    pub start : c.State
    pub times : List ℤ
    pub end : c.State

  -- The connections one after the other; there are none where dialling failed.
  unfoldable pub sessions : List (List ℤ × c.State) → Client → List Session
  unfolding rounds
  sessions [] client = []
  sessions ((times, s) ∷ conns) client =
      let (last, end) = rounds times (dialled client) s in
      record { start = s; times = times; end = end } ∷ sessions conns (hung_up last)

  module _ (l : IsLogged c) where
    -- What rounds without a token, and then with one, write.
    pub record IsWritten (loc : Location) (times : List ℤ) (start end : c.State) : Type 0 where
      pub waiting : List ℤ
      pub sending : List ℤ
      pub unused : List ℤ
      pub token : Bytes
      pub rounds_of : times ≡ waiting ++ (sending ++ unused)
      pub written :
          l.log end
          ≡ l.log start
            ++ (syncs client_uuid service_uuid loc (length waiting) ++ datas token loc sending)
      pub begun : (times ≡ []) ⊎ (1 ≤ length waiting)
      pub answered : (sending ≡ []) ⊎ IsAnswer c client_uuid token

    -- A session at the location, at some time.
    abbrev pub IsSyncFirst : Location → Session → Type 0
    IsSyncFirst loc session =
        (t : ℤ) × IsWritten (at_time loc t) session.times session.start session.end
