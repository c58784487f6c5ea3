-- ===== src/UrlClient.antt =====
-- urlclient/urlclient.go: a client of the service, which syncs, opens its data channel and then sends a
-- beacon at each tick. What it logs, and what it reads from the data channel, which it only logs, are
-- left out.
pub mod Beacons
use envisilab.Base.{
  ℕ, Option, none, some, is_some, if◌then◌else◌, List, [], ◌∷◌, ◌++◌, Bytes, Text, Error, text,
}
use envisilab.Base.Int.{ℤ}
use envisilab.Uuid.{Uuid}
use envisilab.Location.{Location, make_location}
use envisilab.Topology.{Group}

pub record SyncRequest : Type 0 where
  pub uuid : Text
  pub time : ℤ

pub record SyncResponse : Type 0 where
  pub token_id : Text
  pub groups : List Group

abbrev pub base_url : Text
base_url = text "http://localhost:9443/api/v1/entity"

abbrev pub base_ws : Text
base_ws = text "ws://localhost:9443/api/v1/entity"

pub record HttpRequest : Type 0 where
  pub method : Text
  pub url : Text
  pub header : List (Text × Text)
  pub body : Bytes

-- net/http: the error of `NewRequest`, and a client, which returns the body of a response; the dialer
-- of gorilla/websocket, and a close message on the connection that it made.
pub record Web : Type 1 where
  pub State : Type 0
  pub new_request : Text → Text → Error
  pub send : State → HttpRequest → (Bytes × Error) × State
  pub dial : State → Text → Error × State
  pub write_close : State → Error × State

-- encoding/json, as it is used.
pub record Json : Type 0 where
  pub marshal_sync : SyncRequest → Bytes × Error
  pub marshal_location : Location → Bytes × Error
  pub decode : Bytes → SyncResponse × Error

-- What the inner loop waits for: the end of the data channel, a tick with its time, or an interrupt.
pub data Event : Type 0 where
  closed interrupt : Event
  tick : ℤ → Event

-- How the program stands: it still waits; `main` has returned; or `log.Fatal` has ended it.
pub data End : Type 0 where
  waiting returned fatal : End

-- The location of the client. The numbers are the bits of -34.9287, 138.5999 and 86.45.
unfoldable pub location_at : ℤ → Location
location_at now = make_location 13853484631673791945 4639080567017315290 1118627430 0 now

abbrev pub headers : Text → List (Text × Text)
headers service =
    (text "Content-Type", text "application/json")
    ∷ (text "Content-Version", text "1")
    ∷ (text "User-Agent", text "urlclient-binary")
    ∷ (text "Services", service)
    ∷ []

abbrev pub beacon_url : Text → Text
beacon_url user_token = base_url ++ (text "/" ++ (user_token ++ text "/beacon"))

module _ (web : Web) (json : Json) (u : Uuid) (client_uuid service_uuid : Bytes) where
  abbrev pub post : Text → Bytes → HttpRequest
  post url body = record {
    method = text "POST";
    url = url;
    header = headers (u.string service_uuid);
    body = body;
  }

  -- The request of a tick, whether or not the location could be marshalled.
  abbrev pub beacon_request : Text → ℤ → HttpRequest
  beacon_request user_token now =
      post (beacon_url user_token) (json.marshal_location (location_at now)).0

  -- A round of the inner loop. The `break` on a beacon that could not be sent leaves the `select` and
  -- not the loop.
  unfoldable pub round : Text → Event → web.State → End × web.State
  unfolding location_at
  round user_token closed s = (returned, s)
  round user_token (tick now) s =
      if is_some (web.new_request (text "POST") (beacon_url user_token))
      then (fatal, s)
      else (let ((body, err), s') = web.send s (beacon_request user_token now) in (waiting, s'))
  round user_token interrupt s = let (err, s') = web.write_close s in (returned, s')

  unfoldable pub rounds : Text → List Event → web.State → End × web.State
  unfolding round
  rounds user_token [] s = (waiting, s)
  rounds user_token (e ∷ es) s =
      let (end, s') = round user_token e s in
      let rest = rounds user_token es s' in
      elim end [ waiting ↦ rest | returned ↦ (returned, s') | fatal ↦ (fatal, s') ]

  -- What follows a sync response: the data channel, and the inner loop, behind which nothing is
  -- reached.
  unfoldable pub follow_up : SyncResponse → List Event → web.State → End × web.State
  unfolding rounds
  follow_up sync_res events s =
      let (token_uuid, err) = u.parse sync_res.token_id in
      let user_token = u.string token_uuid in
      if is_some err
      then (fatal, s)
      else (let (dial_err, s') =
            web.dial s (base_ws ++ (text "/" ++ (user_token ++ text "/data"))) in
          if is_some dial_err then (fatal, s') else rounds user_token events s')

  abbrev pub sync_request : ℤ → HttpRequest
  sync_request now =
      post (base_url ++ text "/sync")
        (json.marshal_sync (record { uuid = u.string client_uuid; time = now })).0

  -- `main`, from a sync at the time `now`. An error of `Do` leaves the outer loop.
  unfoldable pub main : ℤ → List Event → web.State → End × web.State
  unfolding follow_up
  main now events s =
      let (post_data, lerr) =
        json.marshal_sync (record { uuid = u.string client_uuid; time = now }) in
      if is_some lerr
      then (fatal, s)
      else if is_some (web.new_request (text "POST") (base_url ++ text "/sync"))
      then (fatal, s)
      else (let ((body, err), s') = web.send s (sync_request now) in
          if is_some err
          then (returned, s')
          else (let (sync_res, sync_err) = json.decode body in
              if is_some sync_err then (fatal, s') else follow_up sync_res events s'))
