-- ===== src/UrlClient/Beacons.antt =====
-- The beacons of urlclient/urlclient.go.
use envisilab.Base.{◌≡◌, refl, none, List, [], ◌∷◌, ◌++◌, map, arith, Bytes, Text, text}
use envisilab.Base.Int.{ℤ}
use envisilab.Uuid.{Uuid}
use envisilab.UrlClient.{
  Web, Json, HttpRequest, Event, closed, tick, returned, beacon_request, rounds, location_at,
}
use envisilab.Location.{Location, make_location}

module _ (web : Web) where
  -- The requests sent one after the other, whatever comes back.
  abbrev pub send_all : List HttpRequest → web.State → web.State
  send_all [] s = s
  send_all (r ∷ rs) s = send_all rs (web.send s r).1

  -- The beacon of a client at a time: a POST of JSON to the address of the token, with the location of
  -- the client. The numbers are the bits of -34.9287, 138.5999 and 86.45.
  unfoldable pub expected : Json → Text → Text → ℤ → HttpRequest
  expected json service user_token now =
      let place : Location = record {
        lat = 13853484631673791945;
        lng = 4639080567017315290;
        alt = 1118627430;
        heading = 0;
        timestamp = now;
      } in
      record {
        method = text "POST";
        url = text "http://localhost:9443/api/v1/entity/" ++ (user_token ++ text "/beacon");
        header =
            (text "Content-Type", text "application/json")
            ∷ (text "Content-Version", text "1")
            ∷ (text "User-Agent", text "urlclient-binary")
            ∷ (text "Services", service)
            ∷ [];
        body = (json.marshal_location place).0;
      }

  module _ (json : Json) (u : Uuid) (client_uuid service_uuid : Bytes) where
    beacon-expected :
        (user_token : Text) (now : ℤ)
        → beacon_request web json u client_uuid service_uuid user_token now
          ≡ expected json (u.string service_uuid) user_token now
    unfolding expected location_at make_location text
    beacon-expected user_token now = refl

    -- Where a request can be made for the token's URL: until the data channel is closed, the client
    -- sends one beacon for each tick, in their order: a POST to the URL of its token, with the headers
    -- of JSON and of its service, and for body its location with the time of the tick; also after
    -- beacons that could not be sent. Then it returns, and sends nothing more.
    pub rounds_beacons :
        (user_token : Text) (times : List ℤ) (after : List Event) (s : web.State)
        → web.new_request
            (text "POST")
            (text "http://localhost:9443/api/v1/entity/" ++ (user_token ++ text "/beacon"))
          ≡ none
        → rounds web json u client_uuid service_uuid user_token
            (map (λ t. tick t) times ++ closed ∷ after)
            s
          ≡ (
            returned,
            send_all (map (λ t. expected json (u.string service_uuid) user_token t) times) s,
          )
    unfolding rounds text
    rounds_beacons user_token [] after s ok = refl
    rounds_beacons user_token (t ∷ times) after s ok =
        let next = (web.send s (expected json (u.string service_uuid) user_token t)).1 in
        ground
          (arith, ok, beacon-expected user_token t, rounds_beacons user_token times after next ok)
