-- ===== src/Tests/UrlClient.antt =====
-- urlclient/urlclient.go over a network that never delivers.
use envisilab.Base.{◌≡◌, refl, none, some, List, [], ◌∷◌, ◌++◌, text}
use envisilab.Base.Int.{ℤ, pos}
use envisilab.UrlClient.{Web, Json, HttpRequest, closed, tick, returned, rounds}
use envisilab.UrlClient.Beacons.{expected, rounds_beacons}
use envisilab.Tests.Instances.{plain}

-- The state is what was sent; each request fails.
abbrev web : Web
web = record {
  State = List HttpRequest;
  new_request = λ method url. none;
  send = λ s r. (([], some (text "timeout")), s ++ r ∷ []);
  dial = λ s url. (none, s);
  write_close = λ s. (none, s);
}

abbrev json : Json
json = record {
  marshal_sync = λ r. (r.uuid, none);
  marshal_location = λ l. (l.lat ∷ [], none);
  decode = λ body. (record { token_id = body; groups = [] }, none);
}

abbrev request : ℤ → HttpRequest
request t = expected web json (plain.string (2 ∷ [])) (text "token") t

rounds_beacons_example :
    rounds web json plain
      (1 ∷ [])
      (2 ∷ [])
      (text "token")
      (tick (pos 3) ∷ tick (pos 6) ∷ closed ∷ tick (pos 9) ∷ [])
      []
    ≡ (returned, request (pos 3) ∷ request (pos 6) ∷ [])
rounds_beacons_example =
    rounds_beacons web json plain (1 ∷ []) (2 ∷ []) (text "token") (pos 3 ∷ pos 6 ∷ [])
      (tick (pos 9) ∷ []) [] refl
