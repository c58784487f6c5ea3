-- ===== src/Server/Overlap/Answered.antt =====
-- The tokens that overlapping syncs on a service of core/http.go have given out.
use envisilab.Base.{
  ℕ, ◌<◌, ◌≡◌, ◌≢◌, ◌⊎◌, sym, ap, ◌∙◌, Bool-cases, true, Option, none, some, is_some, inl, inr,
  Option-cases, List, [], ◌∷◌, ◌==◌, nat_eq, list_eq, eq_self, arith, Bytes, Text,
}
use envisilab.Base.Dict.{get-set}
use envisilab.Base.Dict
use envisilab.Topology.{Group}
use envisilab.Heap.{Heap}
use envisilab.Context.Interface.{ContextOps, IsSound}
use envisilab.Endpoint.{get_entity}
use envisilab.Endpoint.Http.{Response, sync_response}
use envisilab.Endpoint.UserData.{Act, handle_user_data}
use envisilab.Cell.{Cell}
use envisilab.Endpoint.Data.{data_handler}
use envisilab.Endpoint.Download.{download_handler, send_activity}
use envisilab.Server.{
  Outside, Handler, sync, standby, beacon, data_channel, download, Arrival, Server, handle,
}
use envisilab.Server.Overlap.{
  Stage, arrived, tokened, made, found, moved, finished, refused, start, draw_token, make_entity,
  enter, find, take, act, acting, acting_failed, move,
}
use envisilab.Server.Overlap.Invariant.{IsHeld}
use envisilab.Server.Overlap.Reachable.{
  System, Step, turn, Reach, fresh, later, IsSafe, turn_taken, Reach-IsSafe,
}

module _ (o : Outside) where
  -- What a request has been answered so far.
  abbrev pub responses : Stage o → List Response
  responses (finished answered) = answered.responses
  responses _ = []

  -- A response that is not a token.
  abbrev IsOther : List Response → Type 0
  IsOther rs = (token : Text) (groups : List Group) → rs ≢ sync_response token groups ∷ []

module _ (o : Outside) {c : ContextOps} where
  abbrev gives : Option (Stage o × Server c) → List Response
  gives none = []
  gives (some (stage, server)) = responses o stage

  start-gives :
      (server : Server c) (req : Arrival o) (token_id : Text) (handler : Handler)
      → IsOther o (gives (start o server req token_id handler))
  unfolding start refused draw_token find handle data_handler download_handler send_activity
  start-gives server req token_id sync token groups given = ground arith
  start-gives server req token_id standby token groups given = ground arith
  start-gives server req token_id beacon token groups given = ground arith
  start-gives server req token_id data_channel token groups given = ground arith
  start-gives server req token_id download token groups given = ground arith

  make_gives : (server : Server c) (drawn : Bytes) → IsOther o (gives (make_entity o server drawn))
  unfolding make_entity
  make_gives server drawn token groups given = ground arith

  take-gives :
      (server : Server c) (req : Arrival o) (token_id : Text) (e : Option ℕ)
      → IsOther o (gives (take o server req token_id e))
  unfolding take handle_user_data
  take-gives server req token_id e token groups given = ground arith

  act-gives :
      (method : Act c) (failed : Text) (server : Server c) (req : Arrival o) (e : Option ℕ)
      (message : Bytes) (sent : Option Cell)
      → IsOther o (gives (act o method failed server req e message sent))
  unfolding act
  act-gives method failed server req e message sent token groups given = ground arith

  -- A turn that gives out a token has entered it.
  enter-gives :
      (server : Server c) (drawn : Bytes) (a : ℕ) (token : Text) (groups : List Group)
      → (server.heap.objects.entity a).token_id ≡ drawn
      → gives (enter o server drawn (some a)) ≡ sync_response token groups ∷ []
      → o.uuid.string drawn ≡ token
  unfolding enter
  enter-gives server drawn a token groups named given = ground (arith, ap o.uuid.string named)

  entered :
      (server server' : Server c) (drawn : Bytes) (a : ℕ) (stage : Stage o)
      → enter o server drawn (some a) ≡ some (stage, server')
      → is_some (Dict.get server'.endpoint.entities (o.uuid.string drawn)) ≡ true
  unfolding enter
  entered server server' drawn a stage taken =
      let key = o.uuid.string drawn in
      ground (arith, get-set server.endpoint.entities key key (some a), eq_self key)

  abbrev IsKnown : Server c → Text → Type 0
  IsKnown server token = is_some (Dict.get server.endpoint.entities token) ≡ true

  -- A token that was given out by a turn, or before it.
  move_gives :
      (server server' : Server c) (req : Arrival o) (token_id : Text) (handler : Handler)
      (stage stage' : Stage o) (token : Text) (groups : List Group)
      → IsHeld o server.heap stage
      → move o server req token_id handler stage ≡ some (stage', server')
      → responses o stage' ≡ sync_response token groups ∷ []
      → (responses o stage ≡ sync_response token groups ∷ []) ⊎ IsKnown server' token
  unfolding move
  move_gives server server' req token_id handler arrived stage' token groups held taken given =
      absurd (start-gives server req token_id handler token groups (ap gives taken ∙ given))
  move_gives server server' req token_id handler (tokened drawn) stage' token groups held taken
        given =
      absurd (make_gives server drawn token groups (ap gives taken ∙ given))
  move_gives server server' req token_id handler (made drawn e) stage' token groups
        (a, is, below, named) taken given =
      let taken' : enter o server drawn (some a) ≡ some (stage', server') = rw is at taken in
      let key = enter-gives server drawn a token groups named (ap gives taken' ∙ given) in
      inr (rw (sym key) (entered server server' drawn a stage' taken'))
  move_gives server server' req token_id handler (found e) stage' token groups held taken given =
      absurd (take-gives server req token_id e token groups (ap gives taken ∙ given))
  move_gives server server' req token_id handler (moved e message sent) stage' token groups held
        taken given =
      absurd (
        act-gives (acting c handler) (acting_failed handler) server req e message sent token groups
          (ap gives taken ∙ given))
  move_gives server server' req token_id handler (finished answered) stage' token groups held taken
        given =
      inl (ap gives taken ∙ given)

  module _ (reqs : ℕ → Arrival o) (route : ℕ → Text × Handler) (safe : IsSound c) where
    -- Every token that was given out is known.
    record IsGiven (sys : System o c) : Type 0 where
      given :
          (i : ℕ) (token : Text) (groups : List Group)
          → responses o (sys.stage i) ≡ sync_response token groups ∷ []
          → IsKnown sys.server token

    Step-IsGiven :
        {s t : System o c}
        → Step o reqs route s t
        → IsSafe o reqs route safe s
        → IsGiven s
        → IsGiven t
    Step-IsGiven {s} (turn i {stage} {server} e) v g =
        let (step, held) = turn_taken o reqs route safe s i stage server v e in
        record {
          given = λ j token groups r. elim (Bool-cases (i == j)) [
            | inr other ↦ step.known token (g.given j token groups (rw other at r))
            | inl this ↦
                elim (move_gives s.server server (reqs i) (route i).0 (route i).1 (s.stage i) stage
                  token groups (v.held i) e (rw this at r)) [
                    | inl before ↦ step.known token (g.given i token groups before)
                    | inr now ↦ now
                  ]
          ];
        }

    Reach-IsGiven :
        {ctx : c.State} {heap : Heap} {s : System o c} → Reach o reqs route ctx heap s → IsGiven s
    Reach-IsGiven fresh = record { given = λ i token groups r. absurd (ground arith) }
    Reach-IsGiven (later r step) =
        Step-IsGiven step (Reach-IsSafe o reqs route safe r) (Reach-IsGiven r)

    -- However requests overlap on a service that was just started: once a request has been answered
    -- with a token, the endpoint knows that token from then on, and finds by it an entity that is
    -- there and has that token.
    pub reach_known :
        (ctx : c.State) (heap : Heap) (sys : System o c) (i : ℕ) (token : Text)
        (groups : List Group)
        → Reach o reqs route ctx heap sys
        → responses o (sys.stage i) ≡ sync_response token groups ∷ []
        → (a : ℕ) × (get_entity sys.server.endpoint token ≡ (some a, none))
          × (a < sys.server.heap.objects.next)
          × (o.uuid.string (sys.server.heap.objects.entity a).token_id ≡ token)
    unfolding get_entity
    reach_known ctx heap sys i token groups r answered =
        let known = (Reach-IsGiven r).given i token groups answered in
        elim (Option-cases (Dict.get sys.server.endpoint.entities token)) [
          | inl nothing ↦ absurd (ground (arith, nothing, known))
          | inr (e, there) ↦
              let (a, is, below, named) = (Reach-IsSafe o reqs route safe r).ready token e there in
              (a, ground (arith, there, is), below, named)
        ]
