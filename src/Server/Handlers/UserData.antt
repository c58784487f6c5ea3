-- ===== src/Server/Handlers/UserData.antt =====
-- `StandbyHandler` and `BeaconHandler` of core/http.go on an endpoint that is ready.
use envisilab.Base.{
  ℕ, ◌<◌, ◌≡◌, ◌≢◌, ap, Option, none, some, inl, inr, Option-cases, present, nat_eq, list_eq, arith,
  Bytes, Text, Error,
}
use envisilab.Base.Int.{ℤ}
use envisilab.Base.Dict
use envisilab.Uuid.{Uuid}
use envisilab.Heap.{Heap, update_at}
use envisilab.Heap.Kept.{Keeps, Keeps-refl, Keeps-trans, update_at-Keeps}
use envisilab.Cell.{S2, Cell}
use envisilab.Context.Interface.{ContextOps, IsSound}
use envisilab.Endpoint.{Endpoint, get_entity}
use envisilab.Endpoint.Http.{Response}
use envisilab.Endpoint.UserData
use envisilab.Endpoint.UserData.{
  UserData, Act, with_user_data, handle_user_data, act_on, standby_handler, beacon_handler,
}
use envisilab.Endpoint.UserData.Accepted.{with_user_data-cases}
use envisilab.Server.Step.{IsReady, IsStep, IsStep-same}

module _ (u : Uuid) {c : ContextOps} (safe : IsSound c) where
  -- An entity that `GetEntity` finds with no error is not `nil`.
  pub get_entity_present :
      (ep : Endpoint c) (heap : Heap) (key : Text)
      → IsReady u ep heap
      → (get_entity ep key).1 ≡ none
      → (a : ℕ) × ((get_entity ep key).0 ≡ some a) × (a < heap.objects.next)
  unfolding get_entity
  get_entity_present ep heap key ready fine = elim (Option-cases (Dict.get ep.entities key)) [
    | inl nothing ↦ absurd (ground (arith, nothing, fine))
    | inr (e, there) ↦
        let (a, is, below, named) = ready key e there in (a, ground (arith, there, is), below)
  ]

  -- What is asked of the method of the context at the end of a handler.
  abbrev pub IsSafe : Act c → Type 0
  IsSafe act =
      (s : c.State) (h : Heap) (now : ℤ) (a : ℕ) (message : Bytes)
      → (err : Error) × (s' : c.State) × (h' : Heap) × (act s h now a message ≡ some (err, s', h'))
        × Keeps h h'

  module _ (s2 : S2) (grow : ℕ → ℕ) (marshal : UserData → Bytes × Error) where
    pub handle_user_data_present :
        (now : ℤ) (heap : Heap) (a : ℕ) (req : UserData.Request)
        → handle_user_data u s2 grow marshal now heap (some a) req ≢ none
    unfolding handle_user_data
    handle_user_data_present now heap a req gone = ground arith

    act_on_present :
        (act : Act c) (failed : Text) (ep : Endpoint c) (now : ℤ) (a : ℕ) (sent : Option Cell)
        (heap : Heap) (ud : UserData)
        → IsSafe act
        → act_on u s2 grow marshal act failed ep now (some a) sent heap ud ≢ none
    unfolding act_on
    act_on_present act failed ep now a sent heap ud acts gone =
        let (err, s', h', done, kept) = acts ep.ctx heap now a (marshal ud).0 in
        ground (arith, done)

    with_user_data_present :
        (act : Act c) (unknown failed : Text) (ep : Endpoint c) (heap : Heap) (now : ℤ)
        (req : UserData.Request)
        → IsSafe act
        → IsReady u ep heap
        → with_user_data u s2 grow marshal act unknown failed ep heap now req ≢ none
    unfolding with_user_data
    with_user_data_present act unknown failed ep heap now req acts ready gone =
        elim (Option-cases (get_entity ep req.token_id).1) [
          | inr (e, bad) ↦ ground (arith, bad)
          | inl fine ↦
              let (a, there, below) = get_entity_present ep heap req.token_id ready fine in
              elim (Option-cases (handle_user_data u s2 grow marshal now heap (some a) req)) [
                | inl nothing ↦ handle_user_data_present now heap a req nothing
                | inr (h, done) ↦ elim (Option-cases h.user_data) [
                  | inl refused ↦ ground (arith, fine, there, done, refused)
                  | inr (ud, taken) ↦
                      act_on_present act failed ep now a h.sent h.heap ud acts
                        (ground (arith, fine, there, done, taken))
                ]
              ]
        ]

    with_user_data-IsStep :
        (act : Act c) (unknown failed : Text) (ep ep' : Endpoint c) (heap heap' : Heap) (now : ℤ)
        (req : UserData.Request) (r : Response) (sent : Option Cell)
        → IsSafe act
        → IsReady u ep heap
        → with_user_data u s2 grow marshal act unknown failed ep heap now req
          ≡ some (r, sent, (ep', heap'))
        → IsStep u ep heap ep' heap'
    with_user_data-IsStep act unknown failed ep ep' heap heap' now req r sent acts ready h =
        elim (with_user_data-cases u s2 grow marshal act unknown failed ep ep' heap heap' now req r
          sent h) [
            | inl (no_cell, same, kept) ↦
                IsStep-same u ep ep' heap heap' (ap (λ (e : Endpoint c). e.entities) same)
                  (rw kept (Keeps-refl heap)) ready
            | inr v ↦
                let moved = (update_at s2 grow heap v.entity req.decode.0).1 in
                let one = update_at-Keeps s2 grow heap v.entity req.decode.0 in
                let kept : Keeps heap heap' = elim v.called [
                  | inl (e, bad, there, same) ↦ rw there one
                  | inr (fine, (err, acted)) ↦
                      let data' : UserData = record {
                        client_id = u.string (heap.objects.entity v.entity).client_id;
                        location = req.decode.0;
                      } in
                      let message = (marshal data').0 in
                      let (err2, s2', heap2, done, two) = acts ep.ctx moved now v.entity message in
                      let end : heap' ≡ heap2 = ground (arith, acted, done) in
                      rw end (Keeps-trans heap moved heap2 one two)
                ] in
                IsStep-same u ep ep' heap heap' v.entities kept ready
          ]

    with_user_data_ends :
        (act : Act c) (unknown failed : Text) (ep : Endpoint c) (heap : Heap) (now : ℤ)
        (req : UserData.Request)
        → IsSafe act
        → IsReady u ep heap
        → (r : Response) × (sent : Option Cell) × (ep' : Endpoint c) × (heap' : Heap)
          × (with_user_data u s2 grow marshal act unknown failed ep heap now req
              ≡ some (r, sent, (ep', heap')))
          × IsStep u ep heap ep' heap'
    with_user_data_ends act unknown failed ep heap now req acts ready =
        let ((r, sent, (ep', heap')), done) =
          present (with_user_data u s2 grow marshal act unknown failed ep heap now req)
            (with_user_data_present act unknown failed ep heap now req acts ready) in
        let step =
          with_user_data-IsStep act unknown failed ep ep' heap heap' now req r sent acts ready
            done in
        (r, sent, ep', heap', done, step)

    pub standby_handler-IsStep :
        (ep : Endpoint c) (heap : Heap) (now : ℤ) (req : UserData.Request)
        → IsReady u ep heap
        → (r : Response) × (sent : Option Cell) × (ep' : Endpoint c) × (heap' : Heap)
          × (standby_handler u s2 grow marshal ep heap now req ≡ some (r, sent, (ep', heap')))
          × IsStep u ep heap ep' heap'
    unfolding standby_handler
    standby_handler-IsStep ep heap now req ready =
        with_user_data_ends c.standby _ _ ep heap now req safe.standby_ok ready

    pub beacon_handler-IsStep :
        (ep : Endpoint c) (heap : Heap) (now : ℤ) (req : UserData.Request)
        → IsReady u ep heap
        → (r : Response) × (sent : Option Cell) × (ep' : Endpoint c) × (heap' : Heap)
          × (beacon_handler u s2 grow marshal ep heap now req ≡ some (r, sent, (ep', heap')))
          × IsStep u ep heap ep' heap'
    unfolding beacon_handler
    beacon_handler-IsStep ep heap now req ready =
        with_user_data_ends c.broadcast _ _ ep heap now req safe.broadcast_ok ready
