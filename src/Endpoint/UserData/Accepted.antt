-- ===== src/Endpoint/UserData/Accepted.antt =====
-- Which requests `handleUserData` of core/http.go acts on, and what they change.
use envisilab.Base.{
  ℕ, ◌≡◌, ◌⊎◌, sym, ◌∙◌, ◌++◌, inl, inr, true, Option, none, some, nat_eq, list_eq, eq_iff, arith,
  Bytes, Text, Error, text, Option-cases,
}
use envisilab.Base.Int.{ℤ}
use envisilab.Uuid.{Uuid}
use envisilab.Location.{Location}
use envisilab.Cell.{S2, Cell}
use envisilab.Heap.{Heap, update_at}
use envisilab.Context.Interface.{ContextOps}
use envisilab.Endpoint.{Endpoint, in_sync, get_entity}
use envisilab.Endpoint.Http.{Response, silent, message_error, bad_request}
use envisilab.Endpoint.UserData.{
  Act, UserData, Request, Handled, handle_user_data, act_on, with_user_data, beacon_handler,
  standby_handler,
}

module _ (u : Uuid) (s2 : S2) (grow : ℕ → ℕ) (marshal : UserData → Bytes × Error) where
  abbrev pub client_data : Heap → ℕ → Location → UserData
  client_data heap a loc = record {
    client_id = u.string (heap.objects.entity a).client_id;
    location = loc;
  }

  -- The request was acted on: the entity of its token was moved, and the method of the context was
  -- called with the data, unless the data could not be marshalled.
  pub record IsActedOn {c : ContextOps} (act : Act c) (ep : Endpoint c) (heap : Heap) (now : ℤ)
      (req : Request) (sent : Option Cell) (ep' : Endpoint c) (heap' : Heap) : Type 0 where
    pub entity : ℕ
    pub known : get_entity ep req.token_id ≡ (some entity, none)
    pub post : req.method ≡ text "POST"
    pub json : req.content_type ≡ text "application/json"
    pub synced : in_sync now req.decode.0.timestamp ≡ true
    pub offered : sent ≡ (update_at s2 grow heap entity req.decode.0).0
    pub entities : ep'.entities ≡ ep.entities
    pub called :
        let moved = (update_at s2 grow heap entity req.decode.0).1 in
        let (message, failed) = marshal (client_data heap entity req.decode.0) in
        ((e : Text) × (failed ≡ some e) × (heap' ≡ moved) × (ep' ≡ ep))
        ⊎ ((failed ≡ none)
            × ((err : Error) × (act ep.ctx moved now entity message ≡ some (err, ep'.ctx, heap'))))

  pub handle_user_data-cases :
      (now : ℤ) (heap : Heap) (a : ℕ) (req : Request) (h : Handled)
      → handle_user_data u s2 grow marshal now heap (some a) req ≡ some h
      → ((h.user_data ≡ none) × (h.sent ≡ none) × (h.heap ≡ heap))
        ⊎ ((h.user_data ≡ some (client_data heap a req.decode.0))
            × (h.sent ≡ (update_at s2 grow heap a req.decode.0).0)
            × (h.heap ≡ (update_at s2 grow heap a req.decode.0).1)
            × (req.method ≡ text "POST")
            × (req.content_type ≡ text "application/json")
            × (in_sync now req.decode.0.timestamp ≡ true))
  unfolding handle_user_data
  handle_user_data-cases now heap a req h e =
      ground
        (arith, eq_iff req.method (text "POST"), eq_iff req.content_type (text "application/json"))

  -- On `nil` the method can only refuse.
  handle_user_data_nil :
      (now : ℤ) (heap : Heap) (req : Request) (h : Handled)
      → handle_user_data u s2 grow marshal now heap none req ≡ some h
      → (h.user_data ≡ none) × (h.sent ≡ none) × (h.heap ≡ heap)
  unfolding handle_user_data
  handle_user_data_nil now heap req h e = ground arith

  act_on-cases :
      {c : ContextOps} (act : Act c) (failed : Text) (ep ep' : Endpoint c) (heap heap' : Heap)
      (now : ℤ) (a : ℕ) (sent sent' : Option Cell) (ud : UserData) (r : Response)
      → act_on u s2 grow marshal act failed ep now (some a) sent heap ud
        ≡ some (r, sent', (ep', heap'))
      → (sent' ≡ sent)
        × (ep'.entities ≡ ep.entities)
        × (((e : Text) × ((marshal ud).1 ≡ some e) × (heap' ≡ heap) × (ep' ≡ ep))
            ⊎ (((marshal ud).1 ≡ none)
                × ((err : Error) × (act ep.ctx heap now a (marshal ud).0
                      ≡ some (err, ep'.ctx, heap')))))
  unfolding act_on
  act_on-cases act failed ep ep' heap heap' now a sent sent' ud r h =
      elim (Option-cases (marshal ud).1) [
        | inr (e, bad) ↦ (
          ground (arith, bad),
          ground (arith, bad),
          inl (e, bad, ground (arith, bad), ground (arith, bad)),
        )
        | inl fine ↦ elim (Option-cases (act ep.ctx heap now a (marshal ud).0)) [
          | inl gone ↦ absurd (ground (arith, fine, gone))
          | inr ((err, ctx, heap1), done) ↦ (
            ground (arith, fine, done),
            ground (arith, fine, done),
            inr (fine, (err, ground (arith, fine, done))),
          )
        ]
      ]

  pub with_user_data-cases :
      {c : ContextOps} (act : Act c) (unknown failed : Text) (ep ep' : Endpoint c)
      (heap heap' : Heap) (now : ℤ) (req : Request) (r : Response) (sent : Option Cell)
      → with_user_data u s2 grow marshal act unknown failed ep heap now req
        ≡ some (r, sent, (ep', heap'))
      → ((sent ≡ none) × (ep' ≡ ep) × (heap' ≡ heap)) ⊎ IsActedOn act ep heap now req sent ep' heap'
  unfolding with_user_data
  with_user_data-cases act unknown failed ep ep' heap heap' now req r sent e =
      let (entity, err) = get_entity ep req.token_id in
      elim (Option-cases err) [
        | inr (m, bad) ↦ inl (ground (arith, bad))
        | inl fine ↦ elim (Option-cases (handle_user_data u s2 grow marshal now heap entity req)) [
          | inl gone ↦ absurd (ground (arith, fine, gone))
          | inr (h, done) ↦ elim (Option-cases entity) [
            | inl nil ↦
                let (no_data, no_cell, kept) =
                  handle_user_data_nil now heap req h (rw (sym nil) done) in
                inl (ground (arith, fine, done, no_data, no_cell, kept))
            | inr (a, there) ↦
                elim (handle_user_data-cases now heap a req h (rw (sym there) done)) [
                  | inl (no_data, no_cell, kept) ↦
                      inl (ground (arith, fine, done, no_data, no_cell, kept))
                  | inr (data1, sent1, heap1, post, json, synced) ↦
                      let acted =
                        act_on-cases act failed ep ep' h.heap heap' now a h.sent sent
                          (client_data heap a req.decode.0) r
                          (ground (arith, fine, done, data1, there)) in
                      inr (record {
                        entity = a;
                        known = ground (arith, fine, there);
                        post = post;
                        json = json;
                        synced = synced;
                        offered = acted.0 ∙ sent1;
                        entities = acted.1;
                        called = rw (sym heap1) acted.2;
                      })
                ]
          ]
        ]
      ]

  -- However `BeaconHandler` answers without a panic: either the context, the entities and the heap are
  -- as before and no cell was offered to a subscription, or the request was a POST of JSON with a time
  -- in sync, for an entity that `GetEntity` knows by the request's token. Then that entity has been
  -- moved to the location of the request, its subscription was offered what `Update` returned, and the
  -- context has broadcast the marshalled data, unless marshalling failed.
  pub beacon_handler-cases :
      {c : ContextOps} (ep ep' : Endpoint c) (heap heap' : Heap) (now : ℤ) (req : Request)
      (r : Response) (sent : Option Cell)
      → beacon_handler u s2 grow marshal ep heap now req ≡ some (r, sent, (ep', heap'))
      → ((sent ≡ none) × (ep' ≡ ep) × (heap' ≡ heap))
        ⊎ IsActedOn c.broadcast ep heap now req sent ep' heap'
  unfolding beacon_handler
  beacon_handler-cases {c} ep ep' heap heap' now req r sent e =
      with_user_data-cases c.broadcast _ _ ep ep' heap heap' now req r sent e

  -- The same of `StandbyHandler`, with the context's `Standby`.
  pub standby_handler-cases :
      {c : ContextOps} (ep ep' : Endpoint c) (heap heap' : Heap) (now : ℤ) (req : Request)
      (r : Response) (sent : Option Cell)
      → standby_handler u s2 grow marshal ep heap now req ≡ some (r, sent, (ep', heap'))
      → ((sent ≡ none) × (ep' ≡ ep) × (heap' ≡ heap))
        ⊎ IsActedOn c.standby ep heap now req sent ep' heap'
  unfolding standby_handler
  standby_handler-cases {c} ep ep' heap heap' now req r sent e =
      with_user_data-cases c.standby _ _ ep ep' heap heap' now req r sent e

  -- A POST of JSON with a time in sync, for an entity that is known, reaches the context: where the
  -- data can be marshalled, the handler ends as the context's broadcast of them does, and answers with
  -- its error if there is one.
  pub beacon_handler_accepts :
      {c : ContextOps} (ep : Endpoint c) (heap heap' : Heap) (now : ℤ) (req : Request) (a : ℕ)
      (message : Bytes) (err : Error) (ctx' : c.State)
      → get_entity ep req.token_id ≡ (some a, none)
      → req.method ≡ text "POST"
      → req.content_type ≡ text "application/json"
      → req.decode.1 ≡ none
      → in_sync now req.decode.0.timestamp ≡ true
      → marshal (client_data heap a req.decode.0) ≡ (message, none)
      → c.broadcast ep.ctx (update_at s2 grow heap a req.decode.0).1 now a message
        ≡ some (err, ctx', heap')
      → beacon_handler u s2 grow marshal ep heap now req
        ≡ some (
          (elim err as (λ e. Response) [
            | none ↦ silent
            | some e ↦ message_error (text "Broadcast error: " ++ e) bad_request
          ]),
          (update_at s2 grow heap a req.decode.0).0,
          (record ep { ctx = ctx' }, heap'),
        )
  unfolding beacon_handler handle_user_data
  beacon_handler_accepts ep heap heap' now req a message err ctx' known post json fine synced m b =
      let post1 = (eq_iff req.method (text "POST")).1 post in
      let json1 = (eq_iff req.content_type (text "application/json")).1 json in
      ground (arith, known, post1, json1, fine, synced, m, b)
