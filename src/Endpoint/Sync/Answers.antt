-- ===== src/Endpoint/Sync/Answers.antt =====
-- What an answer of `SyncHandler` of core/http.go means.
use envisilab.Base.{
  ℕ, ◌≡◌, refl, sym, true, none, some, List, nat_eq, list_eq, eq_iff, arith, Bytes, Text, Error,
  text, Option-cases, inl, inr,
}
use envisilab.Base.Int.{ℤ}
use envisilab.Uuid.{Uuid}
use envisilab.Heap.{Heap}
use envisilab.Topology.{Group}
use envisilab.Context.Interface.{ContextOps, IsContext}
use envisilab.Endpoint.{Endpoint, create_entity, get_entity, in_sync}
use envisilab.Endpoint.Http.{sync_response}
use envisilab.Endpoint.Entities.{get_entity-create_entity}
use envisilab.Endpoint.Sync.{Request, sync_client, sync_handler}

module _ {c : ContextOps} (i : IsContext c) where
  -- The entity that is made carries the token that was drawn.
  token-create_entity :
      (u : Uuid) (ep ep' : Endpoint c) (heap heap' : Heap) (token client : Bytes) (drawn : Error)
      (user_agent : ℕ) (a : ℕ)
      → create_entity u ep heap (token, drawn) client user_agent
        ≡ some ((some a, none), (ep', heap'))
      → (heap'.objects.entity a).token_id ≡ token
  unfolding create_entity
  token-create_entity u ep ep' heap heap' token client drawn user_agent a h =
      let (t, failed, s') = c.create_token ep.ctx (token, drawn) client in
      ground (
        arith,
        i.token-create_token ep.ctx s' token t client drawn,
        i.token-create_entity s' ep'.ctx heap heap' t user_agent a,
      )

  sync_client-get_entity :
      (u : Uuid) (ep ep' : Endpoint c) (heap heap' : Heap) (token client : Bytes) (drawn : Error)
      (answer : Text) (groups : List Group)
      → sync_client u ep heap (token, drawn) client
        ≡ some (sync_response answer groups, (ep', heap'))
      → (a : ℕ) × (get_entity ep' answer ≡ (some a, none))
        × (u.string (heap'.objects.entity a).token_id ≡ answer)
  unfolding sync_client
  sync_client-get_entity u ep ep' heap heap' token client drawn answer groups h =
      elim (Option-cases (create_entity u ep heap (token, drawn) client 0)) [
        | inl gone ↦ absurd (ground (arith, gone))
        | inr (((entity, err), (ep1, heap1)), made) ↦ elim (Option-cases err) [
          | inr (e, bad) ↦ absurd (ground (arith, made, bad))
          | inl fine ↦ elim (Option-cases entity) [
            | inl nothing ↦ absurd (ground (arith, made, fine, nothing))
            | inr (a, there) ↦
                let all : create_entity u ep heap (token, drawn) client 0
                    ≡ some ((some a, none), (ep', heap')) =
                  ground (arith, made, fine, there) in
                let named : u.string (heap'.objects.entity a).token_id ≡ answer =
                  ground (arith, made, fine, there) in
                let drawn_token =
                  token-create_entity u ep ep' heap heap' token client drawn 0 a all in
                let known =
                  (get_entity-create_entity i u ep ep' heap heap' token client drawn none 0 (some a)
                      answer all).0
                    refl in
                (a, rw (sym named, drawn_token) known, named)
          ]
        ]
      ]

  -- A client that gets a sync response has sent a POST of JSON, with a time that is in sync with the
  -- server, and the token in the response is one that `GetEntity` then knows, for an entity with
  -- that token.
  pub sync_handler-get_entity :
      (u : Uuid) (ep ep' : Endpoint c) (heap heap' : Heap) (random : Bytes × Error) (now : ℤ)
      (req : Request) (answer : Text) (groups : List Group)
      → sync_handler u ep heap random now req ≡ some (sync_response answer groups, (ep', heap'))
      → (req.method ≡ text "POST")
        × (req.content_type ≡ text "application/json")
        × (in_sync now req.decode.0.time ≡ true)
        × ((a : ℕ) × (get_entity ep' answer ≡ (some a, none))
            × (u.string (heap'.objects.entity a).token_id ≡ answer))
  unfolding sync_handler
  sync_handler-get_entity u ep ep' heap heap' random now req answer groups h =
      let json = req.decode in
      let asked = sync_client u ep heap random (u.parse json.0.uuid).0 in
      (
        ground (arith, eq_iff req.method (text "POST")),
        ground (arith, eq_iff req.content_type (text "application/json")),
        ground arith,
        sync_client-get_entity u ep ep' heap heap' random.0 (u.parse json.0.uuid).0 random.1 answer
            groups (ground arith),
      )
