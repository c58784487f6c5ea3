-- ===== src/Server/Handlers/Sync.antt =====
-- `SyncHandler` of core/http.go on an endpoint that is ready.
use envisilab.Base.{
  ℕ, ◌≡◌, refl, ap, Option, none, some, inl, inr, Option-cases, Bool-cases, nat_eq, list_eq, ◌==◌,
  ◌++◌, arith, Bytes, Error, text,
}
use envisilab.Base.Int.{ℤ}
use envisilab.Base.Dict
use envisilab.Uuid.{Uuid}
use envisilab.Heap.{Heap}
use envisilab.Heap.Kept.{Keeps-refl}
use envisilab.Context.Interface.{ContextOps, IsSound}
use envisilab.Endpoint.{Endpoint, create_entity, in_sync}
use envisilab.Endpoint.Http.{Response, message_error, sync_response, silent, bad_request, forbidden}
use envisilab.Endpoint.Sync.{Request, sync_client, sync_handler}
use envisilab.Server.Step.{IsReady, IsStep, IsStep-same, IsStep-set}

module _ (u : Uuid) {c : ContextOps} (safe : IsSound c) where
  -- `CreateEntity` of the endpoint: an error, or an entity that is there.
  create_entity-IsStep :
      (ep : Endpoint c) (heap : Heap) (random : Bytes × Error) (client : Bytes) (user_agent : ℕ)
      → IsReady u ep heap
      → (e : Option ℕ) × (err : Error) × (ep' : Endpoint c) × (heap' : Heap) × (create_entity u ep
            heap random client user_agent
          ≡ some ((e, err), (ep', heap')))
        × IsStep u ep heap ep' heap'
        × (err ≡ none → (a : ℕ) × (e ≡ some a))
  unfolding create_entity
  create_entity-IsStep ep heap random client user_agent ready =
      let (token, failed, ctx1) = c.create_token ep.ctx random client in
      elim (Option-cases failed) [
        | inr (m, bad) ↦ (
          none,
          some m,
          record ep { ctx = ctx1 },
          heap,
          ground (arith, bad),
          IsStep-same u ep (record ep { ctx = ctx1 }) heap heap refl (Keeps-refl heap) ready,
          λ fine. absurd (ground (arith, fine)),
        )
        | inl fine ↦
            let (e, err, ctx2, heap', made, kept, there) =
              safe.create_entity_ok ctx1 heap token user_agent in
            elim (Option-cases err) [
              | inr (m, bad) ↦ (
                none,
                some m,
                record ep { ctx = ctx2 },
                heap',
                ground (arith, fine, made, bad),
                IsStep-same u ep (record ep { ctx = ctx2 }) heap heap' refl kept ready,
                λ fine. absurd (ground (arith, fine)),
              )
              | inl well ↦
                  let (a, is, below, named) = there well in
                  let ep' : Endpoint c = record {
                    ctx = ctx2;
                    entities = Dict.set ep.entities (u.string token) (some a);
                  } in
                  (
                    some a,
                    none,
                    ep',
                    heap',
                    ground (arith, fine, made, well, is),
                    IsStep-set u ep ep' heap heap' a (u.string token) refl kept
                        (a, refl, below, ap u.string named) ready,
                    λ fine. (a, refl),
                  )
            ]
      ]

  sync_client-IsStep :
      (ep : Endpoint c) (heap : Heap) (random : Bytes × Error) (client : Bytes)
      → IsReady u ep heap
      → (r : Response) × (ep' : Endpoint c) × (heap' : Heap) × (sync_client u ep heap random client
          ≡ some (r, (ep', heap')))
        × IsStep u ep heap ep' heap'
  unfolding sync_client
  sync_client-IsStep ep heap random client ready =
      let (e, err, ep', heap', made, step, there) =
        create_entity-IsStep ep heap random client 0 ready in
      elim (Option-cases err) [
        | inr (m, bad) ↦ (
          message_error (text "Sync: Failed to create entity: " ++ m) forbidden,
          ep',
          heap',
          ground (arith, made, bad),
          step,
        )
        | inl fine ↦
            let (a, is) = there fine in
            (
              sync_response (u.string (heap'.objects.entity a).token_id)
                  (heap'.objects.entity a).groups,
              ep',
              heap',
              ground (arith, made, fine, is),
              step,
            )
      ]

  pub sync_handler-IsStep :
      (ep : Endpoint c) (heap : Heap) (random : Bytes × Error) (now : ℤ) (req : Request)
      → IsReady u ep heap
      → (r : Response) × (ep' : Endpoint c) × (heap' : Heap) × (sync_handler u ep heap random now
            req
          ≡ some (r, (ep', heap')))
        × IsStep u ep heap ep' heap'
  unfolding sync_handler
  sync_handler-IsStep ep heap random now req ready =
      let (r, ep', heap', done, step) =
        sync_client-IsStep ep heap random (u.parse req.decode.0.uuid).0 ready in
      let same = IsStep-same u ep ep heap heap refl (Keeps-refl heap) ready in
      let decoded = req.decode in
      let parsed = u.parse decoded.0.uuid in
      elim (Bool-cases (req.method == text "POST")) [
        | inr get ↦ (silent, ep, heap, ground (arith, get), same)
        | inl post ↦ elim (Bool-cases (req.content_type == text "application/json")) [
          | inr other ↦ (
            message_error (text "Sync: Not a valid JSON request (Content-Type)") bad_request,
            ep,
            heap,
            ground (arith, post, other),
            same,
          )
          | inl json ↦ elim (Option-cases decoded.1) [
            | inr (e, bad) ↦ (
              message_error (text "Sync: Invalid client sync request: " ++ e) bad_request,
              ep,
              heap,
              ground (arith, post, json, bad),
              same,
            )
            | inl fine ↦ elim (Bool-cases (in_sync now decoded.0.time)) [
              | inr late ↦ (
                message_error (text "Sync: Client/Server time not synchronised") bad_request,
                ep,
                heap,
                ground (arith, post, json, fine, late),
                same,
              )
              | inl on_time ↦ elim (Option-cases parsed.1) [
                | inr (e, bad) ↦ (
                  message_error (text "Sync: Failed to parse clientUUID: " ++ e) bad_request,
                  ep,
                  heap,
                  ground (arith, post, json, fine, on_time, bad),
                  same,
                )
                | inl good ↦
                    (r, ep', heap', ground (arith, post, json, fine, on_time, good, done), step)
              ]
            ]
          ]
        ]
      ]
