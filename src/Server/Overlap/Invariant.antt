-- ===== src/Server/Overlap/Invariant.antt =====
-- What holds of overlapping requests of core/http.go at each of their stages.
use envisilab.Base.{
  ℕ, ◌<◌, ◌≤◌, ◌≡◌, refl, ap, ◌∙◌, Option, none, some, inl, inr, Option-cases, [], ◌∷◌, nat_eq,
  list_eq, ◌++◌, arith, Bytes, Text,
}
use envisilab.Base.Dict
use envisilab.Cell.{Cell}
use envisilab.Heap.{Heap}
use envisilab.Heap.Kept.{Keeps, Keeps-refl}
use envisilab.Context.Interface.{ContextOps, IsSound}
use envisilab.Endpoint.{Endpoint, get_entity}
use envisilab.Endpoint.Http.{Response, message_error, sync_response, bad_request}
use envisilab.Server.{Outside, Arrival, Server, answer, sync_request}
use envisilab.Server.Step.{IsReady, IsStep, IsStep-same, IsStep-set}
use envisilab.Server.Handlers.{get_entity_present}
use envisilab.Server.Overlap.{
  Stage, arrived, tokened, made, found, moved, finished, draw_token, make_entity, enter, find,
  not_created,
}

-- An address of an entity that is there.
abbrev pub IsThere : Heap → Option ℕ → Type 0
IsThere heap e = (a : ℕ) × (e ≡ some a) × (a < heap.objects.next)

module _ (o : Outside) where
  -- What a stage holds on to is there; an entity that was just made carries its token.
  abbrev pub IsHeld : Heap → Stage o → Type 0
  IsHeld heap arrived = Unit
  IsHeld heap (tokened token) = Unit
  IsHeld heap (made token e) =
      (a : ℕ) × (e ≡ some a) × (a < heap.objects.next) × ((heap.objects.entity a).token_id ≡ token)
  IsHeld heap (found e) = IsThere heap e
  IsHeld heap (moved e message sent) = IsThere heap e
  IsHeld heap (finished answered) = Unit

  -- How many turns a request has left, at most.
  abbrev pub rank : Stage o → ℕ
  rank arrived = 3
  rank (tokened token) = 2
  rank (found e) = 2
  rank (made token e) = 1
  rank (moved e message sent) = 1
  rank (finished answered) = 0

  pub rank_bound : (stage : Stage o) → rank stage ≤ 3
  rank_bound arrived = omega arith
  rank_bound (tokened token) = omega arith
  rank_bound (made token e) = omega arith
  rank_bound (found e) = omega arith
  rank_bound (moved e message sent) = omega arith
  rank_bound (finished answered) = omega arith

  IsThere-Keeps :
      (heap heap' : Heap) (e : Option ℕ) → Keeps heap heap' → IsThere heap e → IsThere heap' e
  IsThere-Keeps heap heap' e kept (a, is, below) = (a, is, omega (arith, below, kept.next))

  -- Another request's turn takes nothing away.
  pub IsHeld-Keeps :
      (heap heap' : Heap) (stage : Stage o)
      → Keeps heap heap'
      → IsHeld heap stage
      → IsHeld heap' stage
  IsHeld-Keeps heap heap' arrived kept v = tt
  IsHeld-Keeps heap heap' (tokened token) kept v = tt
  IsHeld-Keeps heap heap' (made token e) kept (a, is, below, named) =
      (a, is, omega (arith, below, kept.next), kept.tokens a below ∙ named)
  IsHeld-Keeps heap heap' (found e) kept v = IsThere-Keeps heap heap' e kept v
  IsHeld-Keeps heap heap' (moved e message sent) kept v = IsThere-Keeps heap heap' e kept v
  IsHeld-Keeps heap heap' (finished answered) kept v = tt

  abbrev pub ended : Response → Option Cell → Stage o
  ended r sent = finished (answer o (r ∷ []) sent)

  module _ {c : ContextOps} (safe : IsSound c) where
    -- A turn: a next stage with fewer turns left, which holds on to what is there.
    abbrev pub IsTurn : Server c → ℕ → Option (Stage o × Server c) → Type 0
    IsTurn server turns outcome =
        (stage : Stage o) × (server' : Server c) × (outcome ≡ some (stage, server'))
        × IsStep o.uuid server.endpoint server.heap server'.endpoint server'.heap
        × IsHeld server'.heap stage
        × (rank stage < turns)

    -- A turn that changes the context, and the heap with its entities kept.
    pub same-IsStep :
        (server : Server c) (ctx : c.State) (heap : Heap)
        → IsReady o.uuid server.endpoint server.heap
        → Keeps server.heap heap
        → IsStep o.uuid server.endpoint server.heap (record (server.endpoint) { ctx = ctx }) heap
    same-IsStep server ctx heap ready kept =
        IsStep-same o.uuid server.endpoint (record (server.endpoint) { ctx = ctx }) server.heap heap
          refl kept ready

    pub draw_token-IsTurn :
        (server : Server c) (req : Arrival o)
        → IsReady o.uuid server.endpoint server.heap
        → IsTurn server 3 (draw_token o server req)
    unfolding draw_token
    draw_token-IsTurn server req ready =
        let client = (o.uuid.parse (sync_request o req).decode.0.uuid).0 in
        let (token, err, ctx) = c.create_token server.endpoint.ctx req.random client in
        let server' : Server c = record server {
          endpoint = record (server.endpoint) { ctx = ctx };
        } in
        let step = same-IsStep server ctx server.heap ready (Keeps-refl server.heap) in
        elim (Option-cases err) [
          | inl fine ↦ (tokened token, server', ground (arith, fine), step, tt, omega arith)
          | inr (e, bad) ↦
              (ended (not_created e) none, server', ground (arith, bad), step, tt, omega arith)
        ]

    pub make_entity-IsTurn :
        (server : Server c) (token : Bytes)
        → IsReady o.uuid server.endpoint server.heap
        → IsTurn server 2 (make_entity o server token)
    unfolding make_entity
    make_entity-IsTurn server token ready =
        let (e, err, ctx, heap, created, kept, there) =
          safe.create_entity_ok server.endpoint.ctx server.heap token 0 in
        let server' : Server c = record {
          endpoint = record (server.endpoint) { ctx = ctx };
          heap = heap;
        } in
        let step = same-IsStep server ctx heap ready kept in
        elim (Option-cases err) [
          | inl fine ↦
              (made token e, server', ground (arith, created, fine), step, there fine, omega arith)
          | inr (m, bad) ↦ (
            ended (not_created m) none,
            server',
            ground (arith, created, bad),
            step,
            tt,
            omega arith,
          )
        ]

    pub enter-IsTurn :
        (server : Server c) (token : Bytes) (e : Option ℕ)
        → IsReady o.uuid server.endpoint server.heap
        → IsHeld server.heap (made token e)
        → IsTurn server 1 (enter o server token e)
    unfolding enter
    enter-IsTurn server token e ready (a, is, below, named) =
        let entity = server.heap.objects.entity a in
        let entities = Dict.set server.endpoint.entities (o.uuid.string token) (some a) in
        let endpoint' : Endpoint c = record (server.endpoint) { entities = entities } in
        (
          ended (sync_response (o.uuid.string entity.token_id) entity.groups) none,
          record server { endpoint = endpoint' },
          rw is refl,
          IsStep-set o.uuid server.endpoint endpoint' server.heap server.heap a
              (o.uuid.string token) refl (Keeps-refl server.heap)
              (a, refl, below, ap o.uuid.string named) ready,
          tt,
          omega arith,
        )

    pub stays :
        (server : Server c)
        → IsReady o.uuid server.endpoint server.heap
        → IsStep o.uuid server.endpoint server.heap server.endpoint server.heap
    stays server ready =
        same-IsStep server server.endpoint.ctx server.heap ready (Keeps-refl server.heap)

    pub find-IsTurn :
        (unknown : Text) (server : Server c) (token_id : Text)
        → IsReady o.uuid server.endpoint server.heap
        → IsTurn server 3 (find o unknown server token_id)
    unfolding find
    find-IsTurn unknown server token_id ready =
        let (e, err) = get_entity server.endpoint token_id in
        elim (Option-cases err) [
          | inr (m, bad) ↦ (
            ended (message_error (unknown ++ m) bad_request) none,
            server,
            ground (arith, bad),
            stays server ready,
            tt,
            omega arith,
          )
          | inl fine ↦ (
            found e,
            server,
            ground (arith, fine),
            stays server ready,
            get_entity_present o.uuid safe server.endpoint server.heap token_id ready fine,
            omega arith,
          )
        ]
