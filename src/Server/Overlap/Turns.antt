-- ===== src/Server/Overlap/Turns.antt =====
-- Each turn of a request of core/http.go, on an endpoint that is ready.
use envisilab.Base.{
  ℕ, ◌<◌, ◌≡◌, refl, Option, none, some, inl, inr, Option-cases, ◌++◌, nat_eq, list_eq, arith,
  Bytes, Text, text, present,
}
use envisilab.Cell.{Cell}
use envisilab.Heap.Kept.{Keeps, Keeps-refl, update_at-Keeps}
use envisilab.Context.Interface.{ContextOps, IsSound}
use envisilab.Endpoint.Http.{silent, message_error, bad_request}
use envisilab.Endpoint.UserData.{Act, Handled, handle_user_data}
use envisilab.Endpoint.UserData.Accepted.{handle_user_data-cases}
use envisilab.Server.{
  Outside, Handler, sync, standby, beacon, data_channel, download, Arrival, Server, sync_request,
  user_request,
}
use envisilab.Server.Step.{IsReady, IsStep}
use envisilab.Server.Handlers.{handle_user_data_present, IsSafe}
use envisilab.Server.Total.{handle-IsServed}
use envisilab.Server.Overlap.{
  Stage, arrived, tokened, made, found, moved, finished, refused, start, take, act, acting,
  acting_failed, move,
}
use envisilab.Server.Overlap.Invariant.{
  IsThere, IsHeld, rank, ended, IsTurn, same-IsStep, stays, draw_token-IsTurn, make_entity-IsTurn,
  enter-IsTurn, find-IsTurn,
}

module _ (o : Outside) {c : ContextOps} (safe : IsSound c) where
  -- What `handleUserData` does for an entity that is there keeps the heap.
  take_handled :
      (server : Server c) (req : Arrival o) (token_id : Text) (a : ℕ)
      → (h : Handled) × (handle_user_data o.uuid o.s2 o.grow o.marshal_user_data req.now server.heap
            (some a)
            (user_request o token_id req)
          ≡ some h)
        × Keeps server.heap h.heap
  take_handled server req token_id a =
      let r = user_request o token_id req in
      let (h, handled) =
        present
          (handle_user_data o.uuid o.s2 o.grow o.marshal_user_data req.now server.heap (some a) r)
          (handle_user_data_present o.uuid safe o.s2 o.grow o.marshal_user_data req.now server.heap
            a r) in
      let kept : Keeps server.heap h.heap =
        elim (handle_user_data-cases o.uuid o.s2 o.grow o.marshal_user_data req.now server.heap a r
          h handled) [
            | inl (no_data, no_cell, same) ↦ rw same (Keeps-refl server.heap)
            | inr (data1, sent, there, post, json, on_time) ↦
                rw there (update_at-Keeps o.s2 o.grow server.heap a r.decode.0)
          ] in
      (h, handled, kept)

  take-IsTurn :
      (server : Server c) (req : Arrival o) (token_id : Text) (e : Option ℕ)
      → IsReady o.uuid server.endpoint server.heap
      → IsThere server.heap e
      → IsTurn o safe server 2 (take o server req token_id e)
  unfolding take
  take-IsTurn server req token_id e ready (a, is, below) =
      let (h, handled, kept) = take_handled server req token_id a in
      let server' : Server c = record server { heap = h.heap } in
      let step = same-IsStep o safe server server.endpoint.ctx h.heap ready kept in
      elim (Option-cases h.user_data) [
        | inl no_data ↦ (
          ended o h.response h.sent,
          server',
          ground (arith, is, handled, no_data),
          step,
          tt,
          omega arith,
        )
        | inr (ud, taken) ↦ elim (Option-cases (o.marshal_user_data ud).1) [
          | inr (m, bad) ↦ (
            ended o (message_error (text "Beacon: Failure generating user data: " ++ m) bad_request)
                h.sent,
            server',
            ground (arith, is, handled, taken, bad),
            step,
            tt,
            omega arith,
          )
          | inl fine ↦ (
            moved e (o.marshal_user_data ud).0 h.sent,
            server',
            ground (arith, is, handled, taken, fine),
            step,
            (a, is, omega (arith, below, kept.next)),
            omega arith,
          )
        ]
      ]

  act-IsTurn :
      (method : Act c) (failed : Text) (server : Server c) (req : Arrival o) (e : Option ℕ)
      (message : Bytes) (sent : Option Cell)
      → IsSafe o.uuid safe method
      → IsReady o.uuid server.endpoint server.heap
      → IsThere server.heap e
      → IsTurn o safe server 1 (act o method failed server req e message sent)
  unfolding act
  act-IsTurn method failed server req e message sent acts ready (a, is, below) =
      let (err, ctx, heap, acted, kept) = acts server.endpoint.ctx server.heap req.now a message in
      let server' : Server c = record {
        endpoint = record (server.endpoint) { ctx = ctx };
        heap = heap;
      } in
      let step = same-IsStep o safe server ctx heap ready kept in
      elim (Option-cases err) [
        | inl fine ↦
            (ended o silent sent, server', ground (arith, is, acted, fine), step, tt, omega arith)
        | inr (m, bad) ↦ (
          ended o (message_error (failed ++ m) bad_request) sent,
          server',
          ground (arith, is, acted, bad),
          step,
          tt,
          omega arith,
        )
      ]

  start-IsTurn :
      (server : Server c) (req : Arrival o) (token_id : Text) (handler : Handler)
      → IsReady o.uuid server.endpoint server.heap
      → IsTurn o safe server 3 (start o server req token_id handler)
  unfolding start
  start-IsTurn server req token_id sync ready =
      elim (Option-cases (refused o.uuid req.now (sync_request o req))) [
        | inr (r, bad) ↦ (
          ended o r none,
          server,
          ground (arith, bad),
          stays o safe server ready,
          tt,
          omega arith,
        )
        | inl admitted ↦
            let (stage, server', drawn, step, held, less) =
              draw_token-IsTurn o safe server req ready in
            (stage, server', ground (arith, admitted, drawn), step, held, less)
      ]
  start-IsTurn server req token_id standby ready = find-IsTurn o safe _ server token_id ready
  start-IsTurn server req token_id beacon ready = find-IsTurn o safe _ server token_id ready
  start-IsTurn server req token_id data_channel ready =
      let (answered, server', handled, step) =
        handle-IsServed o safe server req token_id data_channel ready in
      (finished answered, server', ground (arith, handled), step, tt, omega arith)
  start-IsTurn server req token_id download ready =
      let (answered, server', handled, step) =
        handle-IsServed o safe server req token_id download ready in
      (finished answered, server', ground (arith, handled), step, tt, omega arith)

  acting-IsSafe : (handler : Handler) → IsSafe o.uuid safe (acting c handler)
  acting-IsSafe standby = safe.standby_ok
  acting-IsSafe sync = safe.broadcast_ok
  acting-IsSafe beacon = safe.broadcast_ok
  acting-IsSafe data_channel = safe.broadcast_ok
  acting-IsSafe download = safe.broadcast_ok

  pub move-IsTurn :
      (server : Server c) (req : Arrival o) (token_id : Text) (handler : Handler) (stage : Stage o)
      → IsReady o.uuid server.endpoint server.heap
      → IsHeld o server.heap stage
      → 0 < rank o stage
      → IsTurn o safe server (rank o stage) (move o server req token_id handler stage)
  unfolding move
  move-IsTurn server req token_id handler arrived ready held more =
      start-IsTurn server req token_id handler ready
  move-IsTurn server req token_id handler (tokened token) ready held more =
      make_entity-IsTurn o safe server token ready
  move-IsTurn server req token_id handler (made token e) ready held more =
      enter-IsTurn o safe server token e ready held
  move-IsTurn server req token_id handler (found e) ready held more =
      take-IsTurn server req token_id e ready held
  move-IsTurn server req token_id handler (moved e message sent) ready held more =
      act-IsTurn (acting c handler) (acting_failed handler) server req e message sent
        (acting-IsSafe handler) ready held
  move-IsTurn server req token_id handler (finished answered) ready held more =
      absurd (omega (arith, more))

  -- The same, for a request that may be finished, which does nothing any more.
  pub move_kept :
      (server : Server c) (req : Arrival o) (token_id : Text) (handler : Handler) (stage : Stage o)
      → IsReady o.uuid server.endpoint server.heap
      → IsHeld o server.heap stage
      → (stage' : Stage o) × (server' : Server c) × (move o server req token_id handler stage
          ≡ some (stage', server'))
        × IsStep o.uuid server.endpoint server.heap server'.endpoint server'.heap
        × IsHeld o server'.heap stage'
  unfolding move
  move_kept server req token_id handler (finished answered) ready held =
      (finished answered, server, refl, stays o safe server ready, tt)
  move_kept server req token_id handler arrived ready held =
      let (stage', server', taken, step, held', less) =
        move-IsTurn server req token_id handler arrived ready held (omega arith) in
      (stage', server', taken, step, held')
  move_kept server req token_id handler (tokened token) ready held =
      let (stage', server', taken, step, held', less) =
        move-IsTurn server req token_id handler (tokened token) ready held (omega arith) in
      (stage', server', taken, step, held')
  move_kept server req token_id handler (made token e) ready held =
      let (stage', server', taken, step, held', less) =
        move-IsTurn server req token_id handler (made token e) ready held (omega arith) in
      (stage', server', taken, step, held')
  move_kept server req token_id handler (found e) ready held =
      let (stage', server', taken, step, held', less) =
        move-IsTurn server req token_id handler (found e) ready held (omega arith) in
      (stage', server', taken, step, held')
  move_kept server req token_id handler (moved e message sent) ready held =
      let (stage', server', taken, step, held', less) =
        move-IsTurn server req token_id handler (moved e message sent) ready held (omega arith) in
      (stage', server', taken, step, held')
