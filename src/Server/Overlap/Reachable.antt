-- ===== src/Server/Overlap/Reachable.antt =====
-- The states that overlapping requests on a service of core/http.go can reach.
use envisilab.Base.{
  ℕ, ◌<◌, ◌≤◌, ◌≡◌, Bool-cases, Option, some, inl, inr, ◌==◌, nat_eq, list_eq, if◌then◌else◌, arith,
  Text,
}
use envisilab.Heap.{Heap}
use envisilab.Context.Interface.{ContextOps, IsSound}
use envisilab.Server.{Outside, Handler, Arrival, Server, make_server}
use envisilab.Server.Step.{IsReady, IsStep, make_endpoint-IsReady}
use envisilab.Server.Overlap.{Stage, arrived, move}
use envisilab.Server.Overlap.Invariant.{IsHeld, IsHeld-Keeps, rank, rank_bound}
use envisilab.Server.Overlap.Turns.{move-IsTurn, move_kept}

-- The requests in flight, by number; one that nobody sends never has a turn.
pub record System (o : Outside) (c : ContextOps) : Type 0 where
  pub server : Server c
  pub stage : ℕ → Stage o

module _ (o : Outside) {c : ContextOps} (reqs : ℕ → Arrival o) (route : ℕ → Text × Handler) where
  abbrev pub move_of : System o c → ℕ → Option (Stage o × Server c)
  move_of sys i = move o sys.server (reqs i) (route i).0 (route i).1 (sys.stage i)

  -- A turn of the request `i`.
  pub data Step (sys : System o c) : System o c → Type 0 where
    turn :
        (i : ℕ) {stage : Stage o} {server : Server c}
        → move_of sys i ≡ some (stage, server)
        → Step sys (record { server = server; stage = λ j. if i == j then stage else sys.stage j })

  pub data Reach (ctx : c.State) (heap : Heap) : System o c → Type 0 where
    fresh : Reach ctx heap (record { server = make_server o ctx heap; stage = λ i. arrived })
    later : {s t : System o c} → Reach ctx heap s → Step s t → Reach ctx heap t

  module _ (safe : IsSound c) where
    pub record IsSafe (sys : System o c) : Type 0 where
      pub ready : IsReady o.uuid sys.server.endpoint sys.server.heap
      pub held : (i : ℕ) → IsHeld o sys.server.heap (sys.stage i)

    -- A turn that was taken is the one that the request had.
    pub turn_taken :
        (sys : System o c) (i : ℕ) (stage : Stage o) (server : Server c)
        → IsSafe sys
        → move_of sys i ≡ some (stage, server)
        → IsStep o.uuid sys.server.endpoint sys.server.heap server.endpoint server.heap
          × IsHeld o server.heap stage
    turn_taken sys i stage server v e =
        let (stage1, server1, taken, step, held) =
          move_kept o safe sys.server (reqs i) (route i).0 (route i).1 (sys.stage i) v.ready
            (v.held i) in
        let same_stage : stage ≡ stage1 = ground (arith, e, taken) in
        let same_server : server ≡ server1 = ground (arith, e, taken) in
        rw (same_stage, same_server) (step, held)

    Step-IsSafe : {s t : System o c} → Step s t → IsSafe s → IsSafe t
    Step-IsSafe {s} (turn i {stage} {server} e) v =
        let (step, held) = turn_taken s i stage server v e in
        record {
          ready = step.ready;
          held = λ j. elim (Bool-cases (i == j)) [
            | inl this ↦ rw this held
            | inr other ↦
                rw other
                  (IsHeld-Keeps o s.server.heap server.heap (s.stage j) step.keeps (v.held j))
          ];
        }

    pub Reach-IsSafe : {ctx : c.State} {heap : Heap} {s : System o c} → Reach ctx heap s → IsSafe s
    unfolding make_server
    Reach-IsSafe {ctx} {heap} fresh = record {
      ready = make_endpoint-IsReady o.uuid c ctx heap;
      held = λ i. tt;
    }
    Reach-IsSafe (later r step) = Step-IsSafe step (Reach-IsSafe r)

    -- However requests overlap on a service that was just started, at each point: every token that the
    -- endpoint knows is that of an entity that is there, under that very token; and a request that has
    -- no answer yet can take its next turn, with no panic, which brings it nearer to its answer. A
    -- request has three turns at most.
    pub reach_turns :
        (ctx : c.State) (heap : Heap) (sys : System o c)
        → Reach ctx heap sys
        → IsReady o.uuid sys.server.endpoint sys.server.heap
          × ((i : ℕ)
              → 0 < rank o (sys.stage i)
              → (stage : Stage o) × (server : Server c) × (move_of sys i ≡ some (stage, server))
                × (rank o stage < rank o (sys.stage i)))
          × ((i : ℕ) → rank o (sys.stage i) ≤ 3)
    reach_turns ctx heap sys r =
        let v = Reach-IsSafe r in
        (
          v.ready,
          λ i more.
              let (stage, server, taken, step, held, less) =
                move-IsTurn o safe sys.server (reqs i) (route i).0 (route i).1 (sys.stage i) v.ready
                  (v.held i) more in
              (stage, server, taken, less),
          λ i. rank_bound o (sys.stage i),
        )
