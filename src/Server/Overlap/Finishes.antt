-- ===== src/Server/Overlap/Finishes.antt =====
-- Overlapping requests on a service of core/http.go come to their answers.
use envisilab.Base.{
  ℕ, ◌-◌, ◌≤◌, ◌≡◌, refl, sym, Bool-cases, some, inl, inr, Option-cases, List, [], ◌∷◌, ltb, ◌==◌,
  nat_eq, list_eq, eq_iff, eq_self, count, if◌then◌else◌, arith, Text,
}
use envisilab.Heap.{Heap}
use envisilab.Context.Interface.{ContextOps, IsSound}
use envisilab.Server.{Outside, Handler, Arrival, Answer}
use envisilab.Server.Overlap.{Stage, arrived, tokened, made, found, moved, finished, move}
use envisilab.Server.Overlap.Invariant.{rank, rank_bound}
use envisilab.Server.Overlap.Reachable.{System, Reach, move_of, reach_turns}
use envisilab.Server.Overlap.Schedule.{after_turn, run, Reach-after_turn}

module _ (o : Outside) where
  -- A request with no turn left has its answer.
  no_turns :
      (stage : Stage o) → rank o stage ≤ 0 → (answered : Answer o) × (stage ≡ finished answered)
  no_turns arrived h = absurd (omega arith)
  no_turns (tokened token) h = absurd (omega arith)
  no_turns (made token e) h = absurd (omega arith)
  no_turns (found e) h = absurd (omega arith)
  no_turns (moved e message sent) h = absurd (omega arith)
  no_turns (finished answered) h = (answered, refl)

module _ (o : Outside) {c : ContextOps} (reqs : ℕ → Arrival o) (route : ℕ → Text × Handler)
    (safe : IsSound c) (ctx : c.State) (heap : Heap) where
  abbrev next : System o c → ℕ → System o c
  next sys i = after_turn o reqs route sys i (move_of o reqs route sys i)

  stays :
      (sys : System o c) (i : ℕ) (answered : Answer o)
      → sys.stage i ≡ finished answered
      → move_of o reqs route sys i ≡ some (finished answered, sys.server)
  unfolding move
  stays sys i answered e = rw e refl

  own_turn :
      (sys : System o c) (i : ℕ)
      → Reach o reqs route ctx heap sys
      → rank o ((next sys i).stage i) ≤ rank o (sys.stage i) - 1
  own_turn sys i r = elim (Bool-cases (ltb 0 (rank o (sys.stage i)))) [
    | inl more ↦
        let (ready, turns, bound) = reach_turns o reqs route safe ctx heap sys r in
        let (stage, server, taken, less) = turns i (ground (arith, more)) in
        rw taken (ground (arith, less))
    | inr over ↦
        let (answered, e) = no_turns o (sys.stage i) (ground (arith, over)) in
        rw (stays sys i answered e) (ground (arith, e))
  ]

  rank-next :
      (sys : System o c) (j i : ℕ)
      → Reach o reqs route ctx heap sys
      → rank o ((next sys j).stage i) ≤ rank o (sys.stage i) - (if j == i then 1 else 0)
  rank-next sys j i r = elim (Bool-cases (j == i)) [
    | inl this ↦
        let same : i ≡ j = sym ((eq_iff j i).0 this) in rw (same, eq_self j) (own_turn sys j r)
    | inr other ↦ elim (Option-cases (move_of o reqs route sys j)) [
      | inl nothing ↦ rw (nothing, other) (omega arith)
      | inr ((stage, server), taken) ↦ rw (taken, other) (omega arith)
    ]
  ]

  rank-run :
      (is : List ℕ) (sys : System o c) (i : ℕ)
      → Reach o reqs route ctx heap sys
      → rank o ((run o reqs route sys is).stage i) ≤ rank o (sys.stage i) - count i is
  unfolding run
  rank-run [] sys i r = omega arith
  rank-run (j ∷ js) sys i r =
      omega
        (arith, rank-next sys j i r, rank-run js (next sys j) i (Reach-after_turn o reqs route j r))

  -- In whatever order overlapping requests take their turns, from any state that a service can reach:
  -- a request that has had three turns has its answer.
  pub run_answers :
      (is : List ℕ) (sys : System o c) (i : ℕ)
      → Reach o reqs route ctx heap sys
      → 3 ≤ count i is
      → (answered : Answer o) × ((run o reqs route sys is).stage i ≡ finished answered)
  run_answers is sys i r turns =
      no_turns o ((run o reqs route sys is).stage i)
        (omega (arith, turns, rank-run is sys i r, rank_bound o (sys.stage i)))
