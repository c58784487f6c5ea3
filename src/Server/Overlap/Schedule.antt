-- ===== src/Server/Overlap/Schedule.antt =====
-- Overlapping requests by evaluation: the turns in a given order.
use envisilab.Base.{
  ℕ, Option, none, some, inl, inr, Option-cases, List, [], ◌∷◌, nat_eq, ◌==◌, if◌then◌else◌, Text,
}
use envisilab.Heap.{Heap}
use envisilab.Context.Interface.{ContextOps}
use envisilab.Server.{Outside, Handler, Arrival, Server}
use envisilab.Server.Overlap.{Stage}
use envisilab.Server.Overlap.Reachable.{System, turn, Reach, later, move_of}

module _ (o : Outside) {c : ContextOps} (reqs : ℕ → Arrival o) (route : ℕ → Text × Handler) where
  -- The turn of a request that would panic is left out.
  abbrev pub after_turn : System o c → ℕ → Option (Stage o × Server c) → System o c
  after_turn sys i none = sys
  after_turn sys i (some (stage, server)) = record {
    server = server;
    stage = λ j. if i == j then stage else sys.stage j;
  }

  unfoldable pub run : System o c → List ℕ → System o c
  run sys [] = sys
  run sys (i ∷ is) = run (after_turn sys i (move_of o reqs route sys i)) is

  pub Reach-after_turn :
      {ctx : c.State} {heap : Heap} {sys : System o c} (i : ℕ)
      → Reach o reqs route ctx heap sys
      → Reach o reqs route ctx heap (after_turn sys i (move_of o reqs route sys i))
  Reach-after_turn {sys = sys} i r = elim (Option-cases (move_of o reqs route sys i)) [
    | inl nothing ↦ rw nothing r
    | inr ((stage, server), taken) ↦ rw taken (later r (turn i taken))
  ]

  pub Reach-run :
      {ctx : c.State} {heap : Heap} {sys : System o c} (is : List ℕ)
      → Reach o reqs route ctx heap sys
      → Reach o reqs route ctx heap (run sys is)
  unfolding run
  Reach-run [] r = r
  Reach-run {ctx} {heap} {sys} (i ∷ is) r =
      Reach-run {ctx = ctx} {heap = heap} {sys = after_turn sys i (move_of o reqs route sys i)} is
        (Reach-after_turn i r)
