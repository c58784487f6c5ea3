-- ===== src/Simulator/Ops.antt =====
-- simulator/context.go: `SimulatorContext` as a `Context`.
use envisilab.Base.{
  ℕ, ◌<◌, ◌≡◌, refl, ap, none, some, inl, inr, Option-cases, [], ◌∷◌, nat_eq, eq_self, List, arith,
  Bytes, Text, Error,
}
use envisilab.Redis.{Pool, PubSub}
use envisilab.Uuid.{Uuid}
use envisilab.Topology.{Topology}
use envisilab.Topology
use envisilab.Cell.{S2, Entity, make_entity, make_cell, set_groups}
use envisilab.Base.Int.{ℤ}
use envisilab.Heap.{Heap, allocate, update_at}
use envisilab.Heap.Kept.{
  Keeps, Keeps-refl, Keeps-trans, update_at-Keeps, allocate-Keeps, allocate_there,
}
use envisilab.Subscriber.{Conn}
use envisilab.Context.Interface.{ContextOps, IsContext, IsSound}
use envisilab.Endpoint.UserData.{UserData}
use envisilab.Base.Dict
use envisilab.Simulator.{SimulatorContext, broadcast_peers, broadcast_peer, peer_location}
use envisilab.Simulator

module _ (p : Pool) (ps : PubSub) (u : Uuid) (s2 : S2) (grow : ℕ → ℕ) (fresh : ℕ → Bytes × Bytes)
    (marshal : UserData → Bytes × Error) (order : List Text → List Text)
    (entity_of : Conn → ℕ) where
  abbrev pub simulator_ops : ContextOps
  simulator_ops = record {
    State = SimulatorContext p ps;
    create_token = λ ctx random client_id. Simulator.create_token u ctx random client_id;
    create_entity = λ ctx heap token_id user_agent.
        some (Simulator.create_entity u ctx heap token_id user_agent);
    get_client_id = λ ctx token_id. Simulator.get_client_id u ctx token_id;
    subscribe_to_cell = λ ctx heap conn cell.
        Simulator.subscribe_to_cell order entity_of s2 grow fresh ctx heap conn cell;
    subscribe_to_group = λ ctx conn group_id. Simulator.subscribe_to_group order ctx conn group_id;
    unsubscribe_from_groups = λ ctx conn. Simulator.unsubscribe_from_groups order ctx conn;
    unsubscribe = λ ctx conn. Simulator.unsubscribe order entity_of ctx conn;
    standby =
        λ ctx heap now a message. some (Simulator.standby u s2 grow marshal ctx heap now a message);
    broadcast = λ ctx heap now a message.
        some (Simulator.broadcast u s2 grow marshal ctx heap now a message);
    get_data = λ ctx token_id. some (Simulator.get_data ctx token_id);
  }

  pub simulator_ops-IsContext : IsContext simulator_ops
  unfolding Simulator.create_token Topology.create_token Simulator.create_entity allocate
      make_entity set_groups
  simulator_ops-IsContext = record {
    token-create_token = λ s s' drawn token client failed e. ground arith;
    token-create_entity = λ s s' h h' token user_agent a e. ground (arith, eq_self h.objects.next);
  }

  broadcast_peers-Keeps :
      (t : Topology p ps) (heap : Heap) (now : ℤ) (peers : List ℕ)
      → Keeps heap (broadcast_peers p ps u s2 grow marshal t heap now peers).1
  unfolding broadcast_peers broadcast_peer
  broadcast_peers-Keeps t heap now [] = Keeps-refl heap
  broadcast_peers-Keeps t heap now (a ∷ peers) =
      let (t', heap') = broadcast_peer p ps u s2 grow marshal t heap now a in
      let loc = peer_location p ps u s2 grow marshal (heap.objects.entity a) now in
      let one : heap' ≡ (update_at s2 grow heap a loc).1 = ground arith in
      Keeps-trans heap heap' _ (rw one (update_at-Keeps s2 grow heap a loc))
        (broadcast_peers-Keeps t' heap' now peers)

  standby-Keeps :
      (ctx : SimulatorContext p ps) (heap : Heap) (now : ℤ) (a : ℕ) (message : Bytes)
      → Keeps heap (Simulator.standby u s2 grow marshal ctx heap now a message).2
  unfolding Simulator.standby
  standby-Keeps ctx heap now a message = elim (Option-cases (Dict.get ctx.peers a)) [
    | inl nobody ↦ rw (nobody, Simulator.standby) (Keeps-refl heap)
    | inr (peers, them) ↦ rw (them, Simulator.standby) (broadcast_peers-Keeps ctx.t heap now peers)
  ]

  broadcast-Keeps :
      (ctx : SimulatorContext p ps) (heap : Heap) (now : ℤ) (a : ℕ) (message : Bytes)
      → Keeps heap (Simulator.broadcast u s2 grow marshal ctx heap now a message).2
  unfolding Simulator.broadcast
  broadcast-Keeps ctx heap now a message =
      let e = heap.objects.entity a in
      let (t, err) = Topology.broadcast ctx.t e.cell.s2cell_id e.groups message in
      elim (Option-cases err) [
        | inr (m, bad) ↦ rw (bad, Simulator.broadcast) (Keeps-refl heap)
        | inl fine ↦ elim (Option-cases (Dict.get ctx.peers a)) [
          | inl nobody ↦ rw (fine, nobody, Simulator.broadcast) (Keeps-refl heap)
          | inr (peers, them) ↦
              rw (fine, them, Simulator.broadcast) (broadcast_peers-Keeps t heap now peers)
        ]
      ]

  simulator_create_ok :
      (s : SimulatorContext p ps) (h : Heap) (token : Bytes) (user_agent : ℕ)
      → let ((e, err), (s', h')) = Simulator.create_entity u s h token user_agent in
        Keeps h h'
        × (err ≡ none
            → (a : ℕ) × (e ≡ some a)
              × (a < h'.objects.next)
              × ((h'.objects.entity a).token_id ≡ token))
  unfolding Simulator.create_entity make_entity set_groups allocate
  simulator_create_ok s h token user_agent =
      let (client_id, err, t) = Topology.get_client_id u s.t token in
      let (cell, m) = make_cell h.memory t.config in
      let e = set_groups (make_entity client_id token cell) s.groups in
      elim (Option-cases err) [
        | inr (m, bad) ↦ rw bad (Keeps-refl h, λ fine. absurd (ground (arith, fine)))
        | inl fine ↦ rw fine (
          allocate-Keeps h m e,
          λ ok. (
            h.objects.next,
            refl,
            (allocate_there h.objects e).0,
            ap (λ (e : Entity). e.token_id) (allocate_there h.objects e).1,
          ),
        )
      ]

  pub simulator_ops-IsSound : IsSound simulator_ops
  simulator_ops-IsSound = record {
    create_entity_ok = λ s h token user_agent.
        let (kept, made) = simulator_create_ok s h token user_agent in
        (_, _, _, _, refl, kept, made);
    standby_ok = λ s h now a message. (_, _, _, refl, standby-Keeps s h now a message);
    broadcast_ok = λ s h now a message. (_, _, _, refl, broadcast-Keeps s h now a message);
    get_data_ok = λ s token. (_, _, refl);
  }
