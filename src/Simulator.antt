-- ===== src/Simulator.antt =====
-- simulator/context.go: `SimulatorContext`, which plays a peer in each cell around an entity's own.
pub mod Peers
pub mod Ops
use envisilab.Base.{
  ℕ, Bool, true, false, Option, none, some, is_some, if◌then◌else◌, ◌==◌, nat_eq, list_eq, List, [],
  ◌∷◌, Bytes, Text, Error, text,
}
use envisilab.Base.Int.{ℤ}
use envisilab.Base.Dict.{Dict}
use envisilab.Base.Dict
use envisilab.Redis.{Pool, PubSub}
use envisilab.Uuid.{Uuid}
use envisilab.Message.Header.{nil_uuid}
use envisilab.Location.{Location}
use envisilab.Slice.{Memory, contents}
use envisilab.Cell.{
  S2, Cell, Entity, make_cell, update, make_entity, set_groups, cell_center_location,
}
use envisilab.Heap.{Heap, Objects, allocate, update_at}
use envisilab.Subscriber.{Conn}
use envisilab.Topology.{Config, Group, Topology}
use envisilab.Topology
use envisilab.Context.{Activity}
use envisilab.Endpoint.UserData.{UserData}

-- `new_activity` of core/activity.go.
unfoldable pub new_activity : Activity
new_activity = record { client_id = nil_uuid; locations = [] }

-- `fresh a` are the two random UUIDs that are drawn for the entity that comes to stand at address `a`.
module _ (s2 : S2) (grow : ℕ → ℕ) (fresh : ℕ → Bytes × Bytes) where
  -- A peer in the cell `cid`.
  unfoldable pub make_peer : Heap → Config → ℕ → ℕ × Heap
  make_peer heap config cid =
      let (client_id, token_id) = fresh heap.objects.next in
      let (peer_cell, m1) = make_cell heap.memory config in
      let (peer_cell', m2) = update s2 grow m1 peer_cell cid in
      let (entity, objects) = allocate heap.objects (make_entity client_id token_id peer_cell') in
      (entity, record { memory = m2; objects = objects })

  -- The loop of `MakePeers` over the cell group.
  unfoldable pub make_peers_from : Heap → Cell → List ℕ → List ℕ × Heap
  unfolding make_peer
  make_peers_from heap cell [] = ([], heap)
  make_peers_from heap cell (cid ∷ cids) =
      let (peer, heap1) = make_peer heap cell.config cid in
      let heap2 : Heap = if cid == cell.s2cell_id then heap else heap1 in
      let (peers, heap') = make_peers_from heap2 cell cids in
      if cid == cell.s2cell_id then (peers, heap') else (peer ∷ peers, heap')

  -- The ids of the group are read once: the loop makes new arrays only.
  unfoldable pub make_peers : Heap → Cell → List ℕ × Heap
  unfolding make_peers_from
  make_peers heap cell = make_peers_from heap cell (contents heap.memory cell.cell_group)

-- `marshal` is encoding/json on the user data.
module _ (p : Pool) (ps : PubSub) (u : Uuid) (s2 : S2) (grow : ℕ → ℕ)
    (marshal : UserData → Bytes × Error) where
  -- The location of a peer in a broadcast: the centre of its cell.
  unfoldable pub peer_location : Entity → ℤ → Location
  peer_location e timestamp = record (cell_center_location s2 e.cell.s2cell_id) {
    timestamp = timestamp;
  }

  -- One peer: nobody reads what its subscription is offered, and the topology's error is dropped.
  unfoldable pub broadcast_peer : Topology p ps → Heap → ℤ → ℕ → Topology p ps × Heap
  unfolding peer_location
  broadcast_peer t heap timestamp a =
      let loc = peer_location (heap.objects.entity a) timestamp in
      let (sent, heap') = update_at s2 grow heap a loc in
      let e = heap'.objects.entity a in
      let (user_msg, err) = marshal (record { client_id = u.string e.client_id; location = loc }) in
      if is_some err
      then (t, heap')
      else (let (t', ignored) = Topology.broadcast t e.cell.s2cell_id e.groups user_msg in
          (t', heap'))

  unfoldable pub broadcast_peers : Topology p ps → Heap → ℤ → List ℕ → Topology p ps × Heap
  unfolding broadcast_peer
  broadcast_peers t heap timestamp [] = (t, heap)
  broadcast_peers t heap timestamp (a ∷ peers) =
      let (t', heap') = broadcast_peer t heap timestamp a in
      broadcast_peers t' heap' timestamp peers

module _ (p : Pool) (ps : PubSub) where
  -- The map goes from entities, by their addresses, to the entities of their peers.
  pub record SimulatorContext : Type 0 where
    pub t : Topology p ps
    pub activity : Activity
    pub peers : Dict ℕ (List ℕ)
    pub groups : List Group

module _ {p : Pool} {ps : PubSub} where
  unfoldable pub make_simulator_context : Topology p ps → SimulatorContext p ps
  make_simulator_context t = record {
    t = t;
    activity = new_activity;
    peers = Dict.empty;
    groups = record { uuid = text "gorilla-racing"; name = text "Gorillas" } ∷ [];
  }

  unfoldable pub create_token :
      Uuid → SimulatorContext p ps → Bytes × Error → Bytes → Bytes × Error × SimulatorContext p ps
  create_token u ctx random client_id =
      let (token, err, t) = Topology.create_token u ctx.t random client_id in
      (token, err, record ctx { t = t })

  unfoldable pub get_client_id :
      Uuid → SimulatorContext p ps → Bytes → Bytes × Error × SimulatorContext p ps
  get_client_id u ctx token_id =
      let (cid, err, t) = Topology.get_client_id u ctx.t token_id in
      (cid, err, record ctx { t = t })

  unfoldable pub create_entity :
      Uuid
      → SimulatorContext p ps
      → Heap
      → Bytes
      → ℕ
      → (Option ℕ × Error) × (SimulatorContext p ps × Heap)
  create_entity u ctx heap token_id user_agent =
      let (client_id, err, t) = Topology.get_client_id u ctx.t token_id in
      if is_some err
      then ((none, err), (record ctx { t = t }, heap))
      else (let (cell, m) = make_cell heap.memory t.config in
          let e = set_groups (make_entity client_id token_id cell) ctx.groups in
          let (entity, objects) = allocate heap.objects e in
          ((some entity, none), (record ctx { t = t }, record { memory = m; objects = objects })))

  module _ (order : List Text → List Text) (entity_of : Conn → ℕ) where
    unfoldable pub subscribe_to_cell :
        S2
        → (ℕ → ℕ)
        → (ℕ → Bytes × Bytes)
        → SimulatorContext p ps
        → Heap
        → Conn
        → Cell
        → Error × SimulatorContext p ps × Heap
    subscribe_to_cell s2 grow fresh ctx heap conn cell =
        let (peers, heap') = make_peers s2 grow fresh heap cell in
        let (t, err) =
          Topology.subscribe_to_cell order ctx.t conn (contents heap'.memory cell.cell_group) in
        (err, record ctx { t = t; peers = Dict.set ctx.peers (entity_of conn) peers }, heap')

    unfoldable pub unsubscribe : SimulatorContext p ps → Conn → Error × SimulatorContext p ps
    unsubscribe ctx conn =
        let entity = entity_of conn in
        let peers =
          if is_some (Dict.get ctx.peers entity) then Dict.delete ctx.peers entity else ctx.peers in
        let (t, err) = Topology.unsubscribe_all order ctx.t conn in
        (err, record ctx { t = t; peers = peers })

  unfoldable pub subscribe_to_group :
      (List Text → List Text) → SimulatorContext p ps → Conn → Text → Error × SimulatorContext p ps
  subscribe_to_group order ctx conn group_id =
      let (t, err) = Topology.subscribe_to_group order ctx.t conn group_id true in
      (err, record ctx { t = t })

  unfoldable pub unsubscribe_from_groups :
      (List Text → List Text) → SimulatorContext p ps → Conn → Error × SimulatorContext p ps
  unsubscribe_from_groups order ctx conn =
      let (t, err) = Topology.unsubscribe_from_groups order ctx.t conn in
      (err, record ctx { t = t })

  module _ (u : Uuid) (s2 : S2) (grow : ℕ → ℕ) (marshal : UserData → Bytes × Error) where
    -- `standby`: the entity's peers broadcast, where it has any.
    unfoldable pub standby :
        SimulatorContext p ps → Heap → ℤ → ℕ → Bytes → Error × SimulatorContext p ps × Heap
    standby ctx heap now entity message = elim (Dict.get ctx.peers entity) [
      | none ↦ (none, ctx, heap)
      | some peers ↦
          let (t, heap') = broadcast_peers p ps u s2 grow marshal ctx.t heap now peers in
          (none, record ctx { t = t }, heap')
    ]

    unfoldable pub broadcast :
        SimulatorContext p ps → Heap → ℤ → ℕ → Bytes → Error × SimulatorContext p ps × Heap
    broadcast ctx heap now entity message =
        let e = heap.objects.entity entity in
        let (t, err) = Topology.broadcast ctx.t e.cell.s2cell_id e.groups message in
        if is_some err
        then (err, record ctx { t = t }, heap)
        else elim (Dict.get ctx.peers entity) [
          | none ↦ (none, record ctx { t = t }, heap)
          | some peers ↦
              let (t', heap') = broadcast_peers p ps u s2 grow marshal t heap now peers in
              (none, record ctx { t = t' }, heap')
        ]

  unfoldable pub get_data :
      SimulatorContext p ps → Bytes → (Activity × Error) × SimulatorContext p ps
  get_data ctx token_id = ((ctx.activity, none), ctx)
