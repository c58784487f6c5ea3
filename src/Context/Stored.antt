-- ===== src/Context/Stored.antt =====
-- core/context.go: `DataStoreContext` as a `Context`.
use envisilab.Base.{
  ℕ, ◌≡◌, refl, ap, ◌∙◌, Option, none, some, inl, inr, ◌<◌, List, nat_eq, eq_self, arith, Bytes,
  Text, Error,
}
use envisilab.Redis.{Pool, PubSub}
use envisilab.Uuid.{Uuid}
use envisilab.DataStore.{Sql}
use envisilab.Topology
use envisilab.Slice.{contents}
use envisilab.Cell.{Entity, make_entity}
use envisilab.Heap.{Objects, Heap, allocate}
use envisilab.Context.{DataStoreContext}
use envisilab.Context.Total.{create_entity_cases, broadcast_present, get_data_present}
use envisilab.Context
use envisilab.Heap.Kept.{Keeps, Keeps-refl, allocate-Keeps, allocate_there}
use envisilab.Context.Interface.{ContextOps, IsContext, IsSound}

-- The pointer to an entity that a function returns.
unfoldable pub point_to : Objects → Option Entity → Option ℕ × Objects
unfolding allocate
point_to objs none = (none, objs)
point_to objs (some e) = let (a, objs') = allocate objs e in (some a, objs')

module _ (p : Pool) (ps : PubSub) (sql : Sql) (u : Uuid) (order : List Text → List Text) where
  abbrev pub data_store_ops : ContextOps
  data_store_ops = record {
    State = DataStoreContext p ps sql;
    create_token = λ ctx random client_id. Context.create_token u ctx random client_id;
    create_entity = λ ctx heap token_id user_agent.
        elim (Context.create_entity u ctx heap.memory token_id user_agent) [
          | none ↦ none
          | some ((made, err), (ctx', m)) ↦
              let (entity, objs) = point_to heap.objects made in
              some ((entity, err), (ctx', record { memory = m; objects = objs }))
        ];
    get_client_id = λ ctx token_id. Context.get_client_id u ctx token_id;
    subscribe_to_cell = λ ctx heap conn cell.
        let (ctx', err) =
          Context.subscribe_to_cell order ctx conn (contents heap.memory cell.cell_group) in
        (err, ctx', heap);
    subscribe_to_group = λ ctx conn group_id.
        let (ctx', err) = Context.subscribe_to_group order ctx conn group_id in (err, ctx');
    unsubscribe_from_groups =
        λ ctx conn. let (ctx', err) = Context.unsubscribe_from_groups order ctx conn in (err, ctx');
    unsubscribe = λ ctx conn. let (ctx', err) = Context.unsubscribe order ctx conn in (err, ctx');
    standby = λ ctx heap now a message.
        some (Context.standby ctx (heap.objects.entity a) message, ctx, heap);
    broadcast = λ ctx heap now a message.
        elim (Context.broadcast ctx (heap.objects.entity a) message) [
          | none ↦ none
          | some (err, ctx') ↦ some (err, ctx', heap)
        ];
    get_data = λ ctx token_id. Context.get_data u ctx token_id;
  }

  pub data_store_ops-IsContext : IsContext data_store_ops
  unfolding Context.create_token Topology.create_token Context.create_entity point_to allocate
      make_entity
  data_store_ops-IsContext = record {
    token-create_token = λ s s' drawn token client failed e. ground arith;
    token-create_entity = λ s s' h h' token user_agent a e. ground (arith, eq_self h.objects.next);
  }

  data_store_create_ok :
      (s : DataStoreContext p ps sql) (h : Heap) (token : Bytes) (user_agent : ℕ)
      → (e : Option ℕ) × (err : Error) × (s' : DataStoreContext p ps sql) × (h' : Heap)
        × (data_store_ops.create_entity s h token user_agent ≡ some ((e, err), (s', h')))
        × Keeps h h'
        × (err ≡ none
            → (a : ℕ) × (e ≡ some a)
              × (a < h'.objects.next)
              × ((h'.objects.entity a).token_id ≡ token))
  unfolding point_to
  data_store_create_ok s h token user_agent =
      elim (create_entity_cases u s h.memory token user_agent) [
        | inl (err, s', bad) ↦ (
          none,
          some err,
          s',
          record h { objects = h.objects },
          ground (arith, bad),
          Keeps-refl h,
          λ fine. absurd (ground (arith, fine)),
        )
        | inr (entity, s', m, made, named) ↦ (
          some h.objects.next,
          none,
          s',
          _,
          ground (arith, made),
          allocate-Keeps h m entity,
          λ fine. (
            h.objects.next,
            refl,
            (allocate_there h.objects entity).0,
            ap (λ (e : Entity). e.token_id) (allocate_there h.objects entity).1 ∙ named,
          ),
        )
      ]

  pub data_store_ops-IsSound : IsSound data_store_ops
  data_store_ops-IsSound = record {
    create_entity_ok = data_store_create_ok;
    standby_ok = λ s h now a message. (_, s, h, refl, Keeps-refl h);
    broadcast_ok = λ s h now a message.
        let ((err, s'), done) = broadcast_present s (h.objects.entity a) message in
        (err, s', h, ground (arith, done), Keeps-refl h);
    get_data_ok = λ s token. let ((r, s'), done) = get_data_present u s token in (r, s', done);
  }
