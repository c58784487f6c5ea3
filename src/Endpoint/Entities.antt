-- ===== src/Endpoint/Entities.antt =====
-- The map of entities of core/http.go.
use envisilab.Base.{
  ℕ, ◌≡◌, ◌≢◌, Option, none, some, is_some, nat_eq, list_eq, eq_iff, eq_self, if◌then◌else◌, arith,
  Bytes, Text, Error,
}
use envisilab.Base.Dict.{Dict, get-set}
use envisilab.Base.Dict
use envisilab.Uuid.{Uuid}
use envisilab.Heap.{Heap}
use envisilab.Context.Interface.{ContextOps, IsContext}
use envisilab.Endpoint.{Endpoint, create_entity, get_entity}

module _ {c : ContextOps} (i : IsContext c) where
  entities-create_entity :
      (u : Uuid) (ep ep' : Endpoint c) (heap heap' : Heap) (token client : Bytes)
      (drawn err : Error) (user_agent : ℕ) (e : Option ℕ)
      → create_entity u ep heap (token, drawn) client user_agent ≡ some ((e, err), (ep', heap'))
      → ep'.entities
        ≡ (if is_some err then ep.entities else Dict.set ep.entities (u.string token) e)
  unfolding create_entity
  entities-create_entity u ep ep' heap heap' token client drawn err user_agent e h =
      let (t, failed, s') = c.create_token ep.ctx (token, drawn) client in
      ground (arith, i.token-create_token ep.ctx s' token t client drawn)

  -- After `CreateEntity` has returned an entity with no error, `GetEntity` finds that entity by the
  -- token that was drawn for it, and what it finds for any other token is as before. After an error
  -- nothing has changed in what it finds.
  pub get_entity-create_entity :
      (u : Uuid) (ep ep' : Endpoint c) (heap heap' : Heap) (token client : Bytes)
      (drawn err : Error) (user_agent : ℕ) (e : Option ℕ) (other : Text)
      → create_entity u ep heap (token, drawn) client user_agent ≡ some ((e, err), (ep', heap'))
      → (err ≡ none → get_entity ep' (u.string token) ≡ (e, none))
        × (err ≡ none → other ≢ u.string token → get_entity ep' other ≡ get_entity ep other)
        × (err ≢ none → get_entity ep' other ≡ get_entity ep other)
  unfolding get_entity
  get_entity-create_entity u ep ep' heap heap' token client drawn err user_agent e other h =
      let there =
        entities-create_entity u ep ep' heap heap' token client drawn err user_agent e h in
      (
        λ fine. ground (
          arith,
          there,
          fine,
          get-set ep.entities (u.string token) (u.string token) e,
          eq_self (u.string token),
        ),
        λ fine ne. ground (
          arith,
          there,
          fine,
          get-set ep.entities (u.string token) other e,
          eq_iff (u.string token) other,
        ),
        λ bad. ground (arith, there, bad),
      )
