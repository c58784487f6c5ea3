-- ===== src/Endpoint.antt =====
-- core/http.go, `Endpoint`: the map of entities behind the handlers, and the test of a client's clock.
-- An `*Entity` is an address, or `nil`.
pub mod Entities
pub mod Clock
pub mod Http
pub mod Sync
pub mod UserData
pub mod Download
pub mod Data
use envisilab.Base.{
  ℕ, suc, Bool, true, false, not, ◌||◌, Option, none, some, is_some, List, [], ◌∷◌, ◌++◌, ◌==◌,
  nat_eq, list_eq, if◌then◌else◌, Bytes, Text, Error, text,
}
use envisilab.Base.Int.{ℤ, pos, ltb_ℤ, add64, sub64}
use envisilab.Base.Dict.{Dict}
use envisilab.Base.Dict
use envisilab.Uuid.{Uuid}
use envisilab.Heap.{Heap, Objects}
use envisilab.Cell.{expired}
use envisilab.Context.Interface.{ContextOps}

abbrev pub tolerance_sec : ℤ
tolerance_sec = pos 5

-- `now` is `time.Now().Unix()`.
unfoldable pub in_sync : ℤ → ℤ → Bool
in_sync now t = not (ltb_ℤ (add64 now tolerance_sec) t || ltb_ℤ t (sub64 now tolerance_sec))

-- The method looks at nothing, so that it may be called on `nil`.
unfoldable pub is_expired : Objects → Option ℕ → Bool
is_expired objs none = false
is_expired objs (some a) = expired (objs.entity a)

-- The loop of `Cleanup` over the keys.
unfoldable pub clean : Objects → Dict Text (Option ℕ) → List Text → Dict Text (Option ℕ)
clean objs entities [] = entities
clean objs entities (s ∷ ss) =
    let gone : Bool = elim (Dict.get entities s) [ none ↦ false | some e ↦ is_expired objs e ] in
    clean objs (if gone then Dict.delete entities s else entities) ss

module _ (c : ContextOps) where
  pub record Endpoint : Type 0 where
    pub ctx : c.State
    pub entities : Dict Text (Option ℕ)

module _ {c : ContextOps} where
  unfoldable pub make_endpoint : c.State → Endpoint c
  make_endpoint ctx = record { ctx = ctx; entities = Dict.empty }

  -- `random` is what `uuid.NewRandom` returns. The result `none` is a panic in the context.
  unfoldable pub create_entity :
      Uuid
      → Endpoint c
      → Heap
      → Bytes × Error
      → Bytes
      → ℕ
      → Option ((Option ℕ × Error) × (Endpoint c × Heap))
  create_entity u endpoint heap random client_id user_agent =
      let (token_id, ctx_err, ctx1) = c.create_token endpoint.ctx random client_id in
      if is_some ctx_err
      then some ((none, ctx_err), (record endpoint { ctx = ctx1 }, heap))
      else elim (c.create_entity ctx1 heap token_id user_agent) [
        | none ↦ none
        | some ((entity, err), (ctx2, heap')) ↦
            if is_some err
            then some ((none, err), (record endpoint { ctx = ctx2 }, heap'))
            else (let entities = Dict.set endpoint.entities (u.string token_id) entity in
                some ((entity, none), (record { ctx = ctx2; entities = entities }, heap')))
      ]

  unfoldable pub get_entity : Endpoint c → Text → Option ℕ × Error
  get_entity endpoint token_id = elim (Dict.get endpoint.entities token_id) [
    | none ↦ (none, some (text "Could not find entity with tokenId: " ++ token_id))
    | some entity ↦ (entity, none)
  ]

  unfoldable pub cleanup : (List Text → List Text) → Objects → Endpoint c → Endpoint c
  unfolding clean
  cleanup order objs endpoint = record endpoint {
    entities = clean objs endpoint.entities (order (Dict.keys endpoint.entities));
  }
