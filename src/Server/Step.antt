-- ===== src/Server/Step.antt =====
-- The invariant of the endpoint of core/http.go, and what no request takes away.
use envisilab.Base.{
  ℕ, ◌<◌, ◌≡◌, sym, ◌∙◌, true, Option, some, is_some, inl, inr, Bool-cases, nat_eq, list_eq, eq_iff,
  if◌then◌else◌, ◌==◌, arith, Text,
}
use envisilab.Base.Dict.{get-set, get-empty}
use envisilab.Base.Dict
use envisilab.Uuid.{Uuid}
use envisilab.Heap.{Heap}
use envisilab.Heap.Kept.{Keeps, Keeps-trans}
use envisilab.Context.Interface.{ContextOps}
use envisilab.Endpoint.{Endpoint, make_endpoint}

-- What an entry of the map holds: the address of an entity that is there, and whose token prints as
-- the key.
abbrev pub Holds : Uuid → Heap → Text → Option ℕ → Type 0
Holds u heap key e =
    (a : ℕ) × (e ≡ some a)
    × (a < heap.objects.next)
    × (u.string (heap.objects.entity a).token_id ≡ key)

module _ (u : Uuid) {c : ContextOps} where
  abbrev pub IsReady : Endpoint c → Heap → Type 0
  IsReady ep heap =
      (key : Text) (e : Option ℕ) → Dict.get ep.entities key ≡ some e → Holds u heap key e

  -- A step of the endpoint: it stays ready, and no token is forgotten.
  pub record IsStep (ep : Endpoint c) (heap : Heap) (ep' : Endpoint c) (heap' : Heap) : Type 0 where
    pub ready : IsReady ep' heap'
    pub keeps : Keeps heap heap'
    pub known :
        (key : Text)
        → is_some (Dict.get ep.entities key) ≡ true
        → is_some (Dict.get ep'.entities key) ≡ true

  -- The entities of the map are the same, and those of the heap are kept.
  pub IsStep-same :
      (ep ep' : Endpoint c) (heap heap' : Heap)
      → ep'.entities ≡ ep.entities
      → Keeps heap heap'
      → IsReady ep heap
      → IsStep ep heap ep' heap'
  IsStep-same ep ep' heap heap' same kept ready = record {
    ready = λ key e there.
        let (a, is, below, named) = ready key e (rw (sym same) there) in
        (a, is, omega (arith, below, kept.next), rw (kept.tokens a below) named);
    keeps = kept;
    known = λ key there. rw same there;
  }

  pub IsStep-trans :
      (ep1 ep2 ep3 : Endpoint c) (h1 h2 h3 : Heap)
      → IsStep ep1 h1 ep2 h2
      → IsStep ep2 h2 ep3 h3
      → IsStep ep1 h1 ep3 h3
  IsStep-trans ep1 ep2 ep3 h1 h2 h3 v w = record {
    ready = w.ready;
    keeps = Keeps-trans h1 h2 h3 v.keeps w.keeps;
    known = λ key there. w.known key (v.known key there);
  }

  -- A new entity in the map, under its token.
  pub IsStep-set :
      (ep ep' : Endpoint c) (heap heap' : Heap) (a : ℕ) (key : Text)
      → ep'.entities ≡ Dict.set ep.entities key (some a)
      → Keeps heap heap'
      → Holds u heap' key (some a)
      → IsReady ep heap
      → IsStep ep heap ep' heap'
  IsStep-set ep ep' heap heap' a key entered kept made ready = record {
    ready = λ other e there.
        let found : (if key == other then some (some a) else Dict.get ep.entities other) ≡ some e =
          sym (get-set ep.entities key other (some a)) ∙ rw (sym entered) there in
        elim (Bool-cases (key == other)) [
          | inl this ↦
              let (b, is, below, named) = made in
              let same : key ≡ other = (eq_iff key other).0 this in
              let entry : some a ≡ e = ground (arith, found, this) in
              (b, sym entry ∙ is, below, named ∙ same)
          | inr that ↦
              let (b, is, below, named) = ready other e (ground (arith, found, that)) in
              (b, is, omega (arith, below, kept.next), rw (kept.tokens b below) named)
        ];
    keeps = kept;
    known = λ other there. ground (arith, entered, get-set ep.entities key other (some a));
  }

pub make_endpoint-IsReady :
    (u : Uuid) (c : ContextOps) (ctx : c.State) (heap : Heap)
    → IsReady u (make_endpoint {c = c} ctx) heap
unfolding make_endpoint
make_endpoint-IsReady u c ctx heap key e there =
    absurd (ground (arith, get-empty {V = Option ℕ} key))
