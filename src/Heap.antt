-- ===== src/Heap.antt =====
-- What the pointers of the program point to: entities (core/entity.go) and the arrays of slices.
pub mod Kept
pub mod Moved
use envisilab.Base.{ℕ, suc, Option, if◌then◌else◌, ◌==◌, nat_eq}
use envisilab.Location.{Location}
use envisilab.Slice.{Memory}
use envisilab.Cell.{S2, Cell, Entity, update_entity}

-- An address below `next` is taken.
pub record Objects : Type 0 where
  pub next : ℕ
  pub entity : ℕ → Entity

pub record Heap : Type 0 where
  pub memory : Memory
  pub objects : Objects

-- `return &Entity{...}`
unfoldable pub allocate : Objects → Entity → ℕ × Objects
allocate objs e = (
  objs.next,
  record { next = suc objs.next; entity = λ a. if objs.next == a then e else objs.entity a },
)

-- `*p = e`
unfoldable pub assign : Objects → ℕ → Entity → Objects
assign objs p e = record objs { entity = λ a. if p == a then e else objs.entity a }

-- `Update` of the entity at an address. The cell is what it offers to its subscription.
unfoldable pub update_at : S2 → (ℕ → ℕ) → Heap → ℕ → Location → Option Cell × Heap
unfolding assign
update_at s2 grow heap p loc =
    let (e, sent, m) = update_entity s2 grow heap.memory (heap.objects.entity p) loc in
    (sent, record { memory = m; objects = assign heap.objects p e })
