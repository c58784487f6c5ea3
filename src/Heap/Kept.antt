-- ===== src/Heap/Kept.antt =====
-- What stays as it was on the heap when entities are made and moved (core/entity.go).
use envisilab.Base.{ℕ, ◌<◌, ◌≤◌, ◌≡◌, refl, ◌∙◌, nat_eq, eq_iff, eq_self, arith, Bytes}
use envisilab.Location.{Location}
use envisilab.Slice.{Memory}
use envisilab.Cell.{S2, Cell, Entity, update_entity}
use envisilab.Cell
use envisilab.Heap.{Objects, Heap, allocate, assign, update_at}

abbrev pub token : Heap → ℕ → Bytes
token heap a = (heap.objects.entity a).token_id

-- No entity goes, and none changes its token.
pub record Keeps (heap heap' : Heap) : Type 0 where
  pub next : heap.objects.next ≤ heap'.objects.next
  pub tokens : (a : ℕ) → a < heap.objects.next → token heap' a ≡ token heap a

pub Keeps-refl : (heap : Heap) → Keeps heap heap
Keeps-refl heap = record { next = omega arith; tokens = λ a h. refl }

pub Keeps-trans : (h1 h2 h3 : Heap) → Keeps h1 h2 → Keeps h2 h3 → Keeps h1 h3
Keeps-trans h1 h2 h3 v w = record {
  next = omega (arith, v.next, w.next);
  tokens = λ a h. w.tokens a (omega (arith, v.next)) ∙ v.tokens a h;
}

pub update_at-Keeps :
    (s2 : S2) (grow : ℕ → ℕ) (heap : Heap) (p : ℕ) (loc : Location)
    → Keeps heap (update_at s2 grow heap p loc).1
unfolding update_at assign update_entity Cell.changed Cell.update_bounding_cells
update_at-Keeps s2 grow heap p loc = record {
  next = ground arith;
  tokens = λ a h. ground (arith, eq_iff p a);
}

-- A new entity, whatever becomes of the arrays.
pub allocate-Keeps :
    (heap : Heap) (m : Memory) (e : Entity)
    → Keeps heap (record { memory = m; objects = (allocate heap.objects e).1 })
unfolding allocate
allocate-Keeps heap m e = record {
  next = omega arith;
  tokens = λ a h. ground (arith, eq_iff heap.objects.next a);
}

pub allocate_there :
    (objs : Objects) (e : Entity)
    → (objs.next < (allocate objs e).1.next) × ((allocate objs e).1.entity objs.next ≡ e)
unfolding allocate
allocate_there objs e = (omega arith, ground (arith, eq_self objs.next))
