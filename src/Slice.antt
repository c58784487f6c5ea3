-- ===== src/Slice.antt =====
-- Go's slices of a numeric type: a window on an array in memory, which copies of the slice share.
-- An array is an address; its cells are there as long as anything points to it.
pub mod Laws
use envisilab.Base.{
  ℕ, zero, suc, ◌+◌, ◌<◌, ltb, if◌then◌else◌, ◌==◌, nat_eq, List, [], ◌∷◌, ◌++◌, length, take, drop,
  replicate,
}

pub record Memory : Type 0 where
  pub next : ℕ
  pub array : ℕ → List ℕ

pub record Slice : Type 0 where
  pub base : ℕ
  pub len : ℕ
  pub cap : ℕ

-- a[i] = v
unfoldable pub set : List ℕ → ℕ → ℕ → List ℕ
set [] i v = []
set (x ∷ xs) zero v = v ∷ xs
set (x ∷ xs) (suc i) v = x ∷ set xs i v

abbrev pub store : Memory → ℕ → List ℕ → Memory
store m base cells = record m { array = λ a. if base == a then cells else m.array a }

-- What a `range` over the slice, or an index, finds.
unfoldable pub contents : Memory → Slice → List ℕ
contents m s = take s.len (m.array s.base)

-- make([]T, 0, cap)
unfoldable pub make : Memory → ℕ → Slice × Memory
make m cap = (
  record { base = m.next; len = 0; cap = cap },
  record (store m m.next (replicate cap 0)) { next = suc m.next },
)

-- s[:0]
unfoldable pub clear : Slice → Slice
clear s = record s { len = 0 }

-- `append(s, x)`: within the capacity it writes to the array that the slice stands on, and past it
-- to a new array, of a capacity that the runtime chooses by `grow`.
unfoldable pub append : (ℕ → ℕ) → Memory → Slice → ℕ → Slice × Memory
unfolding set
append grow m s x =
    if ltb s.len s.cap
    then (record s { len = suc s.len }, store m s.base (set (m.array s.base) s.len x))
    else (let cells = take s.len (m.array s.base) ++ x ∷ replicate (grow s.len) 0 in
        (
          record { base = m.next; len = suc s.len; cap = suc s.len + grow s.len },
          record (store m m.next cells) { next = suc m.next },
        ))

unfoldable pub append_all : (ℕ → ℕ) → Memory → Slice → List ℕ → Slice × Memory
unfolding append
append_all grow m s [] = (s, m)
append_all grow m s (x ∷ xs) = let (s', m') = append grow m s x in append_all grow m' s' xs
