-- ===== src/Slice/Laws.antt =====
-- What appending to a slice makes of it, and of the array below it.
use mathlib.Core.List.{append_assoc, append-nil}
use envisilab.Base.{
  ℕ, zero, suc, ◌+◌, ◌<◌, ◌≤◌, ◌≡◌, refl, ap, sym, ◌∙◌, nat_eq, eq_iff, List, [], ◌∷◌, ◌++◌, length,
  take, drop, replicate, arith, length-append, length-replicate, length-take, take-append,
  take-append-drop, eq_self,
}
use envisilab.Slice.{Memory, Slice, set, store, contents, append, append_all}

length-set : (xs : List ℕ) (i v : ℕ) → length (set xs i v) ≡ length xs
unfolding set
length-set [] i v = refl
length-set (x ∷ xs) zero v = refl
length-set (x ∷ xs) (suc i) v = ap suc (length-set xs i v)

take-set : (xs : List ℕ) (i v : ℕ) → i < length xs → take (suc i) (set xs i v) ≡ take i xs ++ v ∷ []
unfolding set
take-set [] i v h = elim h [ ]
take-set (x ∷ xs) zero v h = refl
take-set (x ∷ xs) (suc i) v h = ap (◌∷◌ x) (take-set xs i v (omega arith))

drop-set : (xs : List ℕ) (i k v : ℕ) → i < k → drop k (set xs i v) ≡ drop k xs
unfolding set
drop-set xs i zero v h = elim h [ ]
drop-set [] i (suc k) v h = refl
drop-set (x ∷ xs) zero (suc k) v h = refl
drop-set (x ∷ xs) (suc i) (suc k) v h = drop-set xs i k v (omega arith)

take-suc-append :
    (n : ℕ) (xs ys : List ℕ) (x : ℕ) → length xs ≡ n → take (suc n) (xs ++ x ∷ ys) ≡ xs ++ x ∷ []
take-suc-append n xs ys x h =
    rw append_assoc at
      (take-append (suc n) (xs ++ x ∷ []) ys (omega (arith, length-append xs (x ∷ []))))

-- The slice stands on an array of its capacity, and its length is within it.
pub record IsSlice (m : Memory) (s : Slice) : Type 0 where
  pub cells : length (m.array s.base) ≡ s.cap
  pub within : s.len ≤ s.cap
  pub there : s.base < m.next

module _ (grow : ℕ → ℕ) where
  append-IsSlice :
      (m : Memory) (s : Slice) (x : ℕ)
      → IsSlice m s
      → IsSlice (append grow m s x).1 (append grow m s x).0
  unfolding append
  append-IsSlice m s x v = ground (
    arith,
    length-set (m.array s.base) s.len x,
    length-append (take s.len (m.array s.base)) (x ∷ replicate (grow s.len) 0),
    length-replicate {A = ℕ} (grow s.len) 0,
    length-take s.len (m.array s.base),
    eq_iff s.base s.base,
    eq_iff m.next m.next,
  )

  contents-append :
      (m : Memory) (s : Slice) (x : ℕ)
      → IsSlice m s
      → contents (append grow m s x).1 (append grow m s x).0 ≡ contents m s ++ x ∷ []
  unfolding append contents
  contents-append m s x v =
      let cells = m.array s.base in
      let zeros : List ℕ = replicate (grow s.len) 0 in
      ground (
        arith,
        take-set cells s.len x,
        take-suc-append s.len (take s.len cells) zeros x,
        length-take s.len cells,
        eq_iff s.base s.base,
        eq_iff m.next m.next,
      )

  -- Appending a list to a slice puts it behind what was there, whatever the capacity.
  pub contents-append_all :
      (m : Memory) (s : Slice) (xs : List ℕ)
      → IsSlice m s
      → let (s', m') = append_all grow m s xs in
        (contents m' s' ≡ contents m s ++ xs) × IsSlice m' s'
  unfolding append_all
  contents-append_all m s [] v = (sym (append-nil (contents m s)), v)
  contents-append_all m s (x ∷ xs) v =
      let (s1, m1) = append grow m s x in
      let (rest, v') = contents-append_all m1 s1 xs (append-IsSlice m s x v) in
      (
        rest
            ∙ ap (λ (l : List ℕ). l ++ xs) (contents-append m s x v)
            ∙ append_assoc (contents m s) (x ∷ []) xs,
        v',
      )

  append_within :
      (m : Memory) (s : Slice) (x : ℕ)
      → s.len < s.cap
      → append grow m s x
        ≡ (record s { len = suc s.len }, store m s.base (set (m.array s.base) s.len x))
  unfolding append
  append_within m s x h = ground arith

  -- Within its capacity a slice stays on its array, and the array takes the new elements.
  pub append_all_within :
      (m : Memory) (s : Slice) (xs : List ℕ)
      → IsSlice m s
      → s.len + length xs ≤ s.cap
      → let cells = m.array s.base in
        let (s', m') = append_all grow m s xs in
        (s'.base ≡ s.base)
        × (m'.array s.base ≡ take s.len cells ++ (xs ++ drop (s.len + length xs) cells))
  unfolding append_all
  append_all_within m s [] v h =
      let z : s.len + 0 ≡ s.len = omega arith in
      (refl, rw z (sym (take-append-drop s.len (m.array s.base))))
  append_all_within m s (x ∷ xs) v h =
      let s1 : Slice = record s { len = suc s.len } in
      let m1 = store m s.base (set (m.array s.base) s.len x) in
      let e = append_within m s x (omega arith) in
      let v1 : IsSlice m1 s1 = rw e at (append-IsSlice m s x v) in
      let (stays, cells) = append_all_within m1 s1 xs v1 (omega arith) in
      let a = m.array s.base in
      let here : m1.array s.base ≡ set a s.len x = rw (eq_self s.base) in
      let shift : suc s.len + length xs ≡ s.len + suc (length xs) = omega arith in
      rw (e, append_all)
        (
          stays,
          cells
              ∙ rw
                  (
                    here,
                    take-set a s.len x (omega (arith, v.cells)),
                    drop-set a s.len (suc s.len + length xs) x (omega arith),
                    shift,
                  )
                  (append_assoc (take s.len a) (x ∷ []) _),
        )

-- A slice in order has as many elements as its length says.
pub length-contents : (m : Memory) (s : Slice) → IsSlice m s → length (contents m s) ≡ s.len
unfolding contents
length-contents m s v = omega (arith, length-take s.len (m.array s.base), v.cells, v.within)
