-- ===== src/Base/Dict.antt =====
-- Go's maps, as association lists behind their laws. A `range` visits the keys once each, in an
-- order that the language leaves open: code that ranges takes the order as an argument.
use mathlib.Core.Path.{◌≡◌, refl}
use mathlib.Core.Bool.{Bool, true, false}
use mathlib.Core.Option.{Option, none, some}
use mathlib.Core.List.{List, [], ◌∷◌}
use native.Mathlib.Omega.{arith}
use envisilab.Base.Tests.{Eq, ◌==◌, eq_iff, is_some, if◌then◌else◌}
use envisilab.Base.Lists.{count}

pub record Dict {ℓ κ} (K : Type ℓ) (V : Type κ) : Type (ℓ ⊔ κ) where
  entries : List (K × V)

module _ {ℓ κ} {K : Type ℓ} {V : Type κ} where
  -- make(map[K]V)
  unfoldable pub empty : Dict K V
  empty = record { entries = [] }

  -- len(m) == 0
  unfoldable pub is_empty : Dict K V → Bool
  is_empty d = elim d.entries [ [] ↦ true | e ∷ es ↦ false ]

module _ {ℓ} {K : Type ℓ} ⦃e : Eq K⦄ where
  unfoldable pub drop_key : K → List K → List K
  drop_key k [] = []
  drop_key k (j ∷ js) = let rest = drop_key k js in if j == k then rest else j ∷ rest

  count-drop_key :
      (k j : K) (js : List K) → count j (drop_key k js) ≡ (if k == j then 0 else count j js)
  unfolding drop_key
  count-drop_key k j [] = ground arith
  count-drop_key k j (i ∷ js) =
      ground (arith, count-drop_key k j js, eq_iff i k, eq_iff i j, eq_iff k j)

module _ {ℓ κ} {K : Type ℓ} {V : Type κ} ⦃e : Eq K⦄ where
  unfoldable pub find : K → List (K × V) → Option V
  find k [] = none
  find k ((j, v) ∷ es) = if j == k then some v else find k es

  unfoldable pub without : K → List (K × V) → List (K × V)
  without k [] = []
  without k ((j, v) ∷ es) = let rest = without k es in if j == k then rest else (j, v) ∷ rest

  unfoldable pub names : List (K × V) → List K
  names [] = []
  names ((j, v) ∷ es) = j ∷ drop_key j (names es)

  -- v, ok := m[k]
  unfoldable pub get : Dict K V → K → Option V
  get d k = find k d.entries

  -- m[k] = v
  unfoldable pub set : Dict K V → K → V → Dict K V
  set d k v = record { entries = (k, v) ∷ without k d.entries }

  -- delete(m, k)
  unfoldable pub delete : Dict K V → K → Dict K V
  delete d k = record { entries = without k d.entries }

  -- The keys that `range m` visits.
  unfoldable pub keys : Dict K V → List K
  keys d = names d.entries

  find-without :
      (k j : K) (es : List (K × V)) → find j (without k es) ≡ (if k == j then none else find j es)
  unfolding find without
  find-without k j [] = ground arith
  find-without k j ((i, v) ∷ es) =
      ground (arith, find-without k j es, eq_iff i k, eq_iff i j, eq_iff k j)

  count-names :
      (k : K) (es : List (K × V)) → count k (names es) ≡ (if is_some (find k es) then 1 else 0)
  unfolding names find
  count-names k [] = refl
  count-names k ((j, v) ∷ es) =
      ground (arith, count-names k es, count-drop_key j k (names es), eq_iff j k)

  pub get-set :
      (d : Dict K V) (k j : K) (v : V) → get (set d k v) j ≡ (if k == j then some v else get d j)
  unfolding get set find
  get-set d k j v = ground (arith, find-without k j d.entries)

  pub get-delete :
      (d : Dict K V) (k j : K) → get (delete d k) j ≡ (if k == j then none else get d j)
  unfolding get delete
  get-delete d k j = find-without k j d.entries

  -- A `range` meets each key of the map once, and nothing else.
  pub count-keys : (d : Dict K V) (k : K) → count k (keys d) ≡ (if is_some (get d k) then 1 else 0)
  unfolding keys get
  count-keys d k = count-names k d.entries

  pub get-empty : (k : K) → get (empty {V = V}) k ≡ none
  unfolding get empty find
  get-empty k = refl

  pub is_empty-get : (d : Dict K V) (k : K) → is_empty d ≡ true → get d k ≡ none
  unfolding is_empty get find
  is_empty-get d k h = go d.entries h
    where
      go : (es : List (K × V)) → is_empty (record { entries = es }) ≡ true → find k es ≡ none
      go [] h' = refl
      go (x ∷ es) h' = cc

  -- A map with a length has a key.
  pub get-not-is_empty :
      (d : Dict K V) → is_empty d ≡ false → (k : K) × (v : V) × (get d k ≡ some v)
  unfolding is_empty get find
  get-not-is_empty d h = go d.entries h
    where
      go :
          (es : List (K × V))
          → is_empty (record { entries = es }) ≡ false
          → (k : K) × (v : V) × (find k es ≡ some v)
      go [] h' = cc
      go ((k, v) ∷ es) h' = (k, v, ground (arith, eq_iff k k))

pub ruleset dict_laws = (get-set, get-delete, get-empty)

-- m[k] of a map of maps: a missing key reads as the nil map, which has no keys.
unfoldable pub inner {ℓ κ μ} :
    {K : Type ℓ} {J : Type κ} {V : Type μ} ⦃e : Eq K⦄ → Dict K (Dict J V) → K → Dict J V
inner d k = elim (get d k) [ none ↦ empty | some m ↦ m ]

-- An order in which a `range` may meet the keys: each of them as often as it is there.
pub record IsOrder {ℓ} {K : Type ℓ} ⦃e : Eq K⦄ (order : List K → List K) : Type ℓ where
  pub same : (k : K) (ks : List K) → count k (order ks) ≡ count k ks

module _ {ℓ κ μ} {K : Type ℓ} {J : Type κ} {V : Type μ} ⦃e : Eq K⦄ where
  pub inner-set :
      (d : Dict K (Dict J V)) (k j : K) (m : Dict J V)
      → inner (set d k m) j ≡ (if k == j then m else inner d j)
  unfolding inner
  inner-set d k j m = ground (arith, get-set d k j m)

  pub inner-delete :
      (d : Dict K (Dict J V)) (k j : K)
      → inner (delete d k) j ≡ (if k == j then empty else inner d j)
  unfolding inner
  inner-delete d k j = ground (arith, get-delete d k j)

  pub inner-some : (d : Dict K (Dict J V)) (k : K) (m : Dict J V) → get d k ≡ some m → inner d k ≡ m
  unfolding inner
  inner-some d k m h = rw (h, inner)

  pub inner-none : (d : Dict K (Dict J V)) (k : K) → get d k ≡ none → inner d k ≡ empty
  unfolding inner
  inner-none d k h = rw (h, inner)
