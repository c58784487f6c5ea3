-- ===== src/Subscription.antt =====
-- core/subscriber.go, `Subscription`: the goroutine that turns an entity's new cells and a client's
-- filters into subscriptions of its connection. The filter is that of core/activity.go. A cell is a
-- pointer, which the goroutine only passes on: `C` here.
pub mod Stop
pub mod Target
use envisilab.Base.{
  ℕ, Bool, true, false, not, ◌&&◌, ◌||◌, Option, none, some, is_some, List, [], ◌∷◌, ◌++◌, ◌==◌,
  nat_eq, list_eq, if◌then◌else◌, Text, text,
}

pub record UserFilter : Type 0 where
  pub kind : Text
  pub value : Text

abbrev pub local : Text
local = text "local"

abbrev pub group : Text
group = text "group"

-- What arrives on the channel `input`; a value of any other type is ignored.
pub data Input (C : Type 0) : Type 0 where
  cell_filter : C → Input C
  user_filter : UserFilter → Input C
  command : Text → Input C
  other : Input C

-- What the goroutine asks of its context. It drops the errors.
pub data Call (C : Type 0) : Type 0 where
  subscribe_to_cell : C → Call C
  subscribe_to_group : Text → Call C
  unsubscribe : Call C

-- How a round of the loop ends: with the next round, or behind the loop.
pub data Flow : Type 0 where
  again done : Flow

pub record Subscription (C : Type 0) : Type 0 where
  pub cell : Option C
  pub filter : UserFilter

module _ {C : Type 0} where
  unfoldable pub make_subscription : Subscription C
  make_subscription = record { cell = none; filter = record { kind = local; value = [] } }

  -- The calls for a filter that differs from the one before.
  unfoldable pub changed : Subscription C → UserFilter → List (Call C)
  changed self uf =
      if uf.kind == group
      then subscribe_to_group uf.value ∷ []
      else if uf.kind == local && is_some self.cell
      then elim self.cell [ none ↦ [] | some c ↦ subscribe_to_cell c ∷ [] ]
      else []

  -- One round. The `break` of the case `string` ends the `switch` that it stands in, not the loop.
  unfoldable pub round : Subscription C → Input C → Flow × Subscription C × List (Call C)
  unfolding changed
  round self (cell_filter c) =
      let calls = if self.filter.kind == local then subscribe_to_cell c ∷ [] else [] in
      (again, record self { cell = some c }, calls)
  round self (user_filter uf) =
      let calls =
        if not (uf.kind == self.filter.kind) || not (uf.value == self.filter.value)
        then changed self uf
        else [] in
      (again, record self { filter = uf }, calls)
  round self (command s) = (again, self, [])
  round self other = (again, self, [])

  -- `Start` on what arrives, with the calls made, in order. Behind the loop it unsubscribes.
  unfoldable pub start : Subscription C → List (Input C) → Flow × Subscription C × List (Call C)
  start self [] = (again, self, [])
  start self (obj ∷ objs) =
      let (flow, self', calls) = round self obj in
      elim flow [
        | again ↦ let (flow', self'', rest) = start self' objs in (flow', self'', calls ++ rest)
        | done ↦ (done, self', calls ++ unsubscribe ∷ [])
      ]

  -- `setCellFilter`, `setUserFilter` and `Stop`: what finds the goroutine waiting at its channel,
  -- which has no buffer, is taken; else it is lost. Whether it waits is for the scheduler to say.
  unfoldable pub offer : Bool → Subscription C → Input C → Flow × Subscription C × List (Call C)
  offer waiting self obj = if waiting then round self obj else (again, self, [])
