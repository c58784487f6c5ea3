-- ===== src/Subscription/Target.antt =====
-- What the connection of core/subscriber.go is subscribed to last.
use envisilab.Base.{
  ◌≡◌, refl, true, false, Option, none, some, List, [], ◌∷◌, ◌++◌, arith, ◌==◌, nat_eq, list_eq,
  eq_iff, Text, text,
}
use envisilab.Subscription.Stop.{round-again}
use envisilab.Subscription.{
  local, group, Input, cell_filter, user_filter, command, other, Call, subscribe_to_cell,
  subscribe_to_group, Subscription, make_subscription, round, start,
}

local_ne_group : (a : Text) → (a == local) ≡ true → (a == group) ≡ false
local_ne_group a h = rw ((eq_iff a local).0 h) apart
  where
    apart : (local == group) ≡ false
    apart = unfold text in refl

module _ {C : Type 0} where
  -- The last of the calls.
  abbrev pub last : Option (Call C) → List (Call C) → Option (Call C)
  last prev [] = prev
  last prev (call ∷ calls) = last (some call) calls

  pub record IsOnTarget (self : Subscription C) (call : Option (Call C)) : Type 0 where
    pub in_group :
        (self.filter.kind == group) ≡ true → call ≡ some (subscribe_to_group self.filter.value)
    pub in_cell :
        (c : C)
        → (self.filter.kind == local) ≡ true
        → self.cell ≡ some c
        → call ≡ some (subscribe_to_cell c)

  round-IsOnTarget :
      (self : Subscription C) (obj : Input C) (prev : Option (Call C))
      → IsOnTarget self prev
      → IsOnTarget (round self obj).1 (last prev (round self obj).2)
  unfolding round
  round-IsOnTarget self (cell_filter c) prev v = record {
    in_group = λ h. ground (arith, v.in_group, local_ne_group self.filter.kind);
    in_cell = λ b h e. ground arith;
  }
  round-IsOnTarget self (user_filter uf) prev v = record {
    in_group = λ h.
        ground
          (arith, v.in_group, eq_iff uf.kind self.filter.kind, eq_iff uf.value self.filter.value);
    in_cell = λ b h e.
        ground (arith, v.in_cell b, local_ne_group uf.kind, eq_iff uf.kind self.filter.kind);
  }
  round-IsOnTarget self (command s) prev v = v
  round-IsOnTarget self other prev v = v

  last-append :
      (prev : Option (Call C)) (xs ys : List (Call C))
      → last prev (xs ++ ys) ≡ last (last prev xs) ys
  last-append prev [] ys = refl
  last-append prev (x ∷ xs) ys = last-append (some x) xs ys

  start-IsOnTarget_from :
      (self : Subscription C) (objs : List (Input C)) (prev : Option (Call C))
      → IsOnTarget self prev
      → IsOnTarget (start self objs).1 (last prev (start self objs).2)
  unfolding start
  start-IsOnTarget_from self [] prev v = v
  start-IsOnTarget_from self (obj ∷ objs) prev v =
      let w = round-IsOnTarget self obj prev v in
      rw (round-again self obj, start)
        (rw last-append
          (start-IsOnTarget_from (round self obj).1 objs (last prev (round self obj).2) w))

  make-IsOnTarget : IsOnTarget (make_subscription {C = C}) none
  unfolding make_subscription
  make-IsOnTarget = record {
    in_group = λ h. absurd (ground (arith, local_ne_group local, eq_iff local local));
    in_cell = λ c h e. absurd (ground arith);
  }

  -- Whatever has arrived since the subscription was made: with a group filter, the last call
  -- subscribed the connection to that group; with a local filter and a known cell, to that cell.
  pub start-IsOnTarget :
      (objs : List (Input C))
      → IsOnTarget (start make_subscription objs).1 (last none (start make_subscription objs).2)
  start-IsOnTarget objs = start-IsOnTarget_from make_subscription objs none make-IsOnTarget
