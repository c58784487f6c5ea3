-- ===== src/Topology/Fanout/Calls.antt =====
-- The calls on a topology (core/topology.go) as calls on each of its subscribers.
use envisilab.Base.{◌≡◌, refl, true, List, [], ◌∷◌, nat_eq, list_eq, arith, Text}
use envisilab.Redis.{Pool, PubSub}
use envisilab.Subscriber.Calls.{to_channel, leave, step, quiet, run, all_quiet}
use envisilab.Subscriber.Calls
use envisilab.Topology.{
  Topology, subscribe_to_cell, subscribe_to_group, unsubscribe_from_groups, unsubscribe_all,
}
use envisilab.Topology.Exclusive.{
  Call, to_cell, to_group, leave_groups, leave_all, apply, apply_all, smooth, all_smooth,
}

abbrev pub cell_calls : List Call → List Calls.Call
cell_calls [] = []
cell_calls (to_cell conn ids ∷ calls) = Calls.to_cell conn ids ∷ cell_calls calls
cell_calls (to_group conn group unsub ∷ calls) = leave conn ∷ cell_calls calls
cell_calls (leave_groups conn ∷ calls) = cell_calls calls
cell_calls (leave_all conn ∷ calls) = leave conn ∷ cell_calls calls

abbrev pub group_calls : List Call → List Calls.Call
group_calls [] = []
group_calls (to_cell conn ids ∷ calls) = leave conn ∷ group_calls calls
group_calls (to_group conn group unsub ∷ calls) = to_channel conn group unsub ∷ group_calls calls
group_calls (leave_groups conn ∷ calls) = leave conn ∷ group_calls calls
group_calls (leave_all conn ∷ calls) = leave conn ∷ group_calls calls

module _ {p : Pool} {ps : PubSub} (order : List Text → List Text) where
  pub apply_all-cells :
      (t : Topology p ps) (calls : List Call)
      → all_smooth order t calls ≡ true
      → ((apply_all order t calls).cell_subscriber ≡ run order t.cell_subscriber (cell_calls calls))
        × (all_quiet order t.cell_subscriber (cell_calls calls) ≡ true)
  unfolding apply_all all_smooth apply smooth run all_quiet subscribe_to_cell subscribe_to_group
      unsubscribe_from_groups unsubscribe_all step
  apply_all-cells t [] e = (refl, refl)
  apply_all-cells t (to_cell conn ids ∷ calls) e =
      ground (arith, apply_all-cells (apply order t (to_cell conn ids)) calls (ground arith))
  apply_all-cells t (to_group conn group unsub ∷ calls) e =
      ground
        (arith, apply_all-cells (apply order t (to_group conn group unsub)) calls (ground arith))
  apply_all-cells t (leave_groups conn ∷ calls) e =
      ground (arith, apply_all-cells (apply order t (leave_groups conn)) calls (ground arith))
  apply_all-cells t (leave_all conn ∷ calls) e =
      ground (arith, apply_all-cells (apply order t (leave_all conn)) calls (ground arith))

  pub apply_all-groups :
      (t : Topology p ps) (calls : List Call)
      → all_smooth order t calls ≡ true
      → ((apply_all order t calls).group_subscriber
          ≡ run order t.group_subscriber (group_calls calls))
        × (all_quiet order t.group_subscriber (group_calls calls) ≡ true)
  unfolding apply_all all_smooth apply smooth run all_quiet subscribe_to_cell subscribe_to_group
      unsubscribe_from_groups unsubscribe_all step
  apply_all-groups t [] e = (refl, refl)
  apply_all-groups t (to_cell conn ids ∷ calls) e =
      ground (arith, apply_all-groups (apply order t (to_cell conn ids)) calls (ground arith))
  apply_all-groups t (to_group conn group unsub ∷ calls) e =
      ground
        (arith, apply_all-groups (apply order t (to_group conn group unsub)) calls (ground arith))
  apply_all-groups t (leave_groups conn ∷ calls) e =
      ground (arith, apply_all-groups (apply order t (leave_groups conn)) calls (ground arith))
  apply_all-groups t (leave_all conn ∷ calls) e =
      ground (arith, apply_all-groups (apply order t (leave_all conn)) calls (ground arith))
