-- ===== src/Topology/Exclusive.antt =====
-- A connection of core/topology.go follows cells or groups, never both.
use envisilab.Base.{ℕ, ◌≡◌, Bool, true, false, ◌&&◌, List, [], ◌∷◌, nat_eq, list_eq, arith, Text}
use envisilab.Base.Dict.{IsOrder}
use envisilab.Redis.{Pool, PubSub}
use envisilab.Subscriber.{Conn}
use envisilab.Subscriber.View.{recorded}
use envisilab.Subscriber.Calls.{to_channel, leave, step, quiet, want}
use envisilab.Subscriber.Calls
use envisilab.Subscriber.Refines.{recorded-step}
use envisilab.Subscriber.Synced.{recorded-make}
use envisilab.Topology.{
  Config, Topology, make_topology, subscribe_to_cell, subscribe_to_group, unsubscribe_from_groups,
  unsubscribe_all,
}

-- The calls that change subscriptions.
pub data Call : Type 0 where
  to_cell : Conn → List ℕ → Call
  to_group : Conn → Text → Bool → Call
  leave_groups : Conn → Call
  leave_all : Conn → Call

module _ {p : Pool} {ps : PubSub} (order : List Text → List Text) where
  unfoldable pub apply : Topology p ps → Call → Topology p ps
  apply t (to_cell conn ids) = (subscribe_to_cell order t conn ids).0
  apply t (to_group conn group unsub) = (subscribe_to_group order t conn group unsub).0
  apply t (leave_groups conn) = (unsubscribe_from_groups order t conn).0
  apply t (leave_all conn) = (unsubscribe_all order t conn).0

  unfoldable pub apply_all : Topology p ps → List Call → Topology p ps
  apply_all t [] = t
  apply_all t (call ∷ calls) = apply_all (apply t call) calls

  -- Redis refuses nothing during the call, not even where the error would be dropped.
  unfoldable pub smooth : Topology p ps → Call → Bool
  smooth t (to_cell conn ids) =
      quiet order t.group_subscriber (leave conn)
      && quiet order t.cell_subscriber (Calls.to_cell conn ids)
  smooth t (to_group conn group unsub) =
      quiet order t.cell_subscriber (leave conn)
      && quiet order t.group_subscriber (to_channel conn group unsub)
  smooth t (leave_groups conn) = quiet order t.group_subscriber (leave conn)
  smooth t (leave_all conn) =
      quiet order t.cell_subscriber (leave conn) && quiet order t.group_subscriber (leave conn)

  unfoldable pub all_smooth : Topology p ps → List Call → Bool
  all_smooth t [] = true
  all_smooth t (call ∷ calls) = smooth t call && all_smooth (apply t call) calls

module _ {p : Pool} {ps : PubSub} where
  pub record IsExclusive (t : Topology p ps) : Type 0 where
    pub apart :
        (conn : Conn) (c d : Text)
        → recorded t.cell_subscriber conn c ≡ true
        → recorded t.group_subscriber conn d ≡ false

  module _ (order : List Text → List Text) (o : IsOrder order) where
    apply-IsExclusive :
        (t : Topology p ps) (call : Call)
        → smooth order t call ≡ true
        → IsExclusive t
        → IsExclusive (apply order t call)
    unfolding apply smooth subscribe_to_cell subscribe_to_group unsubscribe_from_groups
        unsubscribe_all step want
    apply-IsExclusive t (to_cell conn ids) e v = record {
      apart = λ j c d h. ground (
        arith,
        v.apart j c d,
        recorded-step order o t.cell_subscriber (Calls.to_cell conn ids) j c,
        recorded-step order o t.group_subscriber (leave conn) j d,
      );
    }
    apply-IsExclusive t (to_group conn group unsub) e v = record {
      apart = λ j c d h. ground (
        arith,
        v.apart j c d,
        recorded-step order o t.cell_subscriber (leave conn) j c,
        recorded-step order o t.group_subscriber (to_channel conn group unsub) j d,
      );
    }
    apply-IsExclusive t (leave_groups conn) e v = record {
      apart = λ j c d h.
          ground (arith, v.apart j c d, recorded-step order o t.group_subscriber (leave conn) j d);
    }
    apply-IsExclusive t (leave_all conn) e v = record {
      apart = λ j c d h. ground (
        arith,
        v.apart j c d,
        recorded-step order o t.cell_subscriber (leave conn) j c,
        recorded-step order o t.group_subscriber (leave conn) j d,
      );
    }

    apply_all-IsExclusive :
        (t : Topology p ps) (calls : List Call)
        → all_smooth order t calls ≡ true
        → IsExclusive t
        → IsExclusive (apply_all order t calls)
    unfolding apply_all all_smooth
    apply_all-IsExclusive t [] e v = v
    apply_all-IsExclusive t (call ∷ calls) e v =
        apply_all-IsExclusive (apply order t call) calls (ground arith)
          (apply-IsExclusive t call (ground arith) v)

-- From a new topology on, after any calls that Redis accepts, a connection that is on record for a
-- cell is on record for no group.
pub apply_all_exclusive :
    (p : Pool) (ps : PubSub) (order : List Text → List Text) (config : Config) (s : p.State)
    (cells groups : ps.State) (calls : List Call) (conn : Conn) (c d : Text)
    → IsOrder order
    → let start : Topology p ps = make_topology config s cells groups in
      all_smooth order start calls ≡ true
      → recorded (apply_all order start calls).cell_subscriber conn c ≡ true
      → recorded (apply_all order start calls).group_subscriber conn d ≡ false
unfolding make_topology
apply_all_exclusive p ps order config s cells groups calls conn c d o e h =
    let start : Topology p ps = make_topology config s cells groups in
    let fresh : IsExclusive start = record {
      apart = λ j a b l. cc (l, recorded-make ps config.redis_url cells j a);
    } in
    (apply_all-IsExclusive order o start calls e fresh).apart conn c d h
