-- ===== src/Topology/Fanout/Reaches.antt =====
-- From the calls on core/topology.go and a broadcast to what the connections get.
use envisilab.Base.{
  ◌≤◌, length, ℕ, ◌+◌, ◌≡◌, refl, ap, ◌∙◌, Bool-cases, inl, inr, true, false, none, some, List, [],
  ◌∷◌, ◌++◌, map, nat_eq, list_eq, arith, Text, Bytes,
}
use envisilab.Base.Dict.{IsOrder}
use envisilab.Base.Decimal.{format_uint}
use envisilab.Redis.{Pool, IsPool, PubSub, IsPubSub, IsBroker, select}
use envisilab.Publisher.{publish_message}
use envisilab.Subscriber.{Conn, Subscriber, make_subscriber}
use envisilab.Subscriber.View.{listening}
use envisilab.Subscriber.Calls.{Wanted, want_all, run, all_quiet}
use envisilab.Subscriber.Calls
use envisilab.Subscriber.Synced.{run-refines, run-IsBacked}
use envisilab.Subscriber.Delivery.{Outboxes, writes}
use envisilab.Topology.{Config, Group, Topology, make_topology, broadcast}
use envisilab.Topology.Exclusive.{Call, apply_all, all_smooth}
use envisilab.Topology.Broadcasts.{groups_accepted, to_groups, published-broadcast}
use envisilab.Topology.Fanout.{Feed, deliver, for_cells, for_groups}
use envisilab.Topology.Fanout.Calls.{cell_calls, group_calls, apply_all-cells, apply_all-groups}
use envisilab.Topology.Fanout.Heard.{
  asked, asked_bound, on, asked-select, asked_same, deliver-hits, hits,
}

-- The channels of a broadcast.
abbrev pub channels_of : ℕ → List Group → List Text
channels_of cell_id groups = format_uint cell_id ∷ map (λ (g : Group). g.uuid) groups

-- What the connections want after calls from a fresh start.
abbrev pub wanted : List Calls.Call → Wanted
wanted calls = want_all (λ j b. false) calls

-- A subscriber after calls that Redis accepts, on a connection that starts with no subscription: the
-- copies that it is sent count, for each connection, as the channels that the connection wants.
asked_after :
    (ps : PubSub) (r : IsPubSub ps) (url : Text) (c : ps.State) (order : List Text → List Text)
    (calls : List Calls.Call) (s : Subscriber ps) (conn : Conn) (data' : Bytes)
    (got channels : List Text)
    → IsOrder order
    → ((b : Text) → r.subscribed c b ≡ false)
    → all_quiet order (make_subscriber {ps = ps} url c) calls ≡ true
    → s ≡ run order (make_subscriber {ps = ps} url c) calls
    → on data' got ≡ select (r.subscribed s.subconn) (on data' channels)
    → asked (λ j b. listening s b j) conn got ≡ asked (wanted calls) conn channels
asked_after ps r url c order calls s conn data' got channels o clean quiet ran sent =
    let deaf : (b : Text) → r.subscribed s.subconn b ≡ false → wanted calls conn b ≡ false =
      λ b none_there. elim (Bool-cases (wanted calls conn b)) [
        | inr not_asked ↦ not_asked
        | inl asks ↦ absurd (
            ground (
              arith,
              none_there,
              ran,
              (run-IsBacked ps url c r order calls b o clean quiet).1 (conn, asks),
            ))
      ] in
    asked_same (λ j b. listening s b j) (wanted calls) conn got
      (λ b.
        ap (λ (x : Subscriber ps). listening x b conn) ran
        ∙ (run-refines ps url c order calls conn b o quiet).1)
    ∙ asked-select (wanted calls) conn (r.subscribed s.subconn) data' got channels deaf sent

to_groups-on :
    (p : Pool) (i : IsPool p) (groups : List Group) (data' : Bytes)
    → to_groups p i groups data' ≡ on data' (map (λ (g : Group). g.uuid) groups)
to_groups-on p i [] data' = refl
to_groups-on p i (g ∷ groups) data' = ap (◌∷◌ (g.uuid, data')) (to_groups-on p i groups data')

broadcast_keeps :
    {p : Pool} {ps : PubSub} (t : Topology p ps) (cell_id : ℕ) (groups : List Group) (data' : Bytes)
    → let t' = (broadcast t cell_id groups data').0 in
      (t'.cell_subscriber ≡ t.cell_subscriber) × (t'.group_subscriber ≡ t.group_subscriber)
unfolding broadcast
broadcast_keeps t cell_id groups data' = ground arith

module _ (p : Pool) (ps : PubSub) (i : IsPool p) (r : IsPubSub ps) (b : IsBroker i r) where
  -- What both goroutines take is what Redis sends them of the broadcast.
  abbrev pub AreCopies : Topology p ps → Topology p ps → Bytes → List (Feed × Text) → Type 0
  AreCopies t t' data' copies =
      (on data' (for_cells copies) ≡ b.arrivals t.publisher t'.publisher t'.cell_subscriber.subconn)
      × (on data' (for_groups copies)
          ≡ b.arrivals t.publisher t'.publisher t'.group_subscriber.subconn)

  -- The subscribers stand as calls that Redis accepts have left them, on Redis connections that start
  -- with no subscription. The publisher may be at any state.
  pub record IsAfter (order : List Text → List Text) (calls : List Call) (t : Topology p ps)
      : Type 0 where
    pub url : Text
    pub cells : ps.State
    pub groups : ps.State
    pub no_cells : (c : Text) → r.subscribed cells c ≡ false
    pub no_groups : (c : Text) → r.subscribed groups c ≡ false
    pub ran_cells : t.cell_subscriber ≡ run order (make_subscriber url cells) (cell_calls calls)
    pub ran_groups : t.group_subscriber ≡ run order (make_subscriber url groups) (group_calls calls)
    pub quiet_cells :
        all_quiet order (make_subscriber {ps = ps} url cells) (cell_calls calls) ≡ true
    pub quiet_groups :
        all_quiet order (make_subscriber {ps = ps} url groups) (group_calls calls) ≡ true

  -- The copies that a connection gets of a broadcast.
  abbrev pub wants : List Call → Conn → List Text → ℕ
  wants calls conn channels =
      asked (wanted (cell_calls calls)) conn channels
      + asked (wanted (group_calls calls)) conn channels

  pub wants_bound :
      (calls : List Call) (conn : Conn) (channels : List Text)
      → wants calls conn channels ≤ length channels + length channels
  wants_bound calls conn channels = omega (
    arith,
    asked_bound (wanted (cell_calls calls)) conn channels,
    asked_bound (wanted (group_calls calls)) conn channels,
  )

  pub reaches :
      (order : List Text → List Text) (visits : List Conn → List Conn) (calls : List Call)
      (t : Topology p ps) (cell_id : ℕ) (entity_groups : List Group) (data' : Bytes)
      (copies : List (Feed × Text)) (out : Outboxes)
      → IsOrder order
      → IsOrder visits
      → IsAfter order calls t
      → let (err, s') = publish_message p t.publisher (format_uint cell_id) data' in
        let t' = (broadcast t cell_id entity_groups data').0 in
        err ≡ none
        → groups_accepted p i s' entity_groups data' ≡ true
        → AreCopies t t' data' copies
        → (out' : Outboxes) × (deliver visits t' data' copies out ≡ some out')
          × ((conn : Conn)
              → out' conn
                ≡ writes (wants calls conn (channels_of cell_id entity_groups)) (out conn) data')
  reaches order visits calls t cell_id entity_groups data' copies out o v after accepted all
        (got_cells, got_groups) =
      let t' = (broadcast t cell_id entity_groups data').0 in
      let channels = channels_of cell_id entity_groups in
      let (same_cells, same_groups) = broadcast_keeps t cell_id entity_groups data' in
      let published : i.published t'.publisher ≡ i.published t.publisher ++ on data' channels =
        (published-broadcast p i t cell_id entity_groups data' accepted all).1
        ∙ ap
            (λ (ms : List (Text × Bytes)).
              i.published t.publisher ++ (format_uint cell_id, data') ∷ ms)
            (to_groups-on p i entity_groups data') in
      let sent =
        λ (c : ps.State). b.arrive t.publisher t'.publisher c (on data' channels) published in
      let (out', done, each) = deliver-hits visits v t' data' copies out in
      (
        out',
        done,
        λ conn.
            let in_cells : asked (λ j c. listening t'.cell_subscriber c j) conn (for_cells copies)
                ≡ asked (wanted (cell_calls calls)) conn channels =
              asked_after ps r after.url after.cells order (cell_calls calls) t'.cell_subscriber
                conn data' (for_cells copies) channels o after.no_cells after.quiet_cells
                (same_cells ∙ after.ran_cells) (got_cells ∙ sent t'.cell_subscriber.subconn) in
            let in_groups : asked (λ j c. listening t'.group_subscriber c j) conn
                  (for_groups copies)
                ≡ asked (wanted (group_calls calls)) conn channels =
              asked_after ps r after.url after.groups order (group_calls calls) t'.group_subscriber
                conn data' (for_groups copies) channels o after.no_groups after.quiet_groups
                (same_groups ∙ after.ran_groups) (got_groups ∙ sent t'.group_subscriber.subconn) in
            let both : hits visits v t' copies conn ≡ wants calls conn channels =
              omega (arith, in_cells, in_groups) in
            each conn ∙ ap (λ n. writes n (out conn) data') both,
      )

  pub apply_all-IsAfter :
      (order : List Text → List Text) (config : Config) (s : p.State) (cells groups : ps.State)
      (calls : List Call)
      → ((c : Text) → r.subscribed cells c ≡ false)
      → ((c : Text) → r.subscribed groups c ≡ false)
      → all_smooth order (make_topology {p = p} {ps = ps} config s cells groups) calls ≡ true
      → IsAfter order calls (apply_all order (make_topology config s cells groups) calls)
  unfolding make_topology
  apply_all-IsAfter order config s cells groups calls no_cells no_groups smooth =
      let start : Topology p ps = make_topology config s cells groups in
      let (ran_cells, quiet_cells) = apply_all-cells order start calls smooth in
      let (ran_groups, quiet_groups) = apply_all-groups order start calls smooth in
      record {
        url = config.redis_url;
        cells = cells;
        groups = groups;
        no_cells = no_cells;
        no_groups = no_groups;
        ran_cells = ran_cells;
        ran_groups = ran_groups;
        quiet_cells = quiet_cells;
        quiet_groups = quiet_groups;
      }
