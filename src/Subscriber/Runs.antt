-- ===== src/Subscriber/Runs.antt =====
-- What a run of calls keeps: rules for any property of the maps of core/subscriber.go, and the
-- invariants by these rules.
use envisilab.Base.{
  ℕ, ◌≡◌, Bool, true, false, none, List, [], ◌∷◌, nat_eq, list_eq, arith, Text, Option-cases, inl,
  inr,
}
use envisilab.Base.Decimal.{format_uint}
use envisilab.Base.Dict.{Dict, inner, IsOrder}
use envisilab.Base.Dict
use envisilab.Redis.{PubSub}
use envisilab.Subscriber.{
  Conn, Subscriber, subscribe_no_lock, leave_channel, leave_channels, unsubscribe_no_lock,
  subscribe_cells, subscribe_to_cell, subscribe, unsubscribe,
}
use envisilab.Subscriber.Calls.{Call, to_cell, to_channel, leave, step, run, quiet, all_quiet}

-- A property that each accepted Redis step keeps, and that says nothing of the connections' own sets.
pub record IsStable {ps : PubSub} (P : Subscriber ps → Type 0) : Type 0 where
  pub leaving :
      (s : Subscriber ps) (conn : Conn) (c : Text)
      → (leave_channel s conn c).1 ≡ none
      → P s
      → P (leave_channel s conn c).0
  pub joining :
      (s : Subscriber ps) (conn : Conn) (c : Text)
      → (subscribe_no_lock s conn c).1 ≡ none
      → P s
      → P (subscribe_no_lock s conn c).0
  pub forgetting :
      (s : Subscriber ps) (m : Dict Conn (Dict Text Bool)) → P s → P (record s { connections = m })

module _ {ps : PubSub} {P : Subscriber ps → Type 0} (k : IsStable P) where
  leave_channels-kept :
      (s : Subscriber ps) (conn : Conn) (cs : List Text)
      → (leave_channels s conn cs).1 ≡ none
      → P s
      → P (leave_channels s conn cs).0
  unfolding leave_channels
  leave_channels-kept s conn [] e v = v
  leave_channels-kept s conn (c ∷ cs) e v = elim (Option-cases (leave_channel s conn c).1) [
    | inl fine ↦
        rw (fine, leave_channels)
          (leave_channels-kept (leave_channel s conn c).0 conn cs (ground arith)
            (k.leaving s conn c fine v))
    | inr (err, bad) ↦ absurd (ground arith)
  ]

  subscribe_cells-kept :
      (s : Subscriber ps) (conn : Conn) (ids : List ℕ)
      → (subscribe_cells s conn ids).1 ≡ none
      → P s
      → P (subscribe_cells s conn ids).0
  unfolding subscribe_cells
  subscribe_cells-kept s conn [] e v = v
  subscribe_cells-kept s conn (id ∷ ids) e v =
      let c = format_uint id in
      elim (Option-cases (subscribe_no_lock s conn c).1) [
        | inl fine ↦
            rw (fine, subscribe_cells)
              (subscribe_cells-kept (subscribe_no_lock s conn c).0 conn ids (ground arith)
                (k.joining s conn c fine v))
        | inr (err, bad) ↦ absurd (ground arith)
      ]

  module _ (order : List Text → List Text) where
    unsubscribe-kept :
        (s : Subscriber ps) (conn : Conn)
        → (unsubscribe_no_lock order s conn).1 ≡ none
        → P s
        → P (unsubscribe_no_lock order s conn).0
    unfolding unsubscribe_no_lock
    unsubscribe-kept s conn e v =
        let cs = order (Dict.keys (inner s.connections conn)) in
        elim (Option-cases (leave_channels s conn cs).1) [
          | inl fine ↦
              rw (fine, unsubscribe_no_lock)
                (k.forgetting _ _ (leave_channels-kept s conn cs fine v))
          | inr (err, bad) ↦ absurd (ground arith)
        ]

    step-kept :
        (s : Subscriber ps) (call : Call)
        → quiet order s call ≡ true
        → P s
        → P (step order s call).0
    unfolding step quiet subscribe_to_cell subscribe unsubscribe
    step-kept s (to_cell conn ids) e v = elim (Option-cases (unsubscribe_no_lock order s conn).1) [
      | inl fine ↦
          rw (fine, subscribe_to_cell)
            (subscribe_cells-kept _ conn ids (ground arith) (unsubscribe-kept s conn fine v))
      | inr (err, bad) ↦ absurd (ground arith)
    ]
    step-kept s (to_channel conn c true) e v =
        k.joining _ conn c (ground arith) (unsubscribe-kept s conn (ground arith) v)
    step-kept s (to_channel conn c false) e v = k.joining s conn c (ground arith) v
    step-kept s (leave conn) e v = unsubscribe-kept s conn (ground arith) v

    pub run-kept :
        (s : Subscriber ps) (calls : List Call)
        → all_quiet order s calls ≡ true
        → P s
        → P (run order s calls)
    unfolding run all_quiet
    run-kept s [] e v = v
    run-kept s (call ∷ calls) e v =
        run-kept (step order s call).0 calls (ground arith) (step-kept s call (ground arith) v)
