-- ===== src/Topology/Broadcasts.antt =====
-- Where the messages of core/topology.go go.
use mathlib.Core.List.{append_assoc, append-nil}
use envisilab.Base.{
  ℕ, ◌≡◌, ap, sym, ◌∙◌, Bool, true, false, none, is_some, List, [], ◌∷◌, ◌++◌, map, if◌then◌else◌,
  arith, Bytes, Text,
}
use envisilab.Base.Decimal.{format_uint}
use envisilab.Redis.{Pool, IsPool, PubSub, publish}
use envisilab.Publisher.{publish_message}
use envisilab.Topology.{Topology, Group, publish_groups, broadcast}

module _ (p : Pool) (i : IsPool p) where
  -- Redis accepts the message for each group, one after the other.
  unfoldable pub groups_accepted : p.State → List Group → Bytes → Bool
  groups_accepted s [] message = true
  groups_accepted s (group ∷ groups) message =
      let (err, s') = publish_message p s group.uuid message in
      if is_some err then false else groups_accepted s' groups message

  abbrev pub to_groups : List Group → Bytes → List (Text × Bytes)
  to_groups groups message = map (λ (g : Group). (g.uuid, message)) groups

  published-publish_message :
      (s : p.State) (channel : Text) (message : Bytes)
      → (publish_message p s channel message).0 ≡ none
      → i.published (publish_message p s channel message).1
        ≡ i.published s ++ (channel, message) ∷ []
  unfolding publish_message
  published-publish_message s channel message e =
      let answer = p.exec s (publish channel message) in
      i.publish_ok s answer.2 answer.0 channel message (ground (arith, e))

  published-publish_groups :
      (s : p.State) (groups : List Group) (message : Bytes)
      → groups_accepted s groups message ≡ true
      → i.published (publish_groups p s groups message) ≡ i.published s ++ to_groups groups message
  unfolding publish_groups groups_accepted
  published-publish_groups s [] message e = sym (append-nil (i.published s))
  published-publish_groups s (group ∷ groups) message e =
      let now = published-publish_message s group.uuid message (ground arith) in
      published-publish_groups (publish_message p s group.uuid message).1 groups message
        (ground arith)
      ∙ ap (λ (l : List (Text × Bytes)). l ++ to_groups groups message) now
      ∙ append_assoc (i.published s) ((group.uuid, message) ∷ []) (to_groups groups message)

  -- Where Redis accepts every message, `Broadcast` publishes the message once on the channel of the
  -- entity's cell and then once on the channel of each of its groups, in their order, and on no
  -- other; and it reports no error.
  pub published-broadcast :
      {ps : PubSub} (t : Topology p ps) (cell_id : ℕ) (groups : List Group) (message : Bytes)
      → let (err, s') = publish_message p t.publisher (format_uint cell_id) message in
        err ≡ none
        → groups_accepted s' groups message ≡ true
        → let (t', err') = broadcast t cell_id groups message in
          (err' ≡ none)
          × (i.published t'.publisher
              ≡ i.published t.publisher
                ++ (format_uint cell_id, message) ∷ to_groups groups message)
  unfolding broadcast
  published-broadcast t cell_id groups message fine all =
      let s' = (publish_message p t.publisher (format_uint cell_id) message).1 in
      let now = published-publish_message t.publisher (format_uint cell_id) message fine in
      let rest = published-publish_groups s' groups message all in
      (
        ground (arith, fine),
        rw (fine, broadcast)
            (rest
              ∙ ap (λ (l : List (Text × Bytes)). l ++ to_groups groups message) now
              ∙ append_assoc (i.published t.publisher) ((format_uint cell_id, message) ∷ [])
                  (to_groups groups message)),
      )
