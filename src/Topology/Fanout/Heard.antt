-- ===== src/Topology/Fanout/Heard.antt =====
-- Which copies of a message the connections of core/subscriber.go get.
use envisilab.Base.{
  ◌≤◌, length, ℕ, ◌+◌, ◌≡◌, refl, ap, ◌∙◌, Bool, false, some, List, [], ◌∷◌, map, nat_eq, list_eq,
  if◌then◌else◌, arith, Text, Bytes,
}
use envisilab.Base.Dict.{IsOrder}
use envisilab.Redis.{Pool, PubSub, select}
use envisilab.Subscriber.{Conn, Subscriber}
use envisilab.Subscriber.View.{listening}
use envisilab.Subscriber.Calls.{Wanted}
use envisilab.Subscriber.Delivery.{Outboxes, receive_message, writes, writes-if}
use envisilab.Topology.{Topology}
use envisilab.Topology.Fanout.{Feed, to_cells, to_groups, deliver, for_cells, for_groups}

-- How many of the channels a connection wants.
abbrev pub asked : Wanted → Conn → List Text → ℕ
asked w conn [] = 0
asked w conn (channel ∷ channels) = (if w conn channel then 1 else 0) + asked w conn channels

pub asked_bound :
    (w : Wanted) (conn : Conn) (channels : List Text) → asked w conn channels ≤ length channels
asked_bound w conn [] = omega arith
asked_bound w conn (c ∷ cs) = ground (arith, asked_bound w conn cs)

-- One message on channels.
abbrev pub on : Bytes → List Text → List (Text × Bytes)
on data' channels = map (λ c. (c, data')) channels

abbrev pub chosen : (Text → Bool) → List Text → List Text
chosen test [] = []
chosen test (c ∷ cs) = if test c then c ∷ chosen test cs else chosen test cs

pub select-on :
    (test : Text → Bool) (data' : Bytes) (channels : List Text)
    → select test (on data' channels) ≡ on data' (chosen test channels)
unfolding select
select-on test data' [] = refl
select-on test data' (c ∷ cs) = ground (arith, select-on test data' cs)

on-injective : (data' : Bytes) (xs ys : List Text) → on data' xs ≡ on data' ys → xs ≡ ys
on-injective data' [] [] e = refl
on-injective data' [] (y ∷ ys) e = absurd (ground arith)
on-injective data' (x ∷ xs) [] e = absurd (ground arith)
on-injective data' (x ∷ xs) (y ∷ ys) e = ground (arith, on-injective data' xs ys)

-- Channels that a connection does not want do not count.
asked-chosen :
    (w : Wanted) (conn : Conn) (test : Text → Bool) (channels : List Text)
    → ((c : Text) → test c ≡ false → w conn c ≡ false)
    → asked w conn (chosen test channels) ≡ asked w conn channels
asked-chosen w conn test [] h = refl
asked-chosen w conn test (c ∷ cs) h = ground (arith, h c, asked-chosen w conn test cs h)

-- What a subscriber is sent of a message on the channels counts as all of them do.
pub asked-select :
    (w : Wanted) (conn : Conn) (test : Text → Bool) (data' : Bytes) (got channels : List Text)
    → ((c : Text) → test c ≡ false → w conn c ≡ false)
    → on data' got ≡ select test (on data' channels)
    → asked w conn got ≡ asked w conn channels
asked-select w conn test data' got channels h e =
    ap (asked w conn)
      (on-injective data' got (chosen test channels) (e ∙ select-on test data' channels))
    ∙ asked-chosen w conn test channels h

pub asked_same :
    (v w : Wanted) (conn : Conn) (channels : List Text)
    → ((c : Text) → v conn c ≡ w conn c)
    → asked v conn channels ≡ asked w conn channels
asked_same v w conn [] h = refl
asked_same v w conn (c ∷ cs) h = ground (arith, h c, asked_same v w conn cs h)

module _ {p : Pool} {ps : PubSub} (visits : List Conn → List Conn) (o : IsOrder visits)
    (t : Topology p ps) where
  -- How often a connection is written to.
  abbrev pub hears : Subscriber ps → Wanted
  hears s conn c = listening s c conn

  abbrev pub hits : List (Feed × Text) → Conn → ℕ
  hits copies conn =
      asked (hears t.cell_subscriber) conn (for_cells copies)
      + asked (hears t.group_subscriber) conn (for_groups copies)

  pub deliver-hits :
      (data' : Bytes) (copies : List (Feed × Text)) (out : Outboxes)
      → (out' : Outboxes) × (deliver visits t data' copies out ≡ some out')
        × ((conn : Conn) → out' conn ≡ writes (hits copies conn) (out conn) data')
  unfolding deliver
  deliver-hits data' [] out = (out, refl, λ conn. refl)
  deliver-hits data' ((to_cells, channel) ∷ copies) out =
      let (out1, got, each) = receive_message ps visits t.cell_subscriber channel data' out o in
      let (out', rest, all) = deliver-hits data' copies out1 in
      (
        out',
        ground (arith, got, rest),
        λ conn.
            let b = hears t.cell_subscriber conn channel in
            let more : (if b then 1 else 0) + hits copies conn
                ≡ hits ((to_cells, channel) ∷ copies) conn =
              omega arith in
            all conn
            ∙ ap (λ send. writes (hits copies conn) send data') (each conn)
            ∙ writes-if b (hits copies conn) (out conn) data'
            ∙ ap (λ n. writes n (out conn) data') more,
      )
  deliver-hits data' ((to_groups, channel) ∷ copies) out =
      let (out1, got, each) = receive_message ps visits t.group_subscriber channel data' out o in
      let (out', rest, all) = deliver-hits data' copies out1 in
      (
        out',
        ground (arith, got, rest),
        λ conn.
            let b = hears t.group_subscriber conn channel in
            let more : (if b then 1 else 0) + hits copies conn
                ≡ hits ((to_groups, channel) ∷ copies) conn =
              omega arith in
            all conn
            ∙ ap (λ send. writes (hits copies conn) send data') (each conn)
            ∙ writes-if b (hits copies conn) (out conn) data'
            ∙ ap (λ n. writes n (out conn) data') more,
      )
