-- ===== src/Subscriber/Cells.antt =====
-- A message on the channel of a cell, from core/subscriber.go to the connections that follow the cell.
use envisilab.Base.{
  ℕ, ◌^◌, ◌<◌, ◌≡◌, refl, ap, sym, ◌∙◌, Bool, true, false, ◌&&◌, not, some, List, [], ◌∷◌, ◌++◌,
  map, elem, All, nat_eq, list_eq, ◌==◌, eq_iff, eq_self, if◌then◌else◌, arith, Text, Bytes,
}
use envisilab.Base.Decimal.{format_uint, format_uint-injective}
use envisilab.Base.Dict.{IsOrder}
use envisilab.Redis.{PubSub}
use envisilab.Subscriber.{Conn, make_subscriber}
use envisilab.Subscriber.View.{listening}
use envisilab.Subscriber.Calls.{
  Call, to_cell, to_channel, leave, run, all_quiet, Wanted, want, want_all,
}
use envisilab.Subscriber.Synced.{run-refines}
use envisilab.Subscriber.Delivery.{Outboxes, message, receive, receive_message}
use envisilab.WebSocket

abbrev pub caller : Call → Conn
caller (to_cell conn ids) = conn
caller (to_channel conn channel unsub) = conn
caller (leave conn) = conn

-- None of the calls is made for the connection.
abbrev pub all_others : Conn → List Call → Bool
all_others conn [] = true
all_others conn (call ∷ calls) = not (caller call == conn) && all_others conn calls

elem-map-format_uint :
    (cell : ℕ) (ids : List ℕ)
    → cell < 2 ^ 64
    → All (λ id. id < 2 ^ 64) ids
    → elem (format_uint cell) (map format_uint ids) ≡ elem cell ids
elem-map-format_uint cell [] l h = refl
elem-map-format_uint cell (id ∷ ids) l h = ground (
  arith,
  elem-map-format_uint cell ids l h.1,
  eq_iff (format_uint id) (format_uint cell),
  eq_iff id cell,
  ap format_uint {x = id} {y = cell},
  format_uint-injective id cell h.0 l,
)

want_other :
    (w : Wanted) (call : Call) (conn : Conn) (d : Text)
    → (caller call == conn) ≡ false
    → want w call conn d ≡ w conn d
unfolding want
want_other w (to_cell j ids) conn d h = ground arith
want_other w (to_channel j channel unsub) conn d h = ground arith
want_other w (leave j) conn d h = ground arith

want_all_others :
    (w : Wanted) (calls : List Call) (conn : Conn) (d : Text)
    → all_others conn calls ≡ true
    → want_all w calls conn d ≡ w conn d
unfolding want_all
want_all_others w [] conn d h = refl
want_all_others w (call ∷ calls) conn d h =
    ground (arith, want_all_others (want w call) calls conn d, want_other w call conn d)

want_all-append :
    (w : Wanted) (xs ys : List Call) → want_all w (xs ++ ys) ≡ want_all (want_all w xs) ys
unfolding want_all
want_all-append w [] ys = refl
want_all-append w (call ∷ xs) ys = want_all-append (want w call) xs ys

want_all_last :
    (w : Wanted) (before after : List Call) (conn : Conn) (ids : List ℕ) (d : Text)
    → all_others conn after ≡ true
    → want_all w (before ++ to_cell conn ids ∷ after) conn d ≡ elem d (map format_uint ids)
unfolding want_all want
want_all_last w before after conn ids d h = ground (
  arith,
  ap (λ (v : Wanted). v conn d) (want_all-append w before (to_cell conn ids ∷ after)),
  want_all_others (want (want_all w before) (to_cell conn ids)) after conn d,
  eq_self conn,
)

-- After any calls that Redis accepts, of which the last for a connection was for the cells `ids`: a
-- message on the channel of a cell is written to that connection, once, if the cell is one of `ids`,
-- and not at all if it is not. Ids are `uint64`, and different ones have different channels.
pub receive_cell :
    (ps : PubSub) (order : List Text → List Text) (visits : List Conn → List Conn) (url : Text)
    (c : ps.State) (before after : List Call) (conn : Conn) (ids : List ℕ) (cell : ℕ)
    (data' : Bytes) (out : Outboxes)
    → IsOrder order
    → IsOrder visits
    → all_quiet order (make_subscriber {ps = ps} url c) (before ++ to_cell conn ids ∷ after) ≡ true
    → all_others conn after ≡ true
    → cell < 2 ^ 64
    → All (λ id. id < 2 ^ 64) ids
    → let s = run order (make_subscriber {ps = ps} url c) (before ++ to_cell conn ids ∷ after) in
      (out' : Outboxes) × (receive visits s (message (format_uint cell) data') out ≡ some out')
      × (out' conn ≡ (if elem cell ids then WebSocket.write (out conn) data' else out conn))
receive_cell ps order visits url c before after conn ids cell data' out o v quiet others small all =
    let calls = before ++ to_cell conn ids ∷ after in
    let s = run order (make_subscriber {ps = ps} url c) calls in
    let channel = format_uint cell in
    let (out', got, each) = receive_message ps visits s channel data' out v in
    let follows : listening s channel conn ≡ elem cell ids =
      (run-refines ps url c order calls conn channel o quiet).1
      ∙ want_all_last (λ j b. false) before after conn ids channel others
      ∙ elem-map-format_uint cell ids small all in
    (out', got, rw (sym follows) (each conn))
