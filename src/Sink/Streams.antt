-- ===== src/Sink/Streams.antt =====
-- What `main` of sink/sink.go prints over all its connections.
use envisilab.Base.{
  ℕ, zero, suc, ◌^◌, ◌<◌, ◌≡◌, refl, inl, inr, Option-cases, ap, sym, is_some, true, ◌++◌, List, [],
  ◌∷◌, arith, length, All, Bytes, Text,
}
use envisilab.Net.{NetConn, IsPipe, fill}
use envisilab.Location.{Location}
use envisilab.Location.Laws.{IsLocation}
use envisilab.Message.Header.{Header, read_header}
use envisilab.Message.Laws.{IsHeader, header_bytes, receive-pipe_of}
use envisilab.Message.Receive.{receive}
use envisilab.Message.DataResponse.{DataResponseMsg}
use envisilab.Message.DataResponse
use envisilab.Sink.{
  printed, failed, no_message, sink_round, hung_up, sink_rounds, Dial, refused, connected,
  sink_main,
}
use envisilab.Sink.Prints.{counted_bytes, lines, marshal_data-counted_bytes}

-- A data response on the wire: its header, and the locations that it holds behind their count.
abbrev pub Packet : Type 0
Packet = Header × List Location

pub record IsPacket (m : Packet) : Type 0 where
  pub hdr : IsHeader (m.0)
  pub msg_type : (m.0).msg_type ≡ 4
  pub size : (m.0).length ≡ length (counted_bytes (m.1))
  pub locations : All IsLocation (m.1)
  pub few : length (m.1) < 2 ^ 32

abbrev pub stream : List Packet → Bytes
stream [] = []
stream ((h, ls) ∷ ms) = header_bytes h ++ (counted_bytes ls ++ stream ms)

-- A pipe whose other end is closed: once nothing is pending, a read is an error.
pub record IsClosed (c : NetConn) (p : IsPipe c) : Type 0 where
  pub at_end : (s : c.State) (n : ℕ) → p.pending s ≡ [] → 0 < n → is_some (c.read s n).1 ≡ true

-- What comes over the connections that are dialled.
pub data Feeds (c : NetConn) (p : IsPipe c) : List (Dial c) → List Packet → Type 0 where
  no_dials : Feeds c p [] []
  not_there :
      {e : Text} {dials : List (Dial c)} {ms : List Packet}
      → Feeds c p dials ms
      → Feeds c p (refused e ∷ dials) ms
  there :
      {s : c.State} {n : ℕ} {dials : List (Dial c)} {ms : List Packet} (here : List Packet)
      → All IsPacket here
      → p.pending s ≡ stream here
      → length here < n
      → Feeds c p dials ms
      → Feeds c p (connected s n ∷ dials) (here ++ ms)

module _ (marshal : Location → Text) where
  -- What is printed of each.
  abbrev pub prints : List Packet → List Text
  prints [] = []
  prints (m ∷ ms) = lines marshal (m.1) ∷ prints ms

  prints-append : (ms ms' : List Packet) → prints (ms ++ ms') ≡ prints ms ++ prints ms'
  prints-append [] ms' = refl
  prints-append (m ∷ ms) ms' = ap (λ ts. lines marshal (m.1) ∷ ts) (prints-append ms ms')

  module _ (c : NetConn) (p : IsPipe c) where
    round_prints :
        (h : Header) (ls : List Location) (s : c.State) (rest : Bytes)
        → IsPacket (h, ls)
        → p.pending s ≡ header_bytes h ++ (counted_bytes ls ++ rest)
        → (s' : c.State) × (sink_round marshal c s ≡ (printed (lines marshal ls), s'))
          × (p.pending s' ≡ rest)
    unfolding sink_round DataResponse.read DataResponse.finish
    round_prints h ls s rest v e =
        let (s', got, left) =
          receive-pipe_of c p 4 h no_message.hdr s (counted_bytes ls) rest v.msg_type v.hdr
            (sym v.size) e in
        (s', ground (arith, got, marshal_data-counted_bytes marshal ls v.locations v.few), left)

    module _ (closed : IsClosed c p) where
      round_fails :
          (s : c.State)
          → p.pending s ≡ []
          → (e : Text) × (s' : c.State) × (sink_round marshal c s ≡ (failed e, s'))
      unfolding sink_round DataResponse.read DataResponse.finish receive read_header fill
      round_fails s empty = elim (Option-cases (c.read s 24).1) [
        | inl fine ↦ absurd (ground (arith, closed.at_end s 24 empty (omega arith), fine))
        | inr (e, failed_with) ↦ (e, (c.read s 24).2, ground (arith, failed_with))
      ]

      rounds_print :
          (ms : List Packet) (s : c.State) (n : ℕ)
          → All IsPacket ms
          → p.pending s ≡ stream ms
          → length ms < n
          → sink_rounds marshal c n s ≡ (prints ms, hung_up)
      unfolding sink_rounds
      rounds_print ms s zero v e more = absurd (omega (arith, more))
      rounds_print [] s (suc n) v e more =
          let (e', s', fails) = round_fails s e in ground (arith, fails)
      rounds_print ((h, ls) ∷ ms) s (suc n) v e more =
          let (s', once, left) = round_prints h ls s (stream ms) v.0 e in
          ground (arith, once, rounds_print ms s' n v.1 left (omega (arith, more)))

      -- The sink prints what the locations of every data response are, a line for each, in the order in
      -- which the responses come, over any connections that it has to dial one after the other, and it
      -- is then about to dial again. A connection may be refused, or it delivers whole data responses,
      -- whose locations are behind their count and hold no signalling NaN, and is then
      -- closed with an error.
      pub sink_main-prints :
          (dials : List (Dial c)) (ms : List Packet)
          → Feeds c p dials ms
          → sink_main marshal c dials ≡ (prints ms, hung_up)
      unfolding sink_main
      sink_main-prints [] ms no_dials = refl
      sink_main-prints (refused e ∷ dials) ms (not_there f) = sink_main-prints dials ms f
      sink_main-prints (connected s n ∷ dials) ms (there {ms = ms'} here v e more f) = ground (
        arith,
        rounds_print here s n v e more,
        sink_main-prints dials ms' f,
        prints-append here ms',
      )
