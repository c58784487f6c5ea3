-- ===== src/Sink/Prints.antt =====
-- What sink/sink.go prints of a message.
use mathlib.Core.List.{append_assoc, append-nil}
use envisilab.Base.{
  ℕ, ◌^◌, ◌<◌, ◌≡◌, ◌≢◌, ap, sym, ◌∙◌, none, some, ◌++◌, List, [], ◌∷◌, arith, length, All, Bytes,
  Text, Error,
}
use envisilab.Net.{NetConn, IsPipe}
use envisilab.Wire.{be, from_be}
use envisilab.Wire.Laws.{length-be, from_be-be, binary_read-append}
use envisilab.Location.{Location}
use envisilab.Location.Laws.{IsLocation, location_bytes, deserialize-bytes}
use envisilab.Cell.{zero_location}
use envisilab.Message.Header.{Header, read_header}
use envisilab.Message.Faults.{receive_wrong_type}
use envisilab.Message.DataResponse.{DataResponseMsg}
use envisilab.Message.DataResponse
use envisilab.Message.RoundTrip.DataResponse.{IsDataResponse, read-write_data_response}
use envisilab.Sink.{
  marshal_locations, marshal_data, printed, panicked, no_message, sink_round, newline,
}

-- Locations on the wire behind their count, a word of 4 bytes.
abbrev pub all_bytes : List Location → Bytes
all_bytes [] = []
all_bytes (l ∷ ls) = location_bytes l ++ all_bytes ls

abbrev pub counted_bytes : List Location → Bytes
counted_bytes ls = be 4 (length ls) ++ all_bytes ls

module _ (marshal : Location → Text) where
  -- A line for each location.
  abbrev pub lines : List Location → Text
  lines [] = []
  lines (l ∷ ls) = (marshal l ++ newline ∷ []) ++ lines ls

  marshal_locations-all_bytes :
      (ls : List Location) (s : Text)
      → All IsLocation ls
      → marshal_locations marshal (length ls) (all_bytes ls) s ≡ s ++ lines ls
  unfolding marshal_locations
  marshal_locations-all_bytes [] s v = sym (append-nil s)
  marshal_locations-all_bytes (l ∷ ls) s v =
      rw (deserialize-bytes l zero_location (all_bytes ls) v.0, marshal_locations)
        (marshal_locations-all_bytes ls (s ++ (marshal l ++ newline ∷ [])) v.1
          ∙ append_assoc s (marshal l ++ newline ∷ []) (lines ls))

  pub marshal_data-counted_bytes :
      (ls : List Location)
      → All IsLocation ls
      → length ls < 2 ^ 32
      → marshal_data marshal (some (counted_bytes ls)) ≡ some (lines ls)
  unfolding marshal_data
  marshal_data-counted_bytes ls v small =
      rw
        (
          binary_read-append 4 from_be 0 (be 4 (length ls)) (all_bytes ls)
              (length-be 4 (length ls)),
          from_be-be 4 (length ls) (omega (arith, small)),
        )
        (ap some (marshal_locations-all_bytes ls [] v))

  -- A data response that holds locations behind their count, fewer than 2^32 of them: over a connection
  -- with nothing pending that delivers whatever was written, the sink prints, for what `Write` sent, a
  -- line for each location, in their order.
  pub sink_round-write :
      (m : DataResponseMsg) (ls : List Location) (c : NetConn) (p : IsPipe c) (s : c.State)
      → IsDataResponse m (counted_bytes ls)
      → All IsLocation ls
      → length ls < 2 ^ 32
      → p.pending s ≡ []
      → (n : ℕ) × (err : Error) × (s1 : c.State) × (DataResponse.write c m s
          ≡ some (
            record m { hdr = record (m.hdr) { length = length (counted_bytes ls) } },
            (n, err, s1),
          ))
        × ((sink_round marshal c s1).0 ≡ printed (lines ls))
  unfolding sink_round
  sink_round-write m ls c p s v all small empty =
      let (n, err, s1, sent, size, fine, got, left) =
        read-write_data_response m no_message (counted_bytes ls) v c p s empty in
      (n, err, s1, sent, ground (arith, got, v.contents, marshal_data-counted_bytes ls all small))

  read_other_type :
      (c : NetConn) (h : Header) (s s' : c.State)
      → read_header c no_message.hdr s ≡ (h, none, s')
      → h.msg_type ≢ 4
      → DataResponse.read c no_message s ≡ ((record no_message { hdr = h }, none), s')
  unfolding DataResponse.read DataResponse.finish
  read_other_type c h s s' e ne = rw (receive_wrong_type c 4 no_message.hdr h s s' e ne)

  -- A message of another type ends the sink by a panic: `Read` returns no error for it and leaves no
  -- buffer behind, and `marshalData` reads from that.
  pub sink_round_panics :
      (c : NetConn) (h : Header) (s s' : c.State)
      → read_header c no_message.hdr s ≡ (h, none, s')
      → h.msg_type ≢ 4
      → sink_round marshal c s ≡ (panicked, s')
  unfolding sink_round marshal_data
  sink_round_panics c h s s' e ne = ground (arith, read_other_type c h s s' e ne)
