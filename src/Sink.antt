-- ===== src/Sink.antt =====
-- sink/sink.go: it prints the locations of the data responses that it reads.
pub mod Prints
pub mod Streams
use envisilab.Base.{ℕ, zero, suc, Option, none, some, ◌++◌, List, [], ◌∷◌, Bytes, Text, Error}
use envisilab.Net.{NetConn}
use envisilab.Wire.{binary_read, from_be}
use envisilab.Location.{Location, deserialize}
use envisilab.Cell.{zero_location}
use envisilab.Message.Header.{zero_header}
use envisilab.Message.DataResponse.{DataResponseMsg}
use envisilab.Message.DataResponse

abbrev pub newline : ℕ
newline = 10

-- How a round of the inner loop of `main` ends: something is printed and the next round follows; or
-- the loop ends with the error of the read; or the program does, by a panic.
pub data Round : Type 0 where
  printed : Text → Round
  failed : Text → Round
  panicked : Round

-- How far the inner loop has come: it is still in it, or it left it by an error, or the program ended.
pub data Ended : Type 0 where
  going_on hung_up crashed : Ended

-- What `net.Dial` returns.
pub data Dial (c : NetConn) : Type 0 where
  refused : Text → Dial c
  connected : c.State → ℕ → Dial c

abbrev pub no_message : DataResponseMsg
no_message = record { hdr = zero_header; contents = none }

-- `marshal` is encoding/json on a location, with nothing where it fails.
module _ (marshal : Location → Text) where
  -- The loop of `marshalData`, with the locations still to come.
  unfoldable pub marshal_locations : ℕ → Bytes → Text → Text
  marshal_locations zero data' s = s
  marshal_locations (suc i) data' s =
      let (loc, rest) = deserialize zero_location data' in
      marshal_locations i rest (s ++ (marshal loc ++ newline ∷ []))

  -- The error of reading the count is dropped. A read from the `nil` buffer is a panic, `none`.
  unfoldable pub marshal_data : Option Bytes → Option Text
  unfolding marshal_locations
  marshal_data none = none
  marshal_data (some data') =
      let (num, rest, err) = binary_read 4 from_be 0 data' in some (marshal_locations num rest [])

  unfoldable pub sink_round : (c : NetConn) → c.State → Round × c.State
  sink_round c s =
      let ((data_msg, err), s') = DataResponse.read c no_message s in
      (
        elim err [
          | some e ↦ failed e
          | none ↦ elim (marshal_data data_msg.contents) [ none ↦ panicked | some sd ↦ printed sd ]
        ],
        s',
      )

  -- The inner loop, as far as it has come in the rounds given: what it printed, and how it ended.
  unfoldable pub sink_rounds : (c : NetConn) → ℕ → c.State → List Text × Ended
  sink_rounds c zero s = ([], going_on)
  sink_rounds c (suc n) s =
      let (round, s') = sink_round c s in
      let (texts, ended) = sink_rounds c n s' in
      elim round [
        | printed sd ↦ (sd ∷ texts, ended)
        | failed e ↦ ([], hung_up)
        | panicked ↦ ([], crashed)
      ]

  -- `main`, over the connections that it dials, each with the rounds that its loop has had. It never
  -- returns; after the last of them it is about to dial again.
  unfoldable pub sink_main : (c : NetConn) → List (Dial c) → List Text × Ended
  unfolding sink_rounds
  sink_main c [] = ([], hung_up)
  sink_main c (refused e ∷ dials) = sink_main c dials
  sink_main c (connected s n ∷ dials) =
      let (texts, ended) = sink_rounds c n s in
      let (rest, last) = sink_main c dials in
      elim ended [ hung_up ↦ (texts ++ rest, last) | other ↦ (texts, other) ]
