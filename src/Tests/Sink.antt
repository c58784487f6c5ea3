-- ===== src/Tests/Sink.antt =====
-- sink/sink.go over a connection in memory.
use envisilab.Base.{
  ℕ, ◌<◌, true, is_some, zero, suc, none, ap, ◌++◌, take, drop, take-append, drop-append, ◌≡◌, refl,
  some, List, [], ◌∷◌, arith, length, Bytes, Text, Error,
}
use envisilab.Wire.{be}
use envisilab.Location.{Location}
use envisilab.Net.{NetConn, IsPipe}
use envisilab.Message.RoundTrip.{with_length}
use envisilab.Sink.{hung_up, Dial, refused, connected, sink_main}
use envisilab.Sink.Prints.{counted_bytes}
use envisilab.Sink.Streams.{
  Packet, IsPacket, IsClosed, stream, Feeds, no_dials, not_there, there, prints, sink_main-prints,
}
use envisilab.Tests.Instances.{length-take_le}
use envisilab.Tests.Message.{header, header-IsHeader, place, place-IsLocation}

abbrev marshal : Location → Text
marshal l = l.lat ∷ []

abbrev places : List Location
places = place ∷ place ∷ []

size : length (counted_bytes places) ≡ 68
unfolding be
size = refl

abbrev packet : Packet
packet = (record (header 4) { length = length (counted_bytes places) }, places)

packet-IsPacket : IsPacket packet
packet-IsPacket = record {
  hdr = with_length (header 4) _ (header-IsHeader 4 (omega arith)) (omega (arith, size));
  msg_type = refl;
  size = refl;
  locations = (place-IsLocation, (place-IsLocation, tt));
  few = omega arith;
}

-- What there is to be read is the state, and behind it is the end.
abbrev ended : Bytes → ℕ → Error
ended [] zero = none
ended [] (suc n) = some (69 ∷ [])
ended (b ∷ bs) n = none

abbrev closing : NetConn
closing = record {
  State = Bytes;
  read = λ s n. (take n s, ended s n, drop n s);
  write = λ s bs. (length bs, none, s ++ bs);
  read_bound = λ s n. length-take_le n s;
}

whole : (s xs rest : Bytes) (n : ℕ) → length xs ≡ n → s ≡ xs ++ rest → ended s n ≡ none
whole [] [] rest zero l e = refl
whole [] [] rest (suc n) l e = absurd (omega arith)
whole [] (x ∷ xs) rest n l e = absurd (ground (arith, e))
whole (b ∷ bs) xs rest n l e = refl

read_whole :
    (s xs rest : Bytes) (n : ℕ)
    → length xs ≡ n
    → s ≡ xs ++ rest
    → closing.read s n ≡ (xs, none, drop n s)
read_whole s xs rest n l e =
    ground (arith, whole s xs rest n l e, ap (take n) e, take-append n xs rest l)

abbrev closing-IsPipe : IsPipe closing
closing-IsPipe = record {
  pending = λ s. s;
  read_all =
      λ s n xs rest l e. (drop n s, read_whole s xs rest n l e, rw e (drop-append n xs rest l));
  write_all = λ s bs. (s ++ bs, refl, refl);
}

ended_fails : (s : Bytes) (n : ℕ) → s ≡ [] → 0 < n → is_some (ended s n) ≡ true
ended_fails [] zero empty more = absurd (omega arith)
ended_fails [] (suc n) empty more = refl
ended_fails (b ∷ bs) n empty more = absurd (ground (arith, empty))

closing-IsClosed : IsClosed closing closing-IsPipe
closing-IsClosed = record { at_end = ended_fails }

abbrev dials : List (Dial closing)
dials =
    connected (stream (packet ∷ packet ∷ [])) 5
    ∷ refused []
    ∷ connected (stream (packet ∷ [])) 2
    ∷ []

feeds : Feeds closing closing-IsPipe dials (packet ∷ packet ∷ packet ∷ [])
feeds =
    there (packet ∷ packet ∷ []) (packet-IsPacket, (packet-IsPacket, tt)) refl (omega arith)
      (not_there (there (packet ∷ []) (packet-IsPacket, tt) refl (omega arith) no_dials))

sink_main-prints_example :
    sink_main marshal closing dials ≡ (prints marshal (packet ∷ packet ∷ packet ∷ []), hung_up)
sink_main-prints_example =
    sink_main-prints marshal closing closing-IsPipe closing-IsClosed dials
      (packet ∷ packet ∷ packet ∷ []) feeds
