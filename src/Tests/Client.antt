-- ===== src/Tests/Client.antt =====
-- client/client.go over a connection in memory.
use envisilab.Base.{
  ℕ, ◌++◌, List, length, take, drop, replicate, none, refl, false, Option, [], ◌∷◌, Bytes, Text,
}
use envisilab.Base.Int.{ℤ, pos}
use envisilab.Message.Header.{nil_uuid}
use envisilab.Client.{marshal_data, Client}
use envisilab.Net.{NetConn}
use envisilab.Tests.Instances.{length-take_le}
use envisilab.Client.Round.{IsLogged}
use envisilab.Tests.Message.{place}

-- An activity is a byte, and JSON is the bytes.
abbrev from_buffer : Bytes → ℕ × Bytes
from_buffer [] = (0, [])
from_buffer (b ∷ bs) = (b, bs)

abbrev marshal : Option Bytes → Option Text
marshal = marshal_data from_buffer (λ activities. (activities, none))

abbrev client : Client
client = record { token_id = nil_uuid; connected = false; loc = place; count = 0 }

-- The state is what was written, and what is there to be read.
abbrev logged : NetConn
logged = record {
  State = Bytes × Bytes;
  read = λ s n. (take n s.1, none, (s.0, drop n s.1));
  write = λ s bs. (length bs, none, (s.0 ++ bs, s.1));
  read_bound = λ s n. length-take_le n s.1;
}

abbrev logged-IsLogged : IsLogged logged
logged-IsLogged = record { log = λ s. s.0; write_logs = λ s bs. refl; read_logs = λ s n. refl }

-- A sync response for the client, with a token.
abbrev answering : Bytes × Bytes
answering =
    ([], 101 ∷ 1 ∷ 2 ∷ 0 ∷ (nil_uuid ++ 0 ∷ 0 ∷ 0 ∷ 32 ∷ (replicate 16 4 ++ replicate 16 5)))

abbrev conns : List (List ℤ × (Bytes × Bytes))
conns = (pos 1 ∷ pos 2 ∷ [], answering) ∷ ([], ([], [])) ∷ (pos 3 ∷ [], ([], [])) ∷ []
