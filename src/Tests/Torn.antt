-- ===== src/Tests/Torn.antt =====
-- A data response that comes in two parts.
use envisilab.Base.{
  ℕ, zero, suc, ◌<◌, ◌≤◌, ◌≡◌, ◌≢◌, ◌++◌, refl, ap, ◌∙◌, none, some, arith, List, [], ◌∷◌, length,
  take, drop, take-append, drop-append, replicate, Bytes, Error,
}
use envisilab.Net.{NetConn}
use envisilab.Message.Header.{Header, zero_header}
use envisilab.Message.Laws.{header_bytes}
use envisilab.Message.DataResponse.{DataResponseMsg}
use envisilab.Message.DataResponse
use envisilab.Message.RoundTrip.DataResponse.{IsDataResponse}
use envisilab.Message.Torn.{IsParted, read_torn}
use envisilab.Tests.Instances.{length-take_le, buffer}
use envisilab.Tests.Message.{header, header-IsHeader}

-- Each read takes from one part, and what is left of it comes with the next.
abbrev behind : Bytes → List Bytes → List Bytes
behind [] parts = parts
behind (b ∷ bs) parts = (b ∷ bs) ∷ parts

abbrev from_part : List Bytes → ℕ → Bytes × Error × List Bytes
from_part [] n = ([], none, [])
from_part (part ∷ parts) n = (take n part, none, behind (drop n part) parts)

part_bound : (parts : List Bytes) (n : ℕ) → length (from_part parts n).0 ≤ n
part_bound [] n = omega arith
part_bound (part ∷ parts) n = length-take_le n part

abbrev parted : NetConn
parted = record {
  State = List Bytes;
  read = from_part;
  write = λ s bs. (length bs, none, s);
  read_bound = part_bound;
}

behind_some : (bs : Bytes) (rest : List Bytes) → 0 < length bs → behind bs rest ≡ bs ∷ rest
behind_some [] rest some_bs = absurd (omega arith)
behind_some (b ∷ bs) rest some_bs = refl

take_whole : (n : ℕ) (bs : Bytes) → length bs ≤ n → (take n bs ≡ bs) × (drop n bs ≡ [])
take_whole zero [] h = (refl, refl)
take_whole zero (b ∷ bs) h = absurd (omega arith)
take_whole (suc n) [] h = (refl, refl)
take_whole (suc n) (b ∷ bs) h =
    let (all, none_left) = take_whole n bs (omega arith) in
    (ap (λ (l : Bytes). b ∷ l) all, none_left)

front_read :
    (n : ℕ) (xs ys : Bytes) (rest : List Bytes)
    → length xs ≡ n
    → 0 < length ys
    → from_part ((xs ++ ys) ∷ rest) n ≡ (xs, none, ys ∷ rest)
front_read n xs ys rest l some_ys =
    rw (take-append n xs ys l, drop-append n xs ys l, behind_some ys rest some_ys) refl

part_read :
    (n : ℕ) (xs : Bytes) (rest : List Bytes)
    → length xs ≤ n
    → from_part (xs ∷ rest) n ≡ (xs, none, rest)
part_read n xs rest l = rw ((take_whole n xs l).0, (take_whole n xs l).1) refl

abbrev parted-IsParted : IsParted parted
parted-IsParted = record {
  parts = λ s. s;
  read_front = λ s n xs ys rest e l some_ys.
      (ys ∷ rest, ap (λ ps. from_part ps n) e ∙ front_read n xs ys rest l some_ys, refl);
  read_part = λ s n xs rest e l. (rest, ap (λ ps. from_part ps n) e ∙ part_read n xs rest l, refl);
}

abbrev xs : Bytes
xs = 5 ∷ 6 ∷ []

abbrev ys : Bytes
ys = 7 ∷ 8 ∷ []

abbrev whole : DataResponseMsg
whole = record { hdr = header 4; contents = some (xs ++ ys) }

whole-IsDataResponse : IsDataResponse whole (xs ++ ys)
whole-IsDataResponse = record {
  hdr = header-IsHeader 4 (omega arith);
  msg_type = refl;
  contents = refl;
  fits = omega arith;
}

abbrev sent_header : Header
sent_header = record (header 4) { length = 4 }

abbrev no_data : DataResponseMsg
no_data = record { hdr = zero_header; contents = none }

-- The header with two bytes of the data, and the other two.
abbrev parts : List Bytes
parts = (header_bytes sent_header ++ xs) ∷ ys ∷ []

not_zeros : ys ≢ replicate 2 0
not_zeros = λ e. ground (arith, e)

read_torn_example :
    (let (got, s') = DataResponse.read parted no_data parts in
      (DataResponse.write buffer whole []
        ≡ some (
          record { hdr = sent_header; contents = some (xs ++ ys) },
          buffer.write [] ((header_bytes sent_header ++ xs) ++ ys),
        ))
      × (got ≡ (record { hdr = sent_header; contents = some (5 ∷ 6 ∷ 0 ∷ 0 ∷ []) }, none))
      × (◌≢◌ {A = Bytes} (5 ∷ 6 ∷ 0 ∷ 0 ∷ []) (xs ++ ys))
      × (s' ≡ ys ∷ []))
read_torn_example =
    read_torn whole no_data xs ys [] buffer parted parted-IsParted [] parts whole-IsDataResponse
      (omega arith) not_zeros refl
