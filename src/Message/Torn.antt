-- ===== src/Message/Torn.antt =====
-- core/message.go over a connection that delivers a message in parts: `Read` of a net.Conn may return
-- fewer bytes than it was asked for, with no error, and each method reads its payload once.
use mathlib.Core.List.{append_assoc}
use envisilab.Base.{
  ℕ, ◌-◌, ◌<◌, ◌≤◌, ◌≡◌, ◌≢◌, refl, sym, ap, ◌∙◌, none, some, List, ◌∷◌, ◌++◌, arith, Bytes, drop,
  drop-append, length, length-append, nat_beq_iff, replicate,
}
use envisilab.Net.{NetConn, fill}
use envisilab.Message.Header.{Header, read_header}
use envisilab.Message.Receive.{body, receive}
use envisilab.Message.Laws.{header_bytes, length-header_bytes, read_header-bytes}
use envisilab.Message.DataResponse.{DataResponseMsg}
use envisilab.Message.DataResponse
use envisilab.Message.RoundTrip.{with_length}
use envisilab.Message.RoundTrip.DataResponse.{IsDataResponse, write-data_response}

-- A connection on which the bytes arrive in parts: a read takes what it is asked for from the first of
-- them, and a read of more than is left of that takes all of it.
pub record IsParted (c : NetConn) : Type 0 where
  pub parts : c.State → List Bytes
  pub read_front :
      (s : c.State) (n : ℕ) (xs ys : Bytes) (rest : List Bytes)
      → parts s ≡ (xs ++ ys) ∷ rest
      → length xs ≡ n
      → 0 < length ys
      → (s' : c.State) × (c.read s n ≡ (xs, none, s')) × (parts s' ≡ ys ∷ rest)
  pub read_part :
      (s : c.State) (n : ℕ) (xs : Bytes) (rest : List Bytes)
      → parts s ≡ xs ∷ rest
      → length xs ≤ n
      → (s' : c.State) × (c.read s n ≡ (xs, none, s')) × (parts s' ≡ rest)

receive_torn :
    (c : NetConn) (t : ℕ) (hdr h : Header) (s s1 s2 : c.State) (xs : Bytes)
    → read_header c hdr s ≡ (h, none, s1)
    → h.msg_type ≡ t
    → c.read s1 h.length ≡ (xs, none, s2)
    → receive c t hdr s ≡ (h, body (xs ++ replicate (h.length - length xs) 0), s2)
unfolding receive fill
receive_torn c t hdr h s s1 s2 xs head is_t part =
    ground (arith, head, part, (nat_beq_iff h.msg_type t).1 is_t)

other_bytes :
    (xs ys : Bytes) (n : ℕ)
    → ys ≢ replicate (length ys) 0
    → n ≡ length ys
    → xs ++ replicate n 0 ≢ xs ++ ys
other_bytes xs ys n other size same =
    let zeros = replicate n 0 in
    let rest : zeros ≡ ys =
      sym (drop-append (length xs) xs zeros refl)
      ∙ ap (drop (length xs)) same
      ∙ drop-append (length xs) xs ys refl in
    other (sym rest ∙ ap (λ k. replicate k 0) size)

-- A data response whose data are `xs` and then `ys`, with the program's mark, version and type, which
-- is written to one connection and arrives over another in two parts, of which the first ends behind
-- `xs`: `Write` hands over the two parts as one, and `Read` reports no error, though its buffer has
-- zeros in place of `ys` and is not what was sent. `ys` is still to come, where the next `Read` takes
-- it for a header. Some of `xs` is there, and `ys` is not all zeros.
pub read_torn :
    (m m0 : DataResponseMsg) (xs ys : Bytes) (rest : List Bytes) (w c : NetConn) (i : IsParted c)
    (start : w.State) (s : c.State)
    → IsDataResponse m (xs ++ ys)
    → 0 < length xs
    → ys ≢ replicate (length ys) 0
    → let h : Header = record (m.hdr) { length = length (xs ++ ys) } in
      let first = header_bytes h ++ xs in
      i.parts s ≡ first ∷ ys ∷ rest
      → let (got, s') = DataResponse.read c m0 s in
        let data' = xs ++ replicate (length ys) 0 in
        (DataResponse.write w m start ≡ some (record m { hdr = h }, w.write start (first ++ ys)))
        × (got ≡ (record m { hdr = h; contents = some data' }, none))
        × (data' ≢ xs ++ ys)
        × (i.parts s' ≡ ys ∷ rest)
unfolding DataResponse.read DataResponse.finish
read_torn m m0 xs ys rest w c i start s v some_xs other parted =
    let h : Header = record (m.hdr) { length = length (xs ++ ys) } in
    let valid = with_length m.hdr (length (xs ++ ys)) v.hdr v.fits in
    let both = length-append xs ys in
    let (s1, front, left1) =
      i.read_front s 24 (header_bytes h) xs (ys ∷ rest) parted (length-header_bytes h valid.uuid)
        some_xs in
    let (s2, part, left2) = i.read_part s1 h.length xs (ys ∷ rest) left1 (omega (arith, both)) in
    let head = read_header-bytes c h m0.hdr s s1 valid front in
    let got = receive_torn c 4 m0.hdr h s s1 s2 xs head v.msg_type part in
    let size : h.length - length xs ≡ length ys = omega (arith, both) in
    (
      write-data_response m m0 (xs ++ ys) v w start
          ∙ ap (λ (bs : Bytes). some (record m { hdr = h }, w.write start bs))
              (sym (append_assoc (header_bytes h) xs ys)),
      rw (got, size) refl,
      other_bytes xs ys (length ys) other refl,
      rw got left2,
    )
