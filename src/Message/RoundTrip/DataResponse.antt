-- ===== src/Message/RoundTrip/DataResponse.antt =====
-- core/message.go: the round trip of `DataResponseMsg`.
use envisilab.Base.{ℕ, ◌+◌, ◌^◌, ◌<◌, ◌≡◌, ◌++◌, [], none, some, arith, Bytes, Error, refl, length}
use envisilab.Net.{NetConn, IsPipe}
use envisilab.Message.Header.{Header}
use envisilab.Message.Laws.{IsHeader, header_bytes, serialize-append, receive-write}
use envisilab.Message.DataResponse.{DataResponseMsg}
use envisilab.Message.DataResponse
use envisilab.Message.RoundTrip.{with_length}

pub record IsDataResponse (m : DataResponseMsg) (bytes : Bytes) : Type 0 where
  pub hdr : IsHeader m.hdr
  pub msg_type : m.hdr.msg_type ≡ 4
  pub contents : m.contents ≡ some bytes
  pub fits : length bytes < 2 ^ 32

length32_lem : (bs : Bytes) → length bs < 2 ^ 32 → DataResponse.length32 bs ≡ length bs
length32_lem bs h = omega arith

module _ (m m0 : DataResponseMsg) (bytes : Bytes) (v : IsDataResponse m bytes) where
  abbrev pub sent_data_response : DataResponseMsg
  sent_data_response = record m { hdr = record (m.hdr) { length = length bytes } }

  pub write-data_response :
      (c : NetConn) (s : c.State)
      → DataResponse.write c m s
        ≡ some (sent_data_response, c.write s (header_bytes sent_data_response.hdr ++ bytes))
  unfolding DataResponse.write
  write-data_response c s = rw v.contents (simp (serialize-append, length32_lem bytes v.fits))

  -- For a data response with the program's mark, version and type, whose buffer holds fewer than
  -- 2^32 bytes, over a connection with nothing pending that delivers whatever was written: `Write`
  -- does not panic, and `Read` returns what it sent, the data with their length in the header,
  -- without an error and leaving nothing unread.
  pub read-write_data_response :
      (c : NetConn) (p : IsPipe c) (s : c.State)
      → p.pending s ≡ []
      → (n : ℕ) × (err : Error) × (s1 : c.State) × (DataResponse.write c m s
          ≡ some (sent_data_response, (n, err, s1)))
        × (n ≡ 24 + length bytes)
        × (err ≡ none)
        × ((DataResponse.read c m0 s1).0 ≡ (sent_data_response, none))
        × (p.pending (DataResponse.read c m0 s1).1 ≡ [])
  unfolding DataResponse.read DataResponse.finish
  read-write_data_response c p s e =
      let h : Header = sent_data_response.hdr in
      let out = c.write s (header_bytes h ++ bytes) in
      let (n, err, s2, got, left) =
        receive-write c p 4 h m0.hdr s bytes v.msg_type (with_length m.hdr _ v.hdr v.fits) refl e in
      (
        out.0,
        out.1,
        out.2,
        write-data_response c s,
        n,
        err,
        rw got (ground (arith, v.contents)),
        rw got left,
      )
