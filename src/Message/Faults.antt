-- ===== src/Message/Faults.antt =====
-- core/message.go: what `ReadHeader` and the `Read` methods accept, and what they let pass.
use envisilab.Base.{
  ℕ, ◌-◌, ◌<◌, ◌≡◌, ◌≢◌, ◌⊎◌, none, arith, nat_beq_iff, Bytes, length, length-append,
  length-replicate, replicate,
}
use envisilab.Net.{NetConn, fill}
use envisilab.Message.Header.{Header, read_header}
use envisilab.Message.Receive.{stop, body, receive}
use envisilab.Message.SyncResponse.{SyncResponseMsg}
use envisilab.Message.SyncResponse

module _ (c : NetConn) where
  -- The buffer that `Read` fills keeps the length that it was made with.
  length-fill : (s : c.State) (n : ℕ) → length (fill c s n).1 ≡ n
  unfolding fill
  length-fill s n =
      let got = (c.read s n).0 in
      omega (
        arith,
        length-append got (replicate (n - length got) 0),
        length-replicate {A = ℕ} (n - length got) 0,
        c.read_bound s n,
      )

  -- `ReadHeader` returns no error only for a header with the program's mark and version, or
  -- where fewer than 8 bytes arrived: then the header stays as it was.
  pub read_header_ok :
      (hdr h : Header) (s s' : c.State)
      → read_header c hdr s ≡ (h, none, s')
      → ((h ≡ hdr) × (length (c.read s 24).0 < 8)) ⊎ ((h.magic ≡ 101) × (h.version ≡ 1))
  unfolding read_header fill
  read_header_ok hdr h s s' e = ground arith

  -- A `Read` that goes on to the payload has a header of the wanted type, and as many bytes as the
  -- header says.
  pub receive_body :
      (t : ℕ) (hdr h : Header) (s s' : c.State) (bs : Bytes)
      → receive c t hdr s ≡ (h, body bs, s')
      → (h.msg_type ≡ t) × (length bs ≡ h.length)
  unfolding receive
  receive_body t hdr h s s' bs e =
      let (h1, err1, s1) = read_header c hdr s in
      ground (arith, length-fill s1 h1.length, nat_beq_iff h1.msg_type t)

  -- After a whole header of another type, `receive` stops with no error.
  pub receive_wrong_type :
      (t : ℕ) (hdr h : Header) (s s' : c.State)
      → read_header c hdr s ≡ (h, none, s')
      → h.msg_type ≢ t
      → receive c t hdr s ≡ (h, stop none, s')
  unfolding receive
  receive_wrong_type t hdr h s s' e ne = ground (arith, nat_beq_iff h.msg_type t)

  -- Where fewer than 8 bytes arrive and the connection reports no error, `Read` into a sync response
  -- whose header has another type so far returns `nil` and leaves the response as it was.
  pub read_short :
      (m : SyncResponseMsg) (s : c.State)
      → m.hdr.msg_type ≢ 2
      → length (c.read s 24).0 < 8
      → (c.read s 24).1 ≡ none
      → SyncResponse.read c m s ≡ ((m, none), (c.read s 24).2)
  unfolding SyncResponse.read read_header fill
  read_short m s ne short fine =
      rw (receive_wrong_type 2 m.hdr m.hdr s (c.read s 24).2 (ground arith) ne)
