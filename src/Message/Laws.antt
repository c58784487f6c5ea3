-- ===== src/Message/Laws.antt =====
-- The header's bytes, and what `ReadHeader` and `receive` make of a connection that delivers them.
use mathlib.Core.List.{append_assoc, append-nil}
use envisilab.Base.{
  ℕ, ◌+◌, ◌^◌, ◌<◌, ◌≡◌, ap, ◌∙◌, ◌++◌, [], none, arith, Bytes, length, length-append,
}
use envisilab.Net.{NetConn, IsPipe, fill}
use envisilab.Wire.{be, binary_read}
use envisilab.Wire.Laws.{
  length-be, binary_read-append, next_word-be, next_word-be_last, next_array-append,
}
use envisilab.Message.Header.{Header, serialize, decode_header, read_header}
use envisilab.Message.Receive.{body, receive}

-- A header that this version of the program writes: its mark and version, and fields that their Go
-- types hold.
pub record IsHeader (h : Header) : Type 0 where
  pub magic : h.magic ≡ 101
  pub version : h.version ≡ 1
  pub msg_type : h.msg_type < 256
  pub user_agent : h.user_agent < 256
  pub uuid : length h.uuid ≡ 16
  pub length : h.length < 2 ^ 32

abbrev pub header_bytes : Header → Bytes
header_bytes h =
    be 1 h.magic
    ++ (be 1 h.version ++ (be 1 h.msg_type ++ (be 1 h.user_agent ++ (h.uuid ++ be 4 h.length))))

pub serialize-append : (h : Header) (buf : Bytes) → serialize h buf ≡ buf ++ header_bytes h
unfolding serialize
serialize-append h buf = simp append_assoc

pub length-header_bytes : (h : Header) → length h.uuid ≡ 16 → length (header_bytes h) ≡ 24
length-header_bytes h e = simp (length-append, length-be, e)

decode_header-bytes : (h : Header) → IsHeader h → decode_header (header_bytes h) ≡ h
unfolding decode_header
decode_header-bytes h v = simp (
  next_word-be 1 h.magic _ (omega arith),
  next_word-be 1 h.version _ (omega arith),
  next_word-be 1 h.msg_type _ v.msg_type,
  next_word-be 1 h.user_agent _ v.user_agent,
  next_array-append 16 h.uuid _ v.uuid,
  next_word-be_last 4 h.length v.length,
)

binary_read_bytes :
    (h0 h : Header) → IsHeader h → binary_read 24 decode_header h0 (header_bytes h) ≡ (h, [], none)
binary_read_bytes h0 h v =
    rw append-nil at
      (binary_read-append 24 decode_header h0 (header_bytes h) [] (length-header_bytes h v.uuid))
    ∙ ap (λ (d : Header). (d, [], none)) (decode_header-bytes h v)

pub read_header-bytes :
    (c : NetConn) (h h0 : Header) (s s' : c.State)
    → IsHeader h
    → c.read s 24 ≡ (header_bytes h, none, s')
    → read_header c h0 s ≡ (h, none, s')
unfolding read_header fill
read_header-bytes c h h0 s s' v got = ground (
  arith,
  got,
  length-header_bytes h v.uuid,
  append-nil (header_bytes h),
  decode_header-bytes h v,
  binary_read_bytes h0 h v,
)

module _ (c : NetConn) (p : IsPipe c) where
  fill-pipe :
      (s : c.State) (n : ℕ) (xs rest : Bytes)
      → length xs ≡ n
      → p.pending s ≡ xs ++ rest
      → (s' : c.State) × (fill c s n ≡ (n, xs, none, s')) × (p.pending s' ≡ rest)
  unfolding fill
  fill-pipe s n xs rest l e =
      let (s', got, left) = p.read_all s n xs rest l e in
      (s', ground (arith, got, append-nil xs), left)

  pub read_header-pipe :
      (h h0 : Header) (s : c.State) (rest : Bytes)
      → IsHeader h
      → p.pending s ≡ header_bytes h ++ rest
      → (s' : c.State) × (read_header c h0 s ≡ (h, none, s')) × (p.pending s' ≡ rest)
  read_header-pipe h h0 s rest v e =
      let (s', got, left) =
        p.read_all s 24 (header_bytes h) rest (length-header_bytes h v.uuid) e in
      (s', read_header-bytes c h h0 s s' v got, left)

  receive-pipe :
      (h h0 : Header) (s : c.State) (payload rest : Bytes)
      → IsHeader h
      → length payload ≡ h.length
      → p.pending s ≡ header_bytes h ++ (payload ++ rest)
      → (s' : c.State) × (receive c h.msg_type h0 s ≡ (h, body payload, s')) × (p.pending s' ≡ rest)
  unfolding receive
  receive-pipe h h0 s payload rest v l e =
      let (s1, head, left) = read_header-pipe h h0 s (payload ++ rest) v e in
      let (s2, tail, left') = fill-pipe s1 h.length payload rest l left in
      (s2, ground (arith, head, tail), left')

  pub receive-pipe_of :
      (t : ℕ) (h h0 : Header) (s : c.State) (payload rest : Bytes)
      → h.msg_type ≡ t
      → IsHeader h
      → length payload ≡ h.length
      → p.pending s ≡ header_bytes h ++ (payload ++ rest)
      → (s' : c.State) × (receive c t h0 s ≡ (h, body payload, s')) × (p.pending s' ≡ rest)
  receive-pipe_of t h h0 s payload rest is_t v l e =
      let (s', got, left) = receive-pipe h h0 s payload rest v l e in (s', rw (← is_t) got, left)

  -- What a method writes at once, header and payload, is received at the other end.
  pub receive-write :
      (t : ℕ) (h h0 : Header) (s : c.State) (payload : Bytes)
      → h.msg_type ≡ t
      → IsHeader h
      → length payload ≡ h.length
      → p.pending s ≡ []
      → let w = c.write s (header_bytes h ++ payload) in
        (w.0 ≡ 24 + h.length)
        × (w.1 ≡ none)
        × (s' : c.State) × (receive c t h0 w.2 ≡ (h, body payload, s'))
        × (p.pending s' ≡ [])
  receive-write t h h0 s payload is_t v l e =
      let (s1, sent, there) = p.write_all s (header_bytes h ++ payload) in
      let (s2, got, left) =
        receive-pipe_of t h h0 s1 payload [] is_t v l (there ∙ rw (e, append-nil payload)) in
      (
        rw sent
            (omega (arith, length-append (header_bytes h) payload, length-header_bytes h v.uuid)),
        rw sent,
        s2,
        rw sent got,
        left,
      )
