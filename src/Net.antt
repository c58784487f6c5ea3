-- ===== src/Net.antt =====
-- net.Conn, the stream that core/message.go reads from and writes to: an interface of the standard
-- library whose implementation is the network. `read s n` is `Read` into a buffer of `n` bytes: what
-- was delivered, the error and the connection after it. It may deliver fewer bytes than it was asked for.
use envisilab.Base.{ℕ, ◌-◌, ◌≤◌, ◌≡◌, none, ◌++◌, Bytes, Error, length, replicate}

pub record NetConn : Type 1 where
  pub State : Type 0
  pub read : State → ℕ → Bytes × Error × State
  pub write : State → Bytes → ℕ × Error × State
  pub read_bound : (s : State) (n : ℕ) → length (read s n).0 ≤ n

-- A connection that loses nothing, delivers all of what is there for a read, and does not fail: the
-- best that the interface allows.
pub record IsPipe (c : NetConn) : Type 0 where
  pub pending : c.State → Bytes
  pub read_all :
      (s : c.State) (n : ℕ) (xs rest : Bytes)
      → length xs ≡ n
      → pending s ≡ xs ++ rest
      → (s' : c.State) × (c.read s n ≡ (xs, none, s')) × (pending s' ≡ rest)
  pub write_all :
      (s : c.State) (bs : Bytes)
      → (s' : c.State) × (c.write s bs ≡ (length bs, none, s')) × (pending s' ≡ pending s ++ bs)

-- `c.Read(make([]byte, n))`: the buffer is zeroed first and keeps its length.
unfoldable pub fill : (c : NetConn) → c.State → ℕ → ℕ × Bytes × Error × c.State
fill c s n =
    let (got, err, s') = c.read s n in (length got, got ++ replicate (n - length got) 0, err, s')
