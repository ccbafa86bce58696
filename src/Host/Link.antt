-- ===== src/Host/Link.antt =====
-- What proofs assume of a connection: documented behaviour of io.ReadFull and of a byte stream.
use zwing.Base.{ℕ, ◌≤◌, ◌≡◌, Bytes, ◌++◌, length, take, drop, ok}
use zwing.Host.{Host}

module _ (H : Host) where
  -- io.ReadFull returns no error exactly when it read the whole buffer.
  pub record IsExact : Type 0 where
    pub read_length :
        (c : H.RawConn) (n : ℕ) (w w' : H.World) (bs : Bytes)
        → H.conn_read_full c n w ≡ (ok bs, w')
        → length bs ≡ n

  -- One direction of a stream that is up: what is written at `near` is read at `far`, in order.
  pub record Link (near far : H.RawConn) : Type 0 where
    pub pending : H.World → Bytes
    pub write :
        (bs : Bytes) (w : H.World)
        → (w' : H.World) × (H.conn_write near bs w ≡ (ok tt, w')) × (pending w' ≡ pending w ++ bs)
    pub read :
        (n : ℕ) (w : H.World)
        → n ≤ length (pending w)
        → (w' : H.World) × (H.conn_read_full far n w ≡ (ok (take n (pending w)), w'))
          × (pending w' ≡ drop n (pending w))
