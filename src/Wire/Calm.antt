-- ===== src/Wire/Calm.antt =====
-- Reading and writing frames (wire.go), and what lies outside the connection.
use zwing.Base.{ℕ, Bytes}
use zwing.Base.Keeps.{Keeps, keeps_rules}
use zwing.Host.{Host}
use zwing.Wire.{write_frame, read_payload, read_frame}

module _ (H : Host) (c : H.RawConn) {V : Type 0} (v : H.World → V) where
  pub write_frame-Keeps :
      ((bs : Bytes) → Keeps v (H.conn_write c bs)) → (p : Bytes) → Keeps v (write_frame H c p)
  unfolding write_frame
  write_frame-Keeps k p = search (keeps_rules, k)

  read_payload-Keeps :
      ((n : ℕ) → Keeps v (H.conn_read_full c n)) → (n : ℕ) → Keeps v (read_payload H c n)
  unfolding read_payload
  read_payload-Keeps k n = search (keeps_rules, k)

  pub read_frame-Keeps : ((n : ℕ) → Keeps v (H.conn_read_full c n)) → Keeps v (read_frame H c)
  unfolding read_frame
  read_frame-Keeps k = search (keeps_rules, k, read_payload-Keeps)
