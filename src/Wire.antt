-- ===== src/Wire.antt =====
-- wire.go: frames of a length in four bytes and a payload.
pub mod Frames
pub mod Calm
use zwing.Base.{ℕ, ◌^◌, ◌%◌, Bytes, length, put_be, get_be, ltb, ◌==◌, if◌then◌else◌}
use zwing.Base.{Proc, ◌>>=◌, ◌>>◌, fail, message_too_large, invalid_wire_format}
use zwing.Host.{Host}

abbrev pub max_frame_size : ℕ
max_frame_size = 2 ^ 20

module _ (H : Host) (c : H.RawConn) where
  unfoldable pub write_frame : Bytes → Proc H.World (Unit {0})
  write_frame payload =
      if ltb max_frame_size (length payload)
      then fail message_too_large
      else do H.conn_write c (put_be 4 (length payload % 2 ^ 32)); H.conn_write c payload

  -- From the length read on: its two checks, and the payload.
  unfoldable pub read_payload : ℕ → Proc H.World Bytes
  read_payload n =
      if ltb max_frame_size n
      then fail message_too_large
      else if n == 0
      then fail invalid_wire_format
      else H.conn_read_full c n

  unfoldable pub read_frame : Proc H.World Bytes
  read_frame = do hdr ← H.conn_read_full c 4; read_payload (get_be 0 hdr)
