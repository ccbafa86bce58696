-- ===== src/Host.antt =====
-- The process's surroundings: connections, clocks and entropy (io, net, time, crypto/rand). None of
-- it is code of the repository, so it is a parameter, and what a proof needs of it is a record here.
pub mod Link
use zwing.Base.{ℕ, Bytes, Option, Proc}

pub record Host : Type 1 where
  -- All that lies outside the program and changes: sockets, buffers, the clock, entropy sources.
  pub World : Type 0
  -- io.Reader as a source of entropy; `rand_reader` is crypto/rand's.
  pub Reader : Type 0
  pub rand_reader : Reader
  -- io.ReadFull(reader, buf) with `len(buf)`
  pub entropy_read_full : Reader → ℕ → Proc World Bytes
  -- net.Conn
  pub RawConn : Type 0
  pub conn_write : RawConn → Bytes → Proc World (Unit {0})
  -- io.ReadFull(conn, buf) with `len(buf)`
  pub conn_read_full : RawConn → ℕ → Proc World Bytes
  pub conn_close : RawConn → Proc World (Unit {0})
  -- `none` is time.Time{}, which clears the deadline.
  pub conn_set_deadline : RawConn → Option ℕ → Proc World (Unit {0})
  pub conn_set_read_deadline : RawConn → Option ℕ → Proc World (Unit {0})
  pub conn_set_write_deadline : RawConn → Option ℕ → Proc World (Unit {0})
  -- net.Addr
  pub Addr : Type 0
  pub conn_local_addr : RawConn → Addr
  pub conn_remote_addr : RawConn → Addr
  -- time.Now(), in nanoseconds
  pub now : World → ℕ × World
  -- net.Listener, and the two functions of net that the package calls
  pub RawListener : Type 0
  pub dial_tcp : Bytes → Proc World RawConn
  pub listen_tcp : Bytes → Proc World RawListener
  pub listener_accept : RawListener → Proc World RawConn
  pub listener_close : RawListener → Proc World (Unit {0})
  pub listener_addr : RawListener → Addr
