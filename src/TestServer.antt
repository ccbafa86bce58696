-- ===== src/TestServer.antt =====
-- cmd/zwing-test-server/main.go: a server for one connection, which echoes one payload.
pub mod Echo
pub mod Serving
use zwing.Base.{
  ℕ, Bytes, Option, none, some, Bool, false, take, zeros, ◌==◌, if◌then◌else◌, Error, external,
  Outcome, ok, err, panic, Proc, ◌>>=◌, ◌>>◌,
}
use zwing.Platform.{Platform}
use zwing.Config.{Config}
use zwing.Identity.{Identity, generate_identity, public_of, marshal_identity}
use zwing.Channel.{Conn, ReadReturn, WriteReturn, read, write, close}
use zwing.Endpoint.{Listener, kept, deferred, listen, listener_addr, accept, close_listener}

-- `err == io.EOF`, which is an error of another package.
abbrev pub is_eof : ℕ → Error → Bool
is_eof eof (external n) = n == eof
is_eof eof _ = false

abbrev pub echo_buffer_size : ℕ
echo_buffer_size = 4096

module _ (P : Platform) where
  -- What main calls of fmt, encoding/hex and os; and the number of io.EOF.
  pub record Console : Type 0 where
    pub eof : ℕ
    pub println_addr : P.Addr → P.World → P.World
    pub println_hex : Bytes → P.World → P.World
    pub sync : P.World → P.World

  -- `defer d()` in main. log.Fatalf leaves the process at once, and no deferred call runs.
  unfoldable pub at_return :
      {A B : Type 0} → Outcome A → P.World → Proc P.World B → Outcome A × P.World
  at_return (err e) w d = (err e, w)
  at_return o w d = (kept o (d w).0, (d w).1)

  unfoldable pub wrote : Outcome (WriteReturn P) → Outcome (Unit {0})
  wrote (ok ret) = elim (ret.error) [ none ↦ ok tt | some e ↦ err e ]
  wrote (err e) = err e
  wrote (panic p) = panic p

  unfoldable pub reply :
      ℕ → Outcome (ReadReturn P) → Conn P → P.World → Outcome (Unit {0}) × Conn P × P.World
  unfolding wrote
  reply eof (ok ret) c w = elim (ret.error) [
    | none ↦ let r = write P c (take ret.count ret.buffer) w in (wrote r.0, r.1, r.2)
    | some e ↦ (if is_eof eof e then ok tt else err e, c, w)
  ]
  reply eof (err e) c w = (err e, c, w)
  reply eof (panic p) c w = (panic p, c, w)

  -- The last lines of main: read once, and write back what was read.
  unfoldable pub echo : ℕ → Conn P → P.World → Outcome (Unit {0}) × Conn P × P.World
  unfolding reply
  echo eof c w = let r = read P c (zeros echo_buffer_size) w in reply eof r.0 r.1 r.2

  -- From Accept on. Close reads nothing of the connection that Read and Write change.
  unfoldable pub serve_one : Console → Listener P → Proc P.World (Unit {0})
  serve_one console ln =
      accept P ln >>= λ conn w. let r = echo console.eof conn w in at_return r.0 r.2 (close P conn)

  -- The two lines on stdout.
  abbrev pub announce : Console → Identity P → Listener P → P.World → P.World
  announce console id ln w = console.sync (
      console.println_hex (marshal_identity P (public_of P id))
        (console.println_addr (listener_addr P ln) w))

  abbrev pub server_config : Identity P → Config P
  server_config id = record {
    local_identity = some id;
    expected_remote = none;
    handshake_timeout = 0;
  }

  -- main, on the address of the flag. An error is what log.Fatalf prints.
  unfoldable pub test_server : Console → Bytes → Proc P.World (Unit {0})
  test_server console addr = generate_identity P >>= λ id.
      listen P addr (some (server_config id)) >>= λ ln w.
      let served = serve_one console ln (announce console id ln w) in
      at_return served.0 served.1 (close_listener P ln)
