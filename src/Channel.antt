-- ===== src/Channel.antt =====
-- channel.go: the connection after the handshake. A method returns what Go returns, the connection
-- as it leaves it, and the world. The two mutexes make each method one step for its direction.
pub mod Keys
pub mod Halves
pub mod Exchange
pub mod Contract
pub mod Integrity
pub mod Stream
pub mod Batch
pub mod Counters
pub mod Concurrent
use zwing.Base.{
  ℕ, zero, suc, ◌+◌, ◌-◌, ◌%◌, ◌^◌, Bytes, Bool, true, false, Option, none, some, [], ◌∷◌, min,
}
use zwing.Base.{
  length, take, drop, copy_into, ltb, ◌==◌, if◌then◌else◌, Error, Proc, Outcome, ok, err, panic,
}
use zwing.Base.{
  and_then, fail, channel_closed, sequence_exhausted, ciphertext_corrupted, message_too_large,
}
use zwing.Base.{nil_dereference}
use zwing.Platform.{Platform, chacha_overhead}
use zwing.Wire.{max_frame_size, write_frame, read_frame}
use zwing.Kem.{zero_bytes}
use zwing.Identity.{IdentityPublic}
use zwing.Aead.{must_chacha20, nonce_for}
use zwing.Handshake.{HandshakeResult}

-- ^uint64(0)
abbrev pub max_seq : ℕ
max_seq = 2 ^ 64 - 1

abbrev pub max_plain : ℕ
max_plain = max_frame_size - chacha_overhead

module _ (P : Platform) where
  -- `raw` is nil only in a Conn that newConn did not make.
  pub record Conn : Type 0 where
    pub raw : Option P.RawConn
    pub remote : IdentityPublic P
    pub read_aead : P.Aead
    pub read_seq : ℕ
    pub read_buf : Bytes
    pub write_aead : P.Aead
    pub write_seq : ℕ

  -- newConn: the connection, and the handshake's result with its keys zeroed.
  unfoldable pub new_conn :
      P.RawConn → HandshakeResult P → Bool → Outcome (Conn × HandshakeResult P)
  new_conn raw res initiator =
      let tx_key = if initiator then res.key_i2r else res.key_r2i in
      let rx_key = if initiator then res.key_r2i else res.key_i2r in
      and_then (must_chacha20 P rx_key) (λ read_aead.
        and_then (must_chacha20 P tx_key) (λ write_aead. ok (
          record {
            raw = some raw;
            remote = res.remote;
            read_aead = read_aead;
            read_seq = 0;
            read_buf = [];
            write_aead = write_aead;
            write_seq = 0;
          },
          record res { key_i2r = zero_bytes res.key_i2r; key_r2i = zero_bytes res.key_r2i },
        )))

  abbrev pub remote_identity : Conn → IdentityPublic P
  remote_identity c = c.remote

  -- readFrame and writeFrame on an interface that may be nil
  abbrev pub read_raw : Option P.RawConn → Proc P.World Bytes
  read_raw none w = (panic nil_dereference, w)
  read_raw (some raw) w = read_frame P.host raw w

  abbrev pub write_raw : Option P.RawConn → Bytes → Proc P.World (Unit {0})
  write_raw none payload w =
      if ltb max_frame_size (length payload)
      then (err message_too_large, w)
      else (panic nil_dereference, w)
  write_raw (some raw) payload w = write_frame P.host raw payload w

  -- What Read returns, with the caller's buffer as it leaves it.
  pub record ReadReturn : Type 0 where
    pub buffer : Bytes
    pub count : ℕ
    pub error : Option Error

  abbrev pub read_failed : Bytes → Error → ReadReturn
  read_failed b e = record { buffer = b; count = 0; error = some e }

  -- Read's second half: a frame was read.
  unfoldable pub open_frame : Conn → Bytes → Bytes → ReadReturn × Conn
  open_frame c b frame = elim (c.read_seq == max_seq) [
    | true ↦ (read_failed b sequence_exhausted, c)
    | false ↦ elim (P.aead_open c.read_aead (nonce_for c.read_seq) frame []) [
      | some plaintext ↦
          let n = min (length b) (length plaintext) in
          (
            record { buffer = copy_into b plaintext; count = n; error = none },
            record c {
              read_seq = (c.read_seq + 1) % 2 ^ 64;
              read_buf = if ltb n (length plaintext) then drop n plaintext else c.read_buf;
            },
          )
      | none ↦ (read_failed b ciphertext_corrupted, c)
    ]
  ]

  -- Read's first half: bytes are left of an earlier record.
  unfoldable pub read_buffered : Conn → Bytes → ReadReturn × Conn
  read_buffered c b =
      let n = min (length b) (length c.read_buf) in
      (
        record { buffer = copy_into b c.read_buf; count = n; error = none },
        record c { read_buf = drop n c.read_buf },
      )

  after_frame : Conn → Bytes → Outcome Bytes → P.World → Outcome ReadReturn × Conn × P.World
  after_frame c b (ok frame) w = let (r, c') = open_frame c b frame in (ok r, c', w)
  after_frame c b (err e) w = (ok (read_failed b e), c, w)
  after_frame c b (panic p) w = (panic p, c, w)

  unfoldable pub read : Conn → Bytes → P.World → Outcome ReadReturn × Conn × P.World
  unfolding after_frame
  read c b w = elim (ltb 0 (length c.read_buf)) [
    | true ↦ let (r, c') = read_buffered c b in (ok r, c', w)
    | false ↦ after_frame c b (read_raw c.raw w).0 (read_raw c.raw w).1
  ]

  pub record WriteReturn : Type 0 where
    pub count : ℕ
    pub error : Option Error

  -- The loop over `b[written:]`. A round takes a byte at least, so `len(b)` rounds are enough.
  unfoldable pub write_loop : ℕ → Conn → ℕ → Bytes → P.World → Outcome WriteReturn × Conn × P.World
  write_loop fuel c written [] w = (ok (record { count = written; error = none }), c, w)
  write_loop zero c written (x ∷ rest) w = (ok (record { count = written; error = none }), c, w)
  write_loop (suc fuel) c written (x ∷ rest) w =
      let chunk = take max_plain (x ∷ rest) in
      let ciphertext = P.aead_seal c.write_aead (nonce_for c.write_seq) chunk [] in
      let c' = record c { write_seq = (c.write_seq + 1) % 2 ^ 64 } in
      let sent = write_raw c.raw ciphertext w in
      elim (c.write_seq == max_seq) [
        | true ↦ (ok (record { count = written; error = some sequence_exhausted }), c, w)
        | false ↦ elim (sent.0) [
          | ok u ↦ write_loop fuel c' (written + length chunk) (drop max_plain (x ∷ rest)) (sent.1)
          | err e ↦ (ok (record { count = written; error = some e }), c', sent.1)
          | panic p ↦ (panic p, c', sent.1)
        ]
      ]

  unfoldable pub write : Conn → Bytes → P.World → Outcome WriteReturn × Conn × P.World
  unfolding write_loop
  write c b w = write_loop (length b) c 0 b w

  close_raw : Option P.RawConn → Proc P.World (Unit {0})
  close_raw none = fail channel_closed
  close_raw (some raw) = P.conn_close raw

  -- Close
  unfoldable pub close : Conn → Proc P.World (Unit {0})
  unfolding close_raw
  close c = close_raw c.raw

  -- LocalAddr and RemoteAddr
  addr_of : Option P.RawConn → (P.RawConn → P.Addr) → Outcome P.Addr
  addr_of none m = panic nil_dereference
  addr_of (some raw) m = ok (m raw)

  unfoldable pub local_addr : Conn → Outcome P.Addr
  unfolding addr_of
  local_addr c = addr_of c.raw P.conn_local_addr

  unfoldable pub remote_addr : Conn → Outcome P.Addr
  unfolding addr_of
  remote_addr c = addr_of c.raw P.conn_remote_addr

  -- SetDeadline, SetReadDeadline and SetWriteDeadline: each is a call of the connection below.
  abbrev pub on_raw :
      Option P.RawConn → (P.RawConn → Proc P.World (Unit {0})) → Proc P.World (Unit {0})
  on_raw none m w = (panic nil_dereference, w)
  on_raw (some raw) m w = m raw w

  unfoldable pub set_deadline : Conn → Option ℕ → Proc P.World (Unit {0})
  set_deadline c t = on_raw c.raw (λ raw. P.conn_set_deadline raw t)

  unfoldable pub set_read_deadline : Conn → Option ℕ → Proc P.World (Unit {0})
  set_read_deadline c t = on_raw c.raw (λ raw. P.conn_set_read_deadline raw t)

  unfoldable pub set_write_deadline : Conn → Option ℕ → Proc P.World (Unit {0})
  set_write_deadline c t = on_raw c.raw (λ raw. P.conn_set_write_deadline raw t)
