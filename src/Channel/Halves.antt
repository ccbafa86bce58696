-- ===== src/Channel/Halves.antt =====
-- What Read and Write (channel.go) change of a connection, and of the connection below.
use zwing.Base.{
  ℕ, zero, suc, ◌+◌, ◌%◌, ◌^◌, ◌≡◌, refl, ap, ◌∙◌, Bytes, Bool-cases, Option-cases, inl, inr, some,
  [], ◌∷◌, length, take, drop, ltb, ◌==◌, Outcome, ok, err, panic,
}
use zwing.Base.Keeps.{Keeps}
use zwing.Wire.Calm.{write_frame-Keeps, read_frame-Keeps}
use zwing.Platform.{Platform}
use zwing.Aead.{nonce_for}
use zwing.Channel.{
  Conn, WriteReturn, open_frame, read_buffered, after_frame, read, write_loop, write, read_raw,
  write_raw, max_seq, max_plain,
}

module _ (P : Platform) where
  -- A connection that differs in its writing half alone.
  abbrev WriterOf : Conn P → Conn P → Type 0
  WriterOf c c' = c' ≡ record c { write_seq = c'.write_seq }

  sent-WriterOf :
      (c c' : Conn P) (written : ℕ) (o : Outcome (Unit {0})) (w : P.World)
      (next : Outcome (WriteReturn P) × Conn P × P.World)
      → WriterOf c c'
      → WriterOf c next.1
      → WriterOf c (
          let r : Outcome (WriteReturn P) × Conn P × P.World = elim o [
            | ok u ↦ next
            | err e ↦ (ok (record { count = written; error = some e }), c', w)
            | panic p ↦ (panic p, c', w)
          ] in
          r.1)
  sent-WriterOf c c' written (ok u) w next f g = g
  sent-WriterOf c c' written (err e) w next f g = f
  sent-WriterOf c c' written (panic p) w next f g = f

  write_loop-WriterOf :
      (fuel : ℕ) (c : Conn P) (written : ℕ) (rest : Bytes) (w : P.World)
      → WriterOf c (write_loop P fuel c written rest w).1
  unfolding write_loop
  write_loop-WriterOf fuel c written [] w = refl
  write_loop-WriterOf zero c written (x ∷ rest) w = refl
  write_loop-WriterOf (suc fuel) c written (x ∷ rest) w =
      elim (Bool-cases (c.write_seq == max_seq)) [
        | inl full ↦ rw (full, write_loop) refl
        | inr room ↦
            let chunk = take max_plain (x ∷ rest) in
            let c' : Conn P = record c { write_seq = (c.write_seq + 1) % 2 ^ 64 } in
            let sent =
              write_raw P c.raw (P.aead_seal c.write_aead (nonce_for c.write_seq) chunk []) w in
            rw (room, write_loop)
              (sent-WriterOf c c' written sent.0 sent.1 _ refl (
                write_loop-WriterOf fuel c' (written + length chunk) (drop max_plain (x ∷ rest))
                  sent.1))
      ]

  pub write-WriterOf : (c : Conn P) (b : Bytes) (w : P.World) → WriterOf c (write P c b w).1
  unfolding write
  write-WriterOf c b w = write_loop-WriterOf (length b) c 0 b w

  -- A connection that differs in its reading half alone.
  abbrev ReaderOf : Conn P → Conn P → Type 0
  ReaderOf c c' = c' ≡ record c { read_seq = c'.read_seq; read_buf = c'.read_buf }

  open_frame-ReaderOf : (c : Conn P) (b frame : Bytes) → ReaderOf c (open_frame P c b frame).1
  unfolding open_frame
  open_frame-ReaderOf c b frame = elim (Bool-cases (c.read_seq == max_seq)) [
    | inl full ↦ rw (full, open_frame) refl
    | inr room ↦ elim (Option-cases (P.aead_open c.read_aead (nonce_for c.read_seq) frame [])) [
      | inl bad ↦ rw (room, bad, open_frame) refl
      | inr (text, good) ↦ rw (room, good, open_frame) refl
    ]
  ]

  after_frame-ReaderOf :
      (c : Conn P) (b : Bytes) (o : Outcome Bytes) (w : P.World)
      → ReaderOf c (after_frame P c b o w).1
  unfolding after_frame
  after_frame-ReaderOf c b (ok frame) w = open_frame-ReaderOf c b frame
  after_frame-ReaderOf c b (err e) w = refl
  after_frame-ReaderOf c b (panic p) w = refl

  pub read-ReaderOf : (c : Conn P) (b : Bytes) (w : P.World) → ReaderOf c (read P c b w).1
  read-ReaderOf c b w = elim (Bool-cases (ltb 0 (length c.read_buf))) [
    | inl more ↦ unfold read read_buffered in rw (more, read) refl
    | inr none_left ↦
        unfold read in rw (none_left, read) (after_frame-ReaderOf c b _ (read_raw P c.raw w).1)
  ]

  module _ {V : Type 0} (v : P.World → V) where
    sent-view :
        (c' : Conn P) (written : ℕ) (o : Outcome (Unit {0})) (w w' : P.World)
        (next : Outcome (WriteReturn P) × Conn P × P.World)
        → v w' ≡ v w
        → v next.2 ≡ v w
        → v (
            let r : Outcome (WriteReturn P) × Conn P × P.World = elim o [
              | ok u ↦ next
              | err e ↦ (ok (record { count = written; error = some e }), c', w')
              | panic p ↦ (panic p, c', w')
            ] in
            r.2)
          ≡ v w
    sent-view c' written (ok u) w w' next f g = g
    sent-view c' written (err e) w w' next f g = f
    sent-view c' written (panic p) w w' next f g = f

    module _ (raw : P.RawConn) (k : (bs : Bytes) → Keeps v (P.conn_write raw bs)) where
      write_loop-view :
          (fuel : ℕ) (c : Conn P) (written : ℕ) (rest : Bytes) (w : P.World)
          → c.raw ≡ some raw
          → v (write_loop P fuel c written rest w).2 ≡ v w
      unfolding write_loop
      write_loop-view fuel c written [] w e = refl
      write_loop-view zero c written (x ∷ rest) w e = refl
      write_loop-view (suc fuel) c written (x ∷ rest) w e =
          elim (Bool-cases (c.write_seq == max_seq)) [
            | inl full ↦ rw (full, write_loop) refl
            | inr room ↦
                let chunk = take max_plain (x ∷ rest) in
                let c' : Conn P = record c { write_seq = (c.write_seq + 1) % 2 ^ 64 } in
                let cipher = P.aead_seal c.write_aead (nonce_for c.write_seq) chunk [] in
                let sent = write_raw P c.raw cipher w in
                let still : v sent.1 ≡ v w =
                  ap (λ r. v (write_raw P r cipher w).1) e
                  ∙ (write_frame-Keeps P.host raw v k cipher).at w in
                rw (room, write_loop)
                  (sent-view c' written sent.0 w sent.1 _ still (
                    write_loop-view fuel c' (written + length chunk) (drop max_plain (x ∷ rest))
                      sent.1 e
                    ∙ still))
          ]

      -- Write changes no more of the world than writing to the connection below does.
      pub write-view :
          (c : Conn P) (b : Bytes) (w : P.World) → c.raw ≡ some raw → v (write P c b w).2 ≡ v w
      unfolding write
      write-view c b w e = write_loop-view (length b) c 0 b w e

    after_frame-view :
        (c : Conn P) (b : Bytes) (o : Outcome Bytes) (w : P.World)
        → v (after_frame P c b o w).2 ≡ v w
    unfolding after_frame
    after_frame-view c b (ok frame) w = refl
    after_frame-view c b (err e) w = refl
    after_frame-view c b (panic p) w = refl

    -- Read changes no more of the world than reading from the connection below does.
    pub read-view :
        (raw : P.RawConn)
        → ((n : ℕ) → Keeps v (P.conn_read_full raw n))
        → (c : Conn P) (b : Bytes) (w : P.World) → c.raw ≡ some raw
        → v (read P c b w).2 ≡ v w
    read-view raw k c b w e = elim (Bool-cases (ltb 0 (length c.read_buf))) [
      | inl more ↦ unfold read read_buffered in rw (more, read) refl
      | inr none_left ↦
          unfold read in
          rw (none_left, read)
            (after_frame-view c b _ (read_raw P c.raw w).1
              ∙ ap (λ r. v (read_raw P r w).1) e
              ∙ (read_frame-Keeps P.host raw v k).at w)
    ]
