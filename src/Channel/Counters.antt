-- ===== src/Channel/Counters.antt =====
-- The sequence numbers under any interleaving of calls, and what a call that fails leaves behind.
use zwing.Base.{
  ℕ, zero, suc, ◌+◌, ◌%◌, ◌^◌, ◌<◌, ◌≤◌, ◌≡◌, ◌≢◌, refl, ◌∙◌, Bytes, Bool-cases, inl, inr, some, [],
  ◌∷◌,
}
use zwing.Base.{Option-cases, length, take, drop, arith, ltb, ◌==◌, ==→ne, Outcome, ok, err, panic}
use native.Mathlib.Nat.{le_trans, mod-eq_of_lt}
use zwing.Platform.{Platform}
use zwing.Aead.{nonce_for}
use zwing.Aead.Nonces.{nonce_for_inj}
use zwing.Channel.{
  Conn, WriteReturn, open_frame, read_buffered, after_frame, read, write_loop, write, write_raw,
  read_raw, max_seq, max_plain,
}

module _ (P : Platform) where
  -- Both counters are 64-bit numbers.
  pub record IsCounted (c : Conn P) : Type 0 where
    pub reading : c.read_seq ≤ max_seq
    pub writing : c.write_seq ≤ max_seq

  -- A call keeps the keys, the peer and the connection below, and never takes a counter back.
  pub record Advances (c c' : Conn P) : Type 0 where
    pub reading : c.read_seq ≤ c'.read_seq
    pub writing : c.write_seq ≤ c'.write_seq
    pub counted : IsCounted c'
    pub read_aead : c'.read_aead ≡ c.read_aead
    pub write_aead : c'.write_aead ≡ c.write_aead
    pub remote : c'.remote ≡ c.remote
    pub raw : c'.raw ≡ c.raw

  Advances-refl : (c : Conn P) → IsCounted c → Advances c c
  Advances-refl c k = record {
    reading = omega arith;
    writing = omega arith;
    counted = k;
    read_aead = refl;
    write_aead = refl;
    remote = refl;
    raw = refl;
  }

  Advances-trans : (a b c : Conn P) → Advances a b → Advances b c → Advances a c
  Advances-trans a b c f g = record {
    reading = le_trans f.reading g.reading;
    writing = le_trans f.writing g.writing;
    counted = g.counted;
    read_aead = g.read_aead ∙ f.read_aead;
    write_aead = g.write_aead ∙ f.write_aead;
    remote = g.remote ∙ f.remote;
    raw = g.raw ∙ f.raw;
  }

  read_bump-Advances :
      (c : Conn P) (left : Bytes)
      → IsCounted c
      → c.read_seq ≢ max_seq
      → Advances c (record c { read_seq = (c.read_seq + 1) % 2 ^ 64; read_buf = left })
  read_bump-Advances c left k room =
      let next : (c.read_seq + 1) % 2 ^ 64 ≡ c.read_seq + 1 = mod-eq_of_lt (omega arith) in
      record {
        reading = omega arith;
        writing = omega arith;
        counted = record { reading = omega arith; writing = k.writing };
        read_aead = refl;
        write_aead = refl;
        remote = refl;
        raw = refl;
      }

  write_bump-Advances :
      (c : Conn P)
      → IsCounted c
      → c.write_seq ≢ max_seq
      → Advances c (record c { write_seq = (c.write_seq + 1) % 2 ^ 64 })
  write_bump-Advances c k room =
      let next : (c.write_seq + 1) % 2 ^ 64 ≡ c.write_seq + 1 = mod-eq_of_lt (omega arith) in
      record {
        reading = omega arith;
        writing = omega arith;
        counted = record { reading = k.reading; writing = omega arith };
        read_aead = refl;
        write_aead = refl;
        remote = refl;
        raw = refl;
      }

  open_frame-Advances :
      (c : Conn P) (b frame : Bytes) → IsCounted c → Advances c (open_frame P c b frame).1
  unfolding open_frame
  open_frame-Advances c b frame k = elim (Bool-cases (c.read_seq == max_seq)) [
    | inl full ↦ rw (full, open_frame) (Advances-refl c k)
    | inr room ↦ elim (Option-cases (P.aead_open c.read_aead (nonce_for c.read_seq) frame [])) [
      | inl bad ↦ rw (room, bad, open_frame) (Advances-refl c k)
      | inr (text, good) ↦
          rw (room, good, open_frame) (read_bump-Advances c _ k (==→ne c.read_seq max_seq room))
    ]
  ]

  after_frame-Advances :
      (c : Conn P) (b : Bytes) (frame : Outcome Bytes) (w : P.World)
      → IsCounted c
      → Advances c (after_frame P c b frame w).1
  unfolding after_frame
  after_frame-Advances c b (ok frame) w k = open_frame-Advances c b frame k
  after_frame-Advances c b (err e) w k = Advances-refl c k
  after_frame-Advances c b (panic p) w k = Advances-refl c k

  read_buffered-Advances :
      (c : Conn P) (b : Bytes) → IsCounted c → Advances c (read_buffered P c b).1
  unfolding read_buffered
  read_buffered-Advances c b k = record {
    reading = omega arith;
    writing = omega arith;
    counted = record { reading = k.reading; writing = k.writing };
    read_aead = refl;
    write_aead = refl;
    remote = refl;
    raw = refl;
  }

  -- One call of Read.
  read-Advances : (c : Conn P) (b : Bytes) (w : P.World) → IsCounted c → Advances c (read P c b w).1
  read-Advances c b w k = elim (Bool-cases (ltb 0 (length c.read_buf))) [
    | inl more ↦ unfold read in rw (more, read) (read_buffered-Advances c b k)
    | inr none_left ↦
        unfold read in rw (none_left, read) (after_frame-Advances c b _ (read_raw P c.raw w).1 k)
  ]

  -- The three ways in which a round of the loop may go on.
  sent-Advances :
      (c c' : Conn P) (written : ℕ) (o : Outcome (Unit {0})) (w : P.World)
      (next : Outcome (WriteReturn P) × Conn P × P.World)
      → Advances c c'
      → Advances c next.1
      → Advances c (
          let r : Outcome (WriteReturn P) × Conn P × P.World = elim o [
            | ok u ↦ next
            | err e ↦ (ok (record { count = written; error = some e }), c', w)
            | panic p ↦ (panic p, c', w)
          ] in
          r.1)
  sent-Advances c c' written (ok u) w next f g = g
  sent-Advances c c' written (err e) w next f g = f
  sent-Advances c c' written (panic p) w next f g = f

  write_loop-Advances :
      (fuel : ℕ) (c : Conn P) (written : ℕ) (rest : Bytes) (w : P.World)
      → IsCounted c
      → Advances c (write_loop P fuel c written rest w).1
  unfolding write_loop
  write_loop-Advances fuel c written [] w k = Advances-refl c k
  write_loop-Advances zero c written (x ∷ rest) w k = Advances-refl c k
  write_loop-Advances (suc fuel) c written (x ∷ rest) w k =
      elim (Bool-cases (c.write_seq == max_seq)) [
        | inl full ↦ rw (full, write_loop) (Advances-refl c k)
        | inr room ↦
            let chunk = take max_plain (x ∷ rest) in
            let c' : Conn P = record c { write_seq = (c.write_seq + 1) % 2 ^ 64 } in
            let bumped = write_bump-Advances c k (==→ne c.write_seq max_seq room) in
            let sent =
              write_raw P c.raw (P.aead_seal c.write_aead (nonce_for c.write_seq) chunk []) w in
            rw (room, write_loop)
              (sent-Advances c c' written sent.0 sent.1 _ bumped (
                Advances-trans c c' _ bumped (
                  write_loop-Advances fuel c' (written + length chunk) (drop max_plain (x ∷ rest))
                    sent.1 bumped.counted)))
      ]

  -- One call of Write.
  write-Advances :
      (c : Conn P) (b : Bytes) (w : P.World) → IsCounted c → Advances c (write P c b w).1
  unfolding write
  write-Advances c b w k = write_loop-Advances (length b) c 0 b w k

  -- Calls of any goroutines, each atomic under its mutex, in any order, in whatever world.
  pub data Call : Conn P → Conn P → Type 0 where
    reads : (c : Conn P) (b : Bytes) (w : P.World) → Call c (read P c b w).1
    writes : (c : Conn P) (b : Bytes) (w : P.World) → Call c (write P c b w).1

  pub data Calls (c : Conn P) : Conn P → Type 0 where
    here : Calls c c
    next : {d e : Conn P} → Calls c d → Call d e → Calls c e

  Call-Advances : {c d : Conn P} → Call c d → IsCounted c → Advances c d
  Call-Advances (reads c b w) k = read-Advances c b w k
  Call-Advances (writes c b w) k = write-Advances c b w k

  -- Over any calls of Read and Write, in any world, from counters of at most 2^64 - 1, the
  -- counters never go back or past 2^64 - 1, and the keys, the peer and the connection below
  -- stay.
  pub Calls-Advances : {c d : Conn P} → Calls c d → IsCounted c → Advances c d
  Calls-Advances {c} here k = Advances-refl c k
  Calls-Advances {c} (next {d} {e} before call) k =
      let first = Calls-Advances before k in
      Advances-trans c d e first (Call-Advances call first.counted)

  -- The nonce of a number below the writing counter is not the nonce of the writing counter after
  -- any calls of Read and Write, from counters of at most 2^64 - 1: what sealed a record is not
  -- used for a later one.
  pub Calls-nonce_for_fresh :
      {c d : Conn P}
      → Calls c d
      → IsCounted c
      → (used : ℕ) → used < c.write_seq
      → nonce_for used ≢ nonce_for d.write_seq
  Calls-nonce_for_fresh calls k used old e =
      let a = Calls-Advances calls k in
      let writing = a.writing in
      let below = a.counted.writing in
      absurd (omega (arith, nonce_for_inj used _ (omega arith) (omega arith) e))
