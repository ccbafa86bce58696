-- ===== src/Channel/Contract.antt =====
-- The contracts of io.Reader and io.Writer, on any connection and in any world.
use zwing.Base.{
  ℕ, zero, suc, ◌+◌, ◌%◌, ◌^◌, ◌<◌, ◌≤◌, ◌≡◌, refl, sym, subst, ok_inj, ◌∙◌, Bytes, Bool-cases,
  Option-cases, ◌⊎◌, inl, inr, none, some, [], ◌∷◌, min, length, take, drop, arith, ltb, ◌==◌,
  Error, Outcome, ok, err, panic, copy_into, length-copy_into, length-take, length-drop,
  sequence_exhausted, ciphertext_corrupted, ltb→lt, ltb→le, drop-append, drop_all,
}
use zwing.Platform.{Platform}
use zwing.Aead.{nonce_for}
use zwing.Channel.{
  Conn, ReadReturn, WriteReturn, read_failed, open_frame, read_buffered, after_frame, read,
  write_loop, write, read_raw, write_raw, max_seq, max_plain,
}

-- `copy` leaves the rest of its destination.
drop-copy_into :
    (b src : Bytes)
    → drop (min (length b) (length src)) (copy_into b src) ≡ drop (min (length b) (length src)) b
unfolding copy_into
drop-copy_into b src = elim (Bool-cases (ltb (length src) (length b))) [
  | inl longer ↦
      let lt = ltb→lt (length src) (length b) longer in
      let n : min (length b) (length src) ≡ length src = omega arith in
      rw
        (
          n,
          drop-append (length src) (take (length b) src) (drop (length src) b)
              (omega (arith, length-take (length b) src)),
        )
        refl
  | inr shorter ↦
      let le = ltb→le (length src) (length b) shorter in
      let n : min (length b) (length src) ≡ length b = omega arith in
      rw n (
        drop_all (length b) _ (omega (arith, length-copy_into b src))
        ∙ sym (drop_all (length b) b (omega arith)))
]

module _ (P : Platform) where
  -- io.Reader: what is reported was written to the front of the buffer, and no more; a failed read
  -- reports nothing, and leaves the buffer and the connection as they were.
  pub record IsReader (c : Conn P) (b : Bytes) (ret : ReadReturn P) (c' : Conn P) : Type 0 where
    pub fits : ret.count ≤ length b
    pub whole : length ret.buffer ≡ length b
    pub beyond : drop ret.count ret.buffer ≡ drop ret.count b
    pub failed :
        (ret.error ≡ none)
        ⊎ ((e : Error) × (ret.error ≡ some e) × (ret.count ≡ 0) × (ret.buffer ≡ b) × (c' ≡ c))

  read_failed-IsReader : (c : Conn P) (b : Bytes) (e : Error) → IsReader c b (read_failed P b e) c
  read_failed-IsReader c b e = record {
    fits = omega arith;
    whole = refl;
    beyond = refl;
    failed = inr (e, refl, refl, refl, refl);
  }

  copied-IsReader :
      (c c' : Conn P) (b src : Bytes)
      → IsReader c b
          (record { buffer = copy_into b src; count = min (length b) (length src); error = none })
          c'
  copied-IsReader c c' b src = record {
    fits = omega arith;
    whole = length-copy_into b src;
    beyond = drop-copy_into b src;
    failed = inl refl;
  }

  read_buffered-IsReader :
      (c : Conn P) (b : Bytes) → IsReader c b (read_buffered P c b).0 (read_buffered P c b).1
  unfolding read_buffered
  read_buffered-IsReader c b = copied-IsReader c _ b c.read_buf

  open_frame-IsReader :
      (c : Conn P) (b frame : Bytes)
      → IsReader c b (open_frame P c b frame).0 (open_frame P c b frame).1
  unfolding open_frame
  open_frame-IsReader c b frame = elim (Bool-cases (c.read_seq == max_seq)) [
    | inl full ↦ rw (full, open_frame) (read_failed-IsReader c b sequence_exhausted)
    | inr room ↦ elim (Option-cases (P.aead_open c.read_aead (nonce_for c.read_seq) frame [])) [
      | inl bad ↦ rw (room, bad, open_frame) (read_failed-IsReader c b ciphertext_corrupted)
      | inr (text, good) ↦ rw (room, good, open_frame) (copied-IsReader c _ b text)
    ]
  ]

  after_frame-IsReader :
      (c : Conn P) (b : Bytes) (o : Outcome Bytes) (w : P.World) (ret : ReadReturn P)
      → (after_frame P c b o w).0 ≡ ok ret
      → IsReader c b ret (after_frame P c b o w).1
  unfolding after_frame
  after_frame-IsReader c b (ok frame) w ret h =
      subst (λ r. IsReader c b r (open_frame P c b frame).1) (ok_inj h)
        (open_frame-IsReader c b frame)
  after_frame-IsReader c b (err e) w ret h =
      subst (λ r. IsReader c b r c) (ok_inj h) (read_failed-IsReader c b e)
  after_frame-IsReader c b (panic p) w ret h = cc

  -- Whatever the connection holds and whatever Read reads from below, if it returns: at most as
  -- many bytes as the buffer has are reported, the buffer keeps its length and what it held
  -- beyond them, and with an error nothing is reported and buffer and connection are as before.
  pub read-IsReader :
      (c : Conn P) (b : Bytes) (w : P.World) (ret : ReadReturn P)
      → (read P c b w).0 ≡ ok ret
      → IsReader c b ret (read P c b w).1
  read-IsReader c b w ret h = elim (Bool-cases (ltb 0 (length c.read_buf))) [
    | inl more ↦
        let (r, c') = read_buffered P c b in
        let e : read P c b w ≡ (ok r, c', w) = unfold read in rw (more, read) refl in
        subst
          (λ (o : Outcome (ReadReturn P) × Conn P × P.World). o.0 ≡ ok ret → IsReader c b ret o.1)
          (sym e) (λ k. subst (λ r. IsReader c b r c') (ok_inj k) (read_buffered-IsReader c b)) h
    | inr none_left ↦
        let frame = read_raw P c.raw w in
        let e : read P c b w ≡ after_frame P c b frame.0 frame.1 =
          unfold read in rw (none_left, read) refl in
        subst
          (λ (o : Outcome (ReadReturn P) × Conn P × P.World). o.0 ≡ ok ret → IsReader c b ret o.1)
          (sym e) (after_frame-IsReader c b frame.0 frame.1 ret) h
  ]

  -- What a loop returns that has written some bytes before: all is written, or there is an error
  -- and something is left.
  abbrev IsWriterFrom : ℕ → Bytes → WriteReturn P → Type 0
  IsWriterFrom written rest ret =
      ((ret.error ≡ none) × (ret.count ≡ written + length rest))
      ⊎ ((e : Error) × (ret.error ≡ some e) × (ret.count < written + length rest))

  stopped-IsWriterFrom :
      (written x : ℕ) (rest : Bytes) (e : Error)
      → IsWriterFrom written (x ∷ rest) (record { count = written; error = some e })
  stopped-IsWriterFrom written x rest e = inr (e, refl, omega arith)

  sent-IsWriterFrom :
      (c' : Conn P) (written x : ℕ) (rest : Bytes) (o : Outcome (Unit {0})) (w : P.World)
      (next : Outcome (WriteReturn P) × Conn P × P.World) (ret : WriteReturn P)
      → (next.0 ≡ ok ret → IsWriterFrom written (x ∷ rest) ret)
      → (let r : Outcome (WriteReturn P) × Conn P × P.World = elim o [
        | ok u ↦ next
        | err e ↦ (ok (record { count = written; error = some e }), c', w)
        | panic p ↦ (panic p, c', w)
      ] in
          r.0)
        ≡ ok ret
      → IsWriterFrom written (x ∷ rest) ret
  sent-IsWriterFrom c' written x rest (ok u) w next ret f h = f h
  sent-IsWriterFrom c' written x rest (err e) w next ret f h =
      subst (IsWriterFrom written (x ∷ rest)) (ok_inj h) (stopped-IsWriterFrom written x rest e)
  sent-IsWriterFrom c' written x rest (panic p) w next ret f h = cc

  -- After a round, what is written and what is left are together as long.
  round-IsWriterFrom :
      (written x : ℕ) (rest : Bytes) (ret : WriteReturn P)
      → IsWriterFrom (written + length (take max_plain (x ∷ rest))) (drop max_plain (x ∷ rest)) ret
      → IsWriterFrom written (x ∷ rest) ret
  round-IsWriterFrom written x rest ret f =
      let ht = length-take max_plain (x ∷ rest) in
      let hd = length-drop max_plain (x ∷ rest) in
      elim f [
        | inl (e, n) ↦ inl (e, omega arith)
        | inr (e, failed, n) ↦ inr (e, failed, omega arith)
      ]

  write_loop-IsWriterFrom :
      (fuel : ℕ) (c : Conn P) (written : ℕ) (rest : Bytes) (w : P.World) (ret : WriteReturn P)
      → length rest ≤ fuel
      → (write_loop P fuel c written rest w).0 ≡ ok ret
      → IsWriterFrom written rest ret
  unfolding write_loop
  write_loop-IsWriterFrom fuel c written [] w ret h e =
      subst (IsWriterFrom written []) (ok_inj e) (inl (refl, omega arith))
  write_loop-IsWriterFrom zero c written (x ∷ rest) w ret h e = absurd (omega arith)
  write_loop-IsWriterFrom (suc fuel) c written (x ∷ rest) w ret h e =
      let hd = length-drop max_plain (x ∷ rest) in
      let go : (write_loop P (suc fuel) c written (x ∷ rest) w).0 ≡ ok ret
          → IsWriterFrom written (x ∷ rest) ret =
        elim (Bool-cases (c.write_seq == max_seq)) [
          | inl full ↦
              rw (full, write_loop)
                (λ k.
                  subst (IsWriterFrom written (x ∷ rest)) (ok_inj k)
                    (stopped-IsWriterFrom written x rest sequence_exhausted))
          | inr room ↦
              let chunk = take max_plain (x ∷ rest) in
              let c' : Conn P = record c { write_seq = (c.write_seq + 1) % 2 ^ 64 } in
              let sent =
                write_raw P c.raw (P.aead_seal c.write_aead (nonce_for c.write_seq) chunk []) w in
              rw (room, write_loop)
                (sent-IsWriterFrom c' written x rest sent.0 sent.1 _ ret (λ k.
                  round-IsWriterFrom written x rest ret (
                    write_loop-IsWriterFrom fuel c' (written + length chunk)
                      (drop max_plain (x ∷ rest)) sent.1 ret (omega arith) k)))
        ] in
      go e

  -- Whatever the connection holds and whatever happens below, if Write returns: it reports all
  -- bytes and no error, or an error and fewer bytes than it was given.
  pub write-IsWriter :
      (c : Conn P) (b : Bytes) (w : P.World) (ret : WriteReturn P)
      → (write P c b w).0 ≡ ok ret
      → ((ret.error ≡ none) × (ret.count ≡ length b))
        ⊎ ((e : Error) × (ret.error ≡ some e) × (ret.count < length b))
  unfolding write
  write-IsWriter c b w ret h =
      elim (write_loop-IsWriterFrom (length b) c 0 b w ret (omega arith) h) [
        | inl (e, n) ↦ inl (e, omega arith)
        | inr (e, failed, n) ↦ inr (e, failed, omega arith)
      ]
