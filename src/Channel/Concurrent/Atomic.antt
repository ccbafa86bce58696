-- ===== src/Channel/Concurrent/Atomic.antt =====
-- Whole calls of Read and Write (channel.go), by what becomes of them.
use zwing.Base.{min, copy_into, Error, ciphertext_corrupted, ◌∙◌}
use zwing.Base.{
  ℕ, ◌+◌, ◌%◌, ◌^◌, ◌<◌, ◌≤◌, ◌≡◌, ◌≢◌, refl, ap, Bytes, none, some, [], ◌∷◌, length, take, drop,
  arith, lt→ltb, le→ltb, Outcome, ok, err, panic, length-drop, length_zero, take_all, suc, subst,
  ne→==, eq→==, sequence_exhausted,
}
use zwing.Platform.{Platform}
use zwing.Aead.{nonce_for}
use zwing.Channel.{
  Conn, WriteReturn, open_frame, read_buffered, after_frame, read, write_loop, write, read_failed,
  ReadReturn, write_raw, read_raw, max_seq, max_plain,
}
use zwing.Channel.Concurrent.{round_return, kept_rest}

module _ (P : Platform) where
  -- Read with bytes left of an earlier record, and without.
  pub read-read_buffered :
      (c : Conn P) (b : Bytes) (w : P.World)
      → 0 < length c.read_buf
      → ((read P c b w).0 ≡ ok (read_buffered P c b).0)
        × ((read P c b w).1 ≡ (read_buffered P c b).1)
  unfolding read
  read-read_buffered c b w more =
      let yes_left = lt→ltb 0 (length c.read_buf) more in rw (yes_left, read) (refl, refl)

  module _ (c : Conn P) (b : Bytes) (w : P.World) (o : Outcome Bytes)
      (none_left : length c.read_buf ≡ 0) (came : (read_raw P c.raw w).0 ≡ o) where
    read-after_frame : read P c b w ≡ after_frame P c b o (read_raw P c.raw w).1
    unfolding read
    read-after_frame =
        let none_there = le→ltb 0 (length c.read_buf) (omega arith) in
        let here : read P c b w ≡ after_frame P c b (read_raw P c.raw w).0 (read_raw P c.raw w).1 =
          rw (none_there, read) refl in
        here ∙ ap (λ x. after_frame P c b x (read_raw P c.raw w).1) came

    -- Read that returns `r` and leaves the connection `d`.
    abbrev pub Returns : Outcome (ReadReturn P) → Conn P → Type 0
    Returns r d = ((read P c b w).0 ≡ r) × ((read P c b w).1 ≡ d)

    pub read-err : (e : Error) → o ≡ err e → Returns (ok (read_failed P b e)) c
    unfolding after_frame
    read-err e is =
        let whole = read-after_frame ∙ ap (λ x. after_frame P c b x (read_raw P c.raw w).1) is in
        (ap (λ r. r.0) whole, ap (λ r. r.1) whole)

    pub read-panic : (p : _) → o ≡ panic p → Returns (panic p) c
    unfolding after_frame
    read-panic p is =
        let whole = read-after_frame ∙ ap (λ x. after_frame P c b x (read_raw P c.raw w).1) is in
        (ap (λ r. r.0) whole, ap (λ r. r.1) whole)

    read-open_frame :
        (frame : Bytes)
        → o ≡ ok frame
        → Returns (ok (open_frame P c b frame).0) (open_frame P c b frame).1
    unfolding after_frame
    read-open_frame frame is =
        let whole = read-after_frame ∙ ap (λ x. after_frame P c b x (read_raw P c.raw w).1) is in
        (ap (λ r. r.0) whole, ap (λ r. r.1) whole)

    module _ (frame : Bytes) (is : o ≡ ok frame) where
      pub read-full : c.read_seq ≡ max_seq → Returns (ok (read_failed P b sequence_exhausted)) c
      read-full full =
          let stop = eq→== c.read_seq max_seq full in
          let e : open_frame P c b frame ≡ (read_failed P b sequence_exhausted, c) =
            unfold open_frame in rw (stop, open_frame) refl in
          let whole = read-open_frame frame is in
          (whole.0 ∙ ap (λ r. ok (r.0)) e, whole.1 ∙ ap (λ r. r.1) e)

      pub read-corrupted :
          c.read_seq ≢ max_seq
          → P.aead_open c.read_aead (nonce_for c.read_seq) frame [] ≡ none
          → Returns (ok (read_failed P b ciphertext_corrupted)) c
      read-corrupted room bad =
          let go = ne→== c.read_seq max_seq room in
          let e : open_frame P c b frame ≡ (read_failed P b ciphertext_corrupted, c) =
            unfold open_frame in rw (go, bad, open_frame) refl in
          let whole = read-open_frame frame is in
          (whole.0 ∙ ap (λ r. ok (r.0)) e, whole.1 ∙ ap (λ r. r.1) e)

      pub read-opened :
          (text : Bytes)
          → c.read_seq ≢ max_seq
          → P.aead_open c.read_aead (nonce_for c.read_seq) frame [] ≡ some text
          → Returns
              (ok (record {
                buffer = copy_into b text;
                count = min (length b) (length text);
                error = none;
              }))
              (kept_rest P (record c { read_seq = (c.read_seq + 1) % 2 ^ 64 }) b text)
      read-opened text room good =
          let go = ne→== c.read_seq max_seq room in
          let r : ReadReturn P = record {
            buffer = copy_into b text;
            count = min (length b) (length text);
            error = none;
          } in
          let e : open_frame P c b frame
              ≡ (r, kept_rest P (record c { read_seq = (c.read_seq + 1) % 2 ^ 64 }) b text) =
            unfold open_frame in rw (go, good, open_frame) refl in
          let whole = read-open_frame frame is in
          (whole.0 ∙ ap (λ r. ok (r.0)) e, whole.1 ∙ ap (λ r. r.1) e)

  -- A round after which nothing is left.
  last_round :
      (c : Conn P) (text : Bytes) (o : Outcome (Unit {0})) (w : P.World)
      (next : Outcome (WriteReturn P) × Conn P × P.World)
      → (next.0 ≡ ok (record { count = length text; error = none })) × (next.1 ≡ c)
      → let r : Outcome (WriteReturn P) × Conn P × P.World = elim o [
        | ok u ↦ next
        | err e ↦ (ok (record { count = 0; error = some e }), c, w)
        | panic p ↦ (panic p, c, w)
      ] in
        (r.0 ≡ round_return P text o) × (r.1 ≡ c)
  last_round c text (ok u) w next h = h
  last_round c text (err e) w next h = (refl, refl)
  last_round c text (panic p) w next h = (refl, refl)

  write_loop_end :
      (fuel : ℕ) (c : Conn P) (written n : ℕ) (rest : Bytes) (w : P.World)
      → rest ≡ []
      → written ≡ n
      → let r = write_loop P fuel c written rest w in
        (r.0 ≡ ok (record { count = n; error = none })) × (r.1 ≡ c)
  unfolding write_loop
  write_loop_end fuel c written n [] w e same =
      (ap (λ k. ok (record { count = k; error = none })) same, refl)
  write_loop_end fuel c written n (x ∷ rest) w e same = cc

  -- Write of one record, or the first round of Write if the record is all that there is.
  pub write-round_return :
      (c : Conn P) (text : Bytes) (w : P.World)
      → 0 < length text
      → length text ≤ max_plain
      → c.write_seq ≢ max_seq
      → let cipher = P.aead_seal c.write_aead (nonce_for c.write_seq) text [] in
        ((write P c text w).0 ≡ round_return P text (write_raw P c.raw cipher w).0)
        × ((write P c text w).1 ≡ record c { write_seq = (c.write_seq + 1) % 2 ^ 64 })
  unfolding write
  write-round_return c [] w some_bytes short room = absurd (omega arith)
  write-round_return c (x ∷ rest) w some_bytes short room =
      let text = x ∷ rest in
      let c' : Conn P = record c { write_seq = (c.write_seq + 1) % 2 ^ 64 } in
      let whole = take_all max_plain text short in
      let nothing : drop max_plain text ≡ [] =
        length_zero _ (omega (arith, length-drop max_plain text)) in
      let go = ne→== c.write_seq max_seq room in
      subst
        (λ t.
          let cipher = P.aead_seal c.write_aead (nonce_for c.write_seq) t [] in
          ((write_loop P (suc (length rest)) c 0 text w).0
            ≡ round_return P t (write_raw P c.raw cipher w).0)
          × ((write_loop P (suc (length rest)) c 0 text w).1 ≡ c'))
        whole
        (unfold write_loop in
          rw (go, write_loop)
            (last_round c' (take max_plain text) _ _ _
              (write_loop_end (length rest) c' _ _ _ _ nothing (omega arith))))

  -- Write of one record when the numbers are used up.
  pub write-exhausted :
      (c : Conn P) (text : Bytes) (w : P.World)
      → 0 < length text
      → c.write_seq ≡ max_seq
      → ((write P c text w).0 ≡ ok (record { count = 0; error = some sequence_exhausted }))
        × ((write P c text w).1 ≡ c)
  unfolding write
  write-exhausted c [] w some_bytes full = absurd (omega arith)
  write-exhausted c (x ∷ rest) w some_bytes full =
      let stop = eq→== c.write_seq max_seq full in
      unfold write_loop in rw (stop, write_loop) (refl, refl)
