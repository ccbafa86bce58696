-- ===== src/Channel/Concurrent/Invariant/Reading.antt =====
-- A step of Read (channel.go) keeps the invariant.
use zwing.Base.{
  ℕ, ◌+◌, ◌%◌, ◌^◌, ◌≡◌, refl, sym, subst, ap, ap₂, ◌∙◌, Bytes, true, false, none, some, [], length,
  Option, ok, err, panic, arith, min, copy_into, drop,
}
use zwing.Platform.{Platform}
use zwing.Aead.{nonce_for}
use zwing.Channel.{Conn, read_raw, read_buffered}
use zwing.Channel.Concurrent.{
  ReadAt, outside, looking, taking, copied, waiting, checked, plain, counting, counted, leaving,
  WriteAt, reads_now, Shared, ReadMove, lock, more, copy, take_rest, empty, heard, failed, died,
  full, check, corrupted, opens, load, store, keep_rest, unlock, read_done, kept_rest,
}
use zwing.Channel.Concurrent.Guarded.{update, move-IsGuarded, lock-IsGuarded, unlock-IsGuarded}
use zwing.Channel.Concurrent.Atomic.{
  read-read_buffered, read-err, read-panic, read-full, read-corrupted, read-opened,
}
use zwing.Channel.Concurrent.Invariant.{FitsRead, Inv}
use zwing.Channel.Concurrent.Invariant.Ending.{
  idle-FitsRead, end_read, end_refused, moved, within, set, level_agree,
}

module _ (P : Platform) (c : Conn P) (m : Shared P) (readers : ℕ → ReadAt) (writers : ℕ → WriteAt P)
    (inv : Inv P c m readers writers) (i : ℕ) where
  abbrev Fits : ReadAt → Type 0
  Fits = FitsRead P inv.spec m.conn.read_seq

  buf : m.conn.read_buf ≡ inv.spec.read_buf
  buf = ap (λ x. x.read_buf) inv.core.agree

  end_buffered :
      (b buffer : Bytes) (n : ℕ) (w : P.World)
      → reads_now (readers i) ≡ true
      → Fits (copied b buffer n)
      → Inv P c
          (read_done P m b
            (ok (record { buffer = buffer; count = n; error = none }))
            (record m.conn { read_buf = drop n m.conn.read_buf }))
          (update readers i leaving)
          writers
  unfolding FitsRead read_buffered
  end_buffered b buffer n w was (level, some_left, same, count) =
      let whole = read-read_buffered P inv.spec b w some_left in
      end_read P c m readers writers inv i was b w _ _
        (whole.0
          ∙ sym (ap₂ (λ x k. ok (record { buffer = x; count = k; error = none })) same count))
        (ap {A = Conn P} (λ x. record x { read_buf = drop n x.read_buf })
            (level_agree P c m readers writers inv i level)
          ∙ ap
              (λ k. record (inv.spec) {
                read_buf = drop k inv.spec.read_buf;
                write_seq = m.conn.write_seq;
              })
              count
          ∙ sym (ap (set P c m readers writers inv i) whole.1))

  end_opened :
      (b text : Bytes)
      → reads_now (readers i) ≡ true
      → Fits (counted b text)
      → Inv P c
          (read_done P m b
            (ok (record {
              buffer = copy_into b text;
              count = min (length b) (length text);
              error = none;
            }))
            (kept_rest P m.conn b text))
          (update readers i leaving)
          writers
  unfolding FitsRead
  end_opened b text was (ahead, opened) =
      let heard = opened.heard in
      let whole =
        read-opened P inv.spec b heard.w (ok opened.frame) heard.none_left heard.came opened.frame
          refl text opened.room opened.opens in
      end_read P c m readers writers inv i was b heard.w _ _ whole.0 (
        ap (λ x. kept_rest P x b text) inv.core.agree
        ∙ ap
            (λ k.
              kept_rest P (record (inv.spec) { read_seq = k; write_seq = m.conn.write_seq }) b text)
            ahead
        ∙ sym (ap (set P c m readers writers inv i) whole.1))

  -- The counter goes on, and the specification's does not yet.
  after_store :
      (b text : Bytes) (seq : ℕ)
      → reads_now (readers i) ≡ true
      → Fits (counting b text seq)
      → Inv P c
          (record m { conn = record m.conn { read_seq = (seq + 1) % 2 ^ 64 } })
          (update readers i (counted b text))
          writers
  unfolding FitsRead
  after_store b text seq was (level, opened, same) =
      let core = inv.core in
      record {
        spec = inv.spec;
        core = record {
          run = core.run;
          agree = ap {A = Conn P} (λ x. record x { read_seq = (seq + 1) % 2 ^ 64 }) core.agree;
          numbered = core.numbered;
          few = core.few;
          small = core.small;
        };
        reading =
            move-IsGuarded reads_now _ _ _ _ readers i _
              (idle-FitsRead P c m readers writers inv i inv.spec ((seq + 1) % 2 ^ 64))
              (ap (λ k. (k + 1) % 2 ^ 64) (same ∙ level), opened) inv.reading was refl;
        writing = inv.writing;
      }

  -- What the connection opens, the specification's opens.
  opened_by :
      m.conn.read_seq ≡ inv.spec.read_seq
      → (frame : Bytes) (o : Option Bytes)
      → P.aead_open m.conn.read_aead (nonce_for m.conn.read_seq) frame [] ≡ o
      → P.aead_open inv.spec.read_aead (nonce_for inv.spec.read_seq) frame [] ≡ o
  opened_by level frame o e =
      ap₂ (λ k n. P.aead_open k (nonce_for n) frame []) (sym (ap (λ x. x.read_aead) inv.core.agree))
        (sym level)
      ∙ e

  pub ReadMove-Inv :
      (p p' : ReadAt) (m' : Shared P)
      → readers i ≡ p
      → ReadMove P m p m' p'
      → Inv P c m' (update readers i p') writers
  unfolding FitsRead
  ReadMove-Inv p p' m' at (lock b free) = moved P c m readers writers inv i true (looking b) (
      lock-IsGuarded reads_now _ _ _ _ readers i (looking b)
        (idle-FitsRead P c m readers writers inv i inv.spec m.conn.read_seq)
        (inv.reading.resting free) inv.reading free refl)
  ReadMove-Inv p p' m' at (more {b} some_left) =
      let level = subst Fits at (inv.reading.fitting i) in
      within P c m readers writers inv i (taking b) (ap reads_now at) refl
        (level, omega (arith, ap length buf))
  ReadMove-Inv p p' m' at (copy {b}) =
      let (level, some_left) = subst Fits at (inv.reading.fitting i) in
      within P c m readers writers inv i _ (ap reads_now at) refl
        (level, some_left, ap (copy_into b) buf, ap (λ l. min (length b) (length l)) buf)
  ReadMove-Inv p p' m' at (take_rest {b} {buffer} {n} w) =
      end_buffered b buffer n w (ap reads_now at) (subst Fits at (inv.reading.fitting i))
  ReadMove-Inv p p' m' at (empty {b} none_left) =
      let level = subst Fits at (inv.reading.fitting i) in
      within P c m readers writers inv i (waiting b) (ap reads_now at) refl
        (level, omega (arith, ap length buf))
  ReadMove-Inv p p' m' at (heard {b} w) =
      let (level, none_left) = subst Fits at (inv.reading.fitting i) in
      let raw : inv.spec.raw ≡ m.conn.raw = sym (ap (λ x. x.raw) inv.core.agree) in
      within P c m readers writers inv i _ (ap reads_now at) refl
        (level, record { none_left = none_left; w = w; came = ap (λ r. (read_raw P r w).0) raw })
  ReadMove-Inv p p' m' at (failed {b} {e}) =
      let (level, h) = subst Fits at (inv.reading.fitting i) in
      end_refused P c m readers writers inv i (ap reads_now at) level b h.w _
        (read-err P inv.spec b h.w (err e) h.none_left h.came e refl)
  ReadMove-Inv p p' m' at (died {b} {p = x}) =
      let (level, h) = subst Fits at (inv.reading.fitting i) in
      end_refused P c m readers writers inv i (ap reads_now at) level b h.w _
        (read-panic P inv.spec b h.w (panic x) h.none_left h.came x refl)
  ReadMove-Inv p p' m' at (full {b} {frame} last) =
      let (level, h) = subst Fits at (inv.reading.fitting i) in
      end_refused P c m readers writers inv i (ap reads_now at) level b h.w _
        (read-full P inv.spec b h.w (ok frame) h.none_left h.came frame refl (sym level ∙ last))
  ReadMove-Inv p p' m' at (check {b} {frame} room) =
      let (level, h) = subst Fits at (inv.reading.fitting i) in
      within P c m readers writers inv i (checked b frame) (ap reads_now at) refl
        (level, h, λ e. room (level ∙ e))
  ReadMove-Inv p p' m' at (corrupted {b} {frame} bad) =
      let (level, h, room) = subst Fits at (inv.reading.fitting i) in
      end_refused P c m readers writers inv i (ap reads_now at) level b h.w _ (
        read-corrupted P inv.spec b h.w (ok frame) h.none_left h.came frame refl room
          (opened_by level frame none bad))
  ReadMove-Inv p p' m' at (opens {b} {frame} {text} good) =
      let (level, h, room) = subst Fits at (inv.reading.fitting i) in
      within P c m readers writers inv i (plain b text) (ap reads_now at) refl (
        level,
        record {
          frame = frame;
          heard = h;
          room = room;
          opens = opened_by level frame (some text) good;
        },
      )
  ReadMove-Inv p p' m' at (load {b} {text}) =
      let (level, o) = subst Fits at (inv.reading.fitting i) in
      within P c m readers writers inv i (counting b text m.conn.read_seq) (ap reads_now at) refl
        (level, o, refl)
  ReadMove-Inv p p' m' at (store {b} {text} {seq}) =
      after_store b text seq (ap reads_now at) (subst Fits at (inv.reading.fitting i))
  ReadMove-Inv p p' m' at (keep_rest {b} {text}) =
      end_opened b text (ap reads_now at) (subst Fits at (inv.reading.fitting i))
  ReadMove-Inv p p' m' at unlock = moved P c m readers writers inv i false outside (
      unlock-IsGuarded reads_now _ _ _ _ readers i outside
        (idle-FitsRead P c m readers writers inv i inv.spec m.conn.read_seq) tt inv.reading
        (ap reads_now at) refl (subst Fits at (inv.reading.fitting i)))
