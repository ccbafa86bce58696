-- ===== src/Channel/Concurrent/Invariant/Returns.antt =====
-- The steps with which a round of Write (channel.go) ends keep the invariant.
use zwing.Channel.Concurrent.{reads_now}
use zwing.Channel.Concurrent.Invariant.{FitsRead}
use zwing.Base.{sequence_exhausted, ◌<◌}
use zwing.Channel.{max_seq}
use zwing.Base.{
  ℕ, ◌+◌, ◌%◌, ◌^◌, ◌≡◌, refl, sym, subst, ap, ◌∙◌, Bytes, true, some, [], ◌∷◌, ◌++◌, length,
  length-take, take, Outcome, ok, err, panic, arith,
}
use native.Mathlib.Nat.{mod-eq_of_lt}
use zwing.Platform.{Platform}
use zwing.Channel.{Conn, write, write_raw, max_plain}
use zwing.Channel.Concurrent.{
  ReadAt, WriteAt, head, sending, done, writes_now, round_returned, Shared, after_send,
  round_return, exhausted, round_done,
}
use zwing.Channel.Concurrent.Schedule.{Sequential, writes}
use zwing.Channel.Concurrent.Guarded.{update, IsGuarded, move-IsGuarded}
use zwing.Channel.Concurrent.Atomic.{write-round_return, write-exhausted}
use zwing.Channel.Concurrent.Invariant.{FitsWrite, IsSettled, Inv, ciphered}
use zwing.Channel.Concurrent.Invariant.Rounds.{Fits, idle-FitsWrite, made}

module _ (P : Platform) (c : Conn P) (m : Shared P) (readers : ℕ → ReadAt) (writers : ℕ → WriteAt P)
    (inv : Inv P c m readers writers) (i : ℕ) where
  -- The readers see nothing of what Write changes.
  still :
      (spec' : Conn P) (n : ℕ)
      → spec' ≡ record (inv.spec) { write_seq = n }
      → IsGuarded reads_now
          (FitsRead P spec' m.conn.read_seq)
          (m.conn.read_seq ≡ spec'.read_seq)
          m.read_locked
          readers
  unfolding FitsRead
  still spec' n e =
      subst
        (λ x.
          IsGuarded reads_now (FitsRead P x m.conn.read_seq) (m.conn.read_seq ≡ x.read_seq)
            m.read_locked readers)
        (sym e) inv.reading

  after_send_inside :
      (written : ℕ) (rest : Bytes) (o : Outcome (Unit {0}))
      → writes_now P (after_send P written rest o) ≡ true
  after_send_inside written rest (ok u) = refl
  after_send_inside written rest (err e) = refl
  after_send_inside written rest (panic p) = refl

  after_send-FitsWrite :
      (written : ℕ) (rest : Bytes) (o : Outcome (Unit {0})) (key : P.Aead) (seq spec n : ℕ)
      → IsSettled seq spec n
      → FitsWrite P key seq spec n (after_send P written rest o)
  unfolding FitsWrite
  after_send-FitsWrite written rest (ok u) key seq spec n s = s
  after_send-FitsWrite written rest (err e) key seq spec n s = s
  after_send-FitsWrite written rest (panic p) key seq spec n s = s

  -- The round returns: that of a whole Write of its record on the specification's connection.
  pub end_round :
      (written : ℕ) (rest cipher : Bytes) (w : P.World)
      → writes_now P (writers i) ≡ true
      → Fits P c m readers writers inv i (sending written rest cipher)
      → let o = (write_raw P m.conn.raw cipher w).0 in
        Inv P c
          (round_done P m (take max_plain rest) o)
          readers
          (update writers i (after_send P written rest o))
  unfolding FitsWrite
  end_round written rest cipher w was (level, counted, round, made_of) =
      let core = inv.core in
      let n = inv.spec.write_seq in
      let room = round.room in
      let some_bytes = round.some_bytes in
      let text = take max_plain rest in
      let size = length-take max_plain rest in
      let whole = write-round_return P inv.spec text w (omega arith) (omega arith) room in
      let cipher' : cipher ≡ ciphered P inv.spec.write_aead n rest =
        made_of ∙ ap (λ x. ciphered P x.write_aead n rest) core.agree in
      let sent : (write P inv.spec text w).0
          ≡ round_return P text (write_raw P m.conn.raw cipher w).0 =
        whole.0
        ∙ ap (λ r. round_return P text (write_raw P r (ciphered P inv.spec.write_aead n rest) w).0)
            (sym (ap (λ x. x.raw) core.agree))
        ∙ ap (λ x. round_return P text (write_raw P m.conn.raw x w).0) (sym cipher') in
      let number : (n + 1) % 2 ^ 64 ≡ n + 1 = mod-eq_of_lt (omega (arith, core.small)) in
      let spec' = (write P inv.spec text w).1 in
      let spec_seq : spec'.write_seq ≡ (n + 1) % 2 ^ 64 = ap (λ x. x.write_seq) whole.1 in
      let set : Conn P → Conn P =
        λ x. record x { read_seq = m.conn.read_seq; write_seq = m.conn.write_seq } in
      let o = (write_raw P m.conn.raw cipher w).0 in
      record {
        spec = spec';
        core = record {
          run =
              subst (λ r. Sequential P c (m.events ++ (round_returned text r ∷ [])) spec') sent
                (writes core.run text w);
          agree = core.agree ∙ ap set (sym whole.1);
          numbered = core.numbered;
          few = core.few;
          small = omega (arith, core.small);
        };
        reading = still spec' _ whole.1;
        writing =
            let next : IsSettled m.conn.write_seq spec'.write_seq
                (made P c m readers writers inv i) =
              record { level = omega arith; counted = counted } in
            move-IsGuarded (writes_now P) _ _ _ _ writers i _
              (idle-FitsWrite P c m readers writers inv i _ _ _ _)
              (after_send-FitsWrite written rest o m.conn.write_aead _ _ _ next) inv.writing was
              (after_send_inside written rest o);
      }

  -- A round without a number returns like a whole Write of its record.
  pub end_exhausted :
      (written : ℕ) (rest : Bytes) (w : P.World)
      → writes_now P (writers i) ≡ true
      → 0 < length rest
      → m.conn.write_seq ≡ max_seq
      → Fits P c m readers writers inv i (head written rest)
      → Inv P c (exhausted P m (take max_plain rest)) readers (
          update writers i
            (done (ok (record { count = written; error = some sequence_exhausted }))))
  unfolding FitsWrite
  end_exhausted written rest w was more full settled =
      let core = inv.core in
      let level = settled.level in
      let counted = settled.counted in
      let text = take max_plain rest in
      let size = length-take max_plain rest in
      let whole = write-exhausted P inv.spec text w (omega arith) (omega arith) in
      let spec' = (write P inv.spec text w).1 in
      let run : Sequential P c (exhausted P m text).events spec' =
        subst (λ r. Sequential P c (m.events ++ (round_returned text r ∷ [])) spec') whole.0
          (writes core.run text w) in
      record {
        spec = inv.spec;
        core = record {
          run = subst (Sequential P c (exhausted P m text).events) whole.1 run;
          agree = core.agree;
          numbered = core.numbered;
          few = core.few;
          small = core.small;
        };
        reading = inv.reading;
        writing =
            move-IsGuarded (writes_now P) _ _ _ _ writers i (done _)
              (idle-FitsWrite P c m readers writers inv i _ _ _ _) settled inv.writing was refl;
      }
