-- ===== src/Channel/Concurrent/Invariant/Rounds.antt =====
-- The steps of a round of Write (channel.go) keep the invariant.
use zwing.Base.{
  ℕ, ◌+◌, ◌%◌, ◌^◌, ◌≡◌, refl, ap, Bytes, Bool, true, false, [], ◌∷◌, ◌++◌, length, length-append,
  arith,
}
use native.Mathlib.Nat.{mod-eq_of_lt}
use zwing.Platform.{Platform}
use zwing.Channel.{Conn}
use zwing.Channel.Concurrent.{
  ReadAt, WriteAt, away, head, tested, sealed, loaded, sending, done, writes_now, Shared, seal_of,
}
use zwing.Channel.Concurrent.Guarded.{update, IsGuarded, move-IsGuarded}
use zwing.Channel.Concurrent.Invariant.{FitsWrite, IsSettled, Inv, ciphered}
use zwing.Channel.Concurrent.Invariant.Numbering.{AreNumbered-snoc}

module _ (P : Platform) (c : Conn P) (m : Shared P) (readers : ℕ → ReadAt) (writers : ℕ → WriteAt P)
    (inv : Inv P c m readers writers) (i : ℕ) where
  abbrev pub made : ℕ
  made = c.write_seq + length m.seals

  -- What goroutine `i` knows where it stands.
  abbrev pub Fits : WriteAt P → Type 0
  Fits = FitsWrite P m.conn.write_aead m.conn.write_seq inv.spec.write_seq made

  pub idle-FitsWrite :
      (key : P.Aead) (seq spec n : ℕ) (p : WriteAt P)
      → writes_now P p ≡ false
      → FitsWrite P key seq spec n p
  unfolding FitsWrite
  idle-FitsWrite key seq spec n away e = tt
  idle-FitsWrite key seq spec n (head _ _) e = cc
  idle-FitsWrite key seq spec n (tested _ _) e = cc
  idle-FitsWrite key seq spec n (sealed _ _ _) e = cc
  idle-FitsWrite key seq spec n (loaded _ _ _ _) e = cc
  idle-FitsWrite key seq spec n (sending _ _ _) e = cc
  idle-FitsWrite key seq spec n (done _) e = cc

  -- The writers alone are not where they were.
  pub moved :
      (locked : Bool) (p : WriteAt P)
      → IsGuarded
          (writes_now P)
          Fits
          (IsSettled m.conn.write_seq inv.spec.write_seq made)
          locked
          (update writers i p)
      → Inv P c (record m { write_locked = locked }) readers (update writers i p)
  moved locked p g = record { spec = inv.spec; core = inv.core; reading = inv.reading; writing = g }

  pub within :
      (p : WriteAt P)
      → writes_now P (writers i) ≡ true
      → writes_now P p ≡ true
      → Fits p
      → Inv P c m readers (update writers i p)
  within p was is fits = moved m.write_locked p (
      move-IsGuarded (writes_now P) _ _ _ _ writers i p (idle-FitsWrite _ _ _ _) fits inv.writing
        was is)

  -- Seal uses the counter's number.
  pub after_seal :
      (written : ℕ) (rest : Bytes)
      → writes_now P (writers i) ≡ true
      → Fits (tested written rest)
      → Inv P c
          (record m { seals = m.seals ++ (seal_of P m.conn.write_seq rest ∷ []) })
          readers
          (update writers i
            (sealed written rest (ciphered P m.conn.write_aead m.conn.write_seq rest)))
  unfolding FitsWrite
  after_seal written rest was (settled, round) =
      let core = inv.core in
      let level = settled.level in
      let counted = settled.counted in
      let room = round.room in
      let x = seal_of P m.conn.write_seq rest in
      let more = length-append m.seals (x ∷ []) in
      record {
        spec = inv.spec;
        core = record {
          run = core.run;
          agree = core.agree;
          numbered =
              AreNumbered-snoc c.write_seq m.conn.write_seq m.seals x core.numbered counted refl;
          few = omega (arith, more, core.small);
          small = core.small;
        };
        reading = inv.reading;
        writing =
            move-IsGuarded (writes_now P) _ _ _ _ writers i _ (idle-FitsWrite _ _ _ _)
              (
                level,
                omega (arith, more),
                round,
                ap (λ n. ciphered P m.conn.write_aead n rest) level,
              )
              inv.writing was refl;
      }

  -- The counter goes on, and the specification's does not yet.
  pub after_store :
      (written : ℕ) (rest cipher : Bytes) (seq : ℕ)
      → writes_now P (writers i) ≡ true
      → Fits (loaded written rest cipher seq)
      → Inv P c
          (record m { conn = record m.conn { write_seq = (seq + 1) % 2 ^ 64 } })
          readers
          (update writers i (sending written rest cipher))
  unfolding FitsWrite
  after_store written rest cipher seq was (level, next, round, text, same) =
      let core = inv.core in
      let room = round.room in
      let number : (seq + 1) % 2 ^ 64 ≡ seq + 1 = mod-eq_of_lt (omega (arith, core.small)) in
      let set : Conn P → Conn P = λ x. record x { write_seq = (seq + 1) % 2 ^ 64 } in
      record {
        spec = inv.spec;
        core = record {
          run = core.run;
          agree = ap set core.agree;
          numbered = core.numbered;
          few = core.few;
          small = core.small;
        };
        reading = inv.reading;
        writing =
            move-IsGuarded (writes_now P) _ _ _ _ writers i _ (idle-FitsWrite _ _ _ _)
              (omega arith, omega arith, round, text) inv.writing was refl;
      }
