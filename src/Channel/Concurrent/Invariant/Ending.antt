-- ===== src/Channel/Concurrent/Invariant/Ending.antt =====
-- How a Read (channel.go) ends, and the steps that keep to one goroutine.
use zwing.Base.{
  ℕ, ◌+◌, ◌≡◌, refl, sym, subst, ap, ap₂, ◌∙◌, Bytes, Bool, true, false, [], ◌∷◌, ◌++◌, length,
  Outcome, arith,
}
use zwing.Platform.{Platform}
use zwing.Channel.{Conn, ReadReturn, read}
use zwing.Channel.Halves.{read-ReaderOf}
use zwing.Channel.Concurrent.{
  ReadAt, outside, looking, taking, copied, waiting, got, checked, plain, counting, counted,
  leaving, WriteAt, reads_now, writes_now, read_returned, Shared, read_done,
}
use zwing.Channel.Concurrent.Schedule.{Sequential, reads}
use zwing.Channel.Concurrent.Guarded.{update, IsGuarded, move-IsGuarded}
use zwing.Channel.Concurrent.Invariant.{FitsRead, FitsWrite, IsSettled, Inv}

module _ (P : Platform) (c : Conn P) (m : Shared P) (readers : ℕ → ReadAt) (writers : ℕ → WriteAt P)
    (inv : Inv P c m readers writers) (i : ℕ) where
  pub idle-FitsRead :
      (spec : Conn P) (seq : ℕ) (p : ReadAt) → reads_now p ≡ false → FitsRead P spec seq p
  unfolding FitsRead
  idle-FitsRead spec seq outside e = tt
  idle-FitsRead spec seq (looking b) e = cc
  idle-FitsRead spec seq (taking b) e = cc
  idle-FitsRead spec seq (copied b buffer n) e = cc
  idle-FitsRead spec seq (waiting b) e = cc
  idle-FitsRead spec seq (got b o) e = cc
  idle-FitsRead spec seq (checked b frame) e = cc
  idle-FitsRead spec seq (plain b text) e = cc
  idle-FitsRead spec seq (counting b text n) e = cc
  idle-FitsRead spec seq (counted b text) e = cc
  idle-FitsRead spec seq leaving e = cc

  -- The writers see nothing of what Read changes.
  still :
      {key key' : P.Aead} {seq seq' spec spec' : ℕ} (made : ℕ)
      → key ≡ key'
      → seq ≡ seq'
      → spec ≡ spec'
      → IsGuarded
          (writes_now P)
          (FitsWrite P key seq spec made)
          (IsSettled seq spec made)
          m.write_locked
          writers
      → IsGuarded
          (writes_now P)
          (FitsWrite P key' seq' spec' made)
          (IsSettled seq' spec' made)
          m.write_locked
          writers
  still {key} {key'} {seq} {seq'} {spec} {spec'} made e f g h =
      let at_key =
        subst
          (λ k.
            IsGuarded (writes_now P) (FitsWrite P k seq spec made) (IsSettled seq spec made)
              m.write_locked writers)
          e h in
      let at_seq =
        subst
          (λ n.
            IsGuarded (writes_now P) (FitsWrite P key' n spec made) (IsSettled n spec made)
              m.write_locked writers)
          f at_key in
      subst
        (λ n.
          IsGuarded (writes_now P) (FitsWrite P key' seq' n made) (IsSettled seq' n made)
            m.write_locked writers)
        g at_seq

  -- Read has a result: that of a whole call on the specification's connection.
  pub end_read :
      reads_now (readers i) ≡ true
      → (b : Bytes) (w : P.World) (r : Outcome (ReadReturn P)) (conn' : Conn P)
      → (read P inv.spec b w).0 ≡ r
      → conn' ≡ record ((read P inv.spec b w).1) { write_seq = m.conn.write_seq }
      → Inv P c (read_done P m b r conn') (update readers i leaving) writers
  unfolding FitsRead
  end_read was b w r conn' same left =
      let core = inv.core in
      let spec' = (read P inv.spec b w).1 in
      let half = read-ReaderOf P inv.spec b w in
      let seq : conn'.write_seq ≡ m.conn.write_seq = ap (λ x. x.write_seq) left in
      let level : conn'.read_seq ≡ spec'.read_seq = ap (λ x. x.read_seq) left in
      let spec_seq : spec'.write_seq ≡ inv.spec.write_seq = ap (λ x. x.write_seq) half in
      let key : conn'.write_aead ≡ m.conn.write_aead =
        ap (λ x. x.write_aead) left
        ∙ ap (λ x. x.write_aead) half
        ∙ sym (ap (λ x. x.write_aead) core.agree) in
      record {
        spec = spec';
        core = record {
          run =
              subst (λ o. Sequential P c (m.events ++ (read_returned b o ∷ [])) spec') same
                (reads core.run b w);
          agree =
              left
              ∙ ap₂ (λ k n. record spec' { read_seq = k; write_seq = n }) (sym level) (sym seq);
          numbered = core.numbered;
          few = core.few;
          small = omega (arith, spec_seq, core.small);
        };
        reading =
            move-IsGuarded reads_now _ _ _ _ readers i leaving (idle-FitsRead spec' conn'.read_seq)
              level inv.reading was refl;
        writing =
            still (c.write_seq + length m.seals) (sym key) (sym seq) (sym spec_seq) inv.writing;
      }

  -- The readers alone are not where they were.
  pub moved :
      (locked : Bool) (p : ReadAt)
      → IsGuarded reads_now
          (FitsRead P inv.spec m.conn.read_seq)
          (m.conn.read_seq ≡ inv.spec.read_seq)
          locked
          (update readers i p)
      → Inv P c (record m { read_locked = locked }) (update readers i p) writers
  moved locked p g = record { spec = inv.spec; core = inv.core; reading = g; writing = inv.writing }

  pub within :
      (p : ReadAt)
      → reads_now (readers i) ≡ true
      → reads_now p ≡ true
      → FitsRead P inv.spec m.conn.read_seq p
      → Inv P c m (update readers i p) writers
  within p was is fits = moved m.read_locked p (
      move-IsGuarded reads_now _ _ _ _ readers i p (idle-FitsRead inv.spec m.conn.read_seq) fits
        inv.reading was is)

  abbrev pub set : Conn P → Conn P
  set x = record x { write_seq = m.conn.write_seq }

  -- The connection, when its reading counter is the specification's, and when it is one ahead.
  pub level_agree :
      m.conn.read_seq ≡ inv.spec.read_seq
      → m.conn ≡ record (inv.spec) { write_seq = m.conn.write_seq }
  level_agree e =
      inv.core.agree ∙ ap (λ k. record (inv.spec) { read_seq = k; write_seq = m.conn.write_seq }) e

  -- A Read that leaves the connection as it was.
  pub end_refused :
      reads_now (readers i) ≡ true
      → m.conn.read_seq ≡ inv.spec.read_seq
      → (b : Bytes) (w : P.World) (r : Outcome (ReadReturn P))
      → ((read P inv.spec b w).0 ≡ r) × ((read P inv.spec b w).1 ≡ inv.spec)
      → Inv P c (read_done P m b r m.conn) (update readers i leaving) writers
  end_refused was e b w r whole =
      end_read was b w r m.conn whole.0 (level_agree e ∙ sym (ap set whole.1))
