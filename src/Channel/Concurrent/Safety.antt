-- ===== src/Channel/Concurrent/Safety.antt =====
-- What holds of Read and Write (channel.go) in any number of goroutines, whenever one looks.
use zwing.Base.{ℕ, ◌+◌, ◌≤◌, ◌≡◌, refl, sym, ◌∙◌, true, false, some, [], arith}
use zwing.Platform.{Platform}
use zwing.Aead.{nonce_for}
use zwing.Aead.Nonces.{nonce_for_inj}
use zwing.Channel.{Conn, max_seq}
use zwing.Channel.Integrity.{get_elem?}
use zwing.Channel.Concurrent.{reads_now, writes_now, Seal}
use zwing.Channel.Concurrent.Schedule.{
  Goroutines, Step, reader, writer, unused, Reach, start, later, Sequential, begin,
}
use zwing.Channel.Concurrent.Invariant.{Inv, FitsRead, FitsWrite, AreNumbered}
use zwing.Channel.Concurrent.Invariant.Reading.{ReadMove-Inv}
use zwing.Channel.Concurrent.Invariant.Writing.{WriteMove-Inv}
use zwing.Channel.Integrity.Sealed.{get_elem?_below}

none_sealed : (first : ℕ) → AreNumbered first []
unfolding get_elem?
none_sealed first k x e = cc

module _ (P : Platform) where
  abbrev InvOf : Conn P → Goroutines P → Type 0
  InvOf c s = Inv P c s.mem s.readers s.writers

  unused-Inv : (c : Conn P) → c.write_seq ≤ max_seq → InvOf c (unused P c)
  unfolding FitsRead FitsWrite
  unused-Inv c small = record {
    spec = c;
    core = record {
      run = begin;
      agree = refl;
      numbered = none_sealed c.write_seq;
      few = omega arith;
      small = small;
    };
    reading = record {
      alone = λ i j a b. cc;
      free = λ f i. refl;
      held = λ f. absurd (cc f);
      fitting = λ i. tt;
      resting = λ f. refl;
    };
    writing = record {
      alone = λ i j a b. cc;
      free = λ f i. refl;
      held = λ f. absurd (cc f);
      fitting = λ i. tt;
      resting = λ f. record { level = refl; counted = omega arith };
    };
  }

  Step-Inv : (c : Conn P) (s t : Goroutines P) → Step P s t → InvOf c s → InvOf c t
  Step-Inv c s t (reader i {m} {p} move) inv =
      ReadMove-Inv P c s.mem s.readers s.writers inv i (s.readers i) p m refl move
  Step-Inv c s t (writer i {m} {p} move) inv =
      WriteMove-Inv P c s.mem s.readers s.writers inv i (s.writers i) p m refl move

  pub Reach-Inv : (c : Conn P) (s : Goroutines P) → Reach P c s → c.write_seq ≤ max_seq → InvOf c s
  Reach-Inv c s start small = unused-Inv c small
  Reach-Inv c s (later {s = before} r step) small =
      Step-Inv c before s step (Reach-Inv c before r small)

  -- One goroutine at most is in Read and one in Write, and `d` is what whole calls leave that
  -- returned, one after the other, what the goroutines' calls have returned.
  pub record Linearized (c : Conn P) (s : Goroutines P) : Type 0 where
    pub one_reader :
        (i j : ℕ) → reads_now (s.readers i) ≡ true → reads_now (s.readers j) ≡ true → i ≡ j
    pub one_writer :
        (i j : ℕ) → writes_now P (s.writers i) ≡ true → writes_now P (s.writers j) ≡ true → i ≡ j
    pub d : Conn P
    pub run : Sequential P c s.mem.events d
    pub agree :
        s.mem.conn ≡ record d { read_seq = s.mem.conn.read_seq; write_seq = s.mem.conn.write_seq }
    pub reading : s.mem.read_locked ≡ false → s.mem.conn.read_seq ≡ d.read_seq
    pub writing : s.mem.write_locked ≡ false → s.mem.conn.write_seq ≡ d.write_seq

  -- From a counter of at most 2^64 - 1, any number of goroutines call Read and Write on one
  -- connection, with their steps in any order and the connection below in any state at each of
  -- them. At any moment one goroutine at most is inside Read and one inside Write. And some
  -- sequence of whole calls of Read, and of Write for one record, returns what Reads and rounds
  -- of Write have returned so far, in that order, and leaves the connection as it is, but for a
  -- counter whose mutex is held.
  pub Reach-Linearized :
      (c : Conn P) (s : Goroutines P) → Reach P c s → c.write_seq ≤ max_seq → Linearized c s
  Reach-Linearized c s r small =
      let inv = Reach-Inv c s r small in
      let core = inv.core in
      record {
        one_reader = inv.reading.alone;
        one_writer = inv.writing.alone;
        d = inv.spec;
        run = core.run;
        agree = core.agree;
        reading = inv.reading.resting;
        writing = λ f. (inv.writing.resting f).level;
      }

  -- From a counter of at most 2^64 - 1, over any steps of any number of goroutines in Read and
  -- Write of one connection: each call of Seal has used the nonce of the number that follows the
  -- last, from the counter on, and no two have used the same nonce.
  pub Reach-seals :
      (c : Conn P) (s : Goroutines P)
      → Reach P c s
      → c.write_seq ≤ max_seq
      → (j k : ℕ) (x y : Seal) → get_elem? s.mem.seals j ≡ some x
      → get_elem? s.mem.seals k ≡ some y
      → (x.nonce ≡ nonce_for (c.write_seq + j)) × (x.nonce ≡ y.nonce → j ≡ k)
  Reach-seals c s r small j k x y at_j at_k =
      let core = (Reach-Inv c s r small).core in
      let few = core.few in
      let low = get_elem?_below s.mem.seals j x at_j in
      let high = get_elem?_below s.mem.seals k y at_k in
      (
        core.numbered j x at_j,
        λ e.
            let same : c.write_seq + j ≡ c.write_seq + k =
              nonce_for_inj _ _ (omega arith) (omega arith)
                (sym (core.numbered j x at_j) ∙ e ∙ core.numbered k y at_k) in
            omega arith,
      )
