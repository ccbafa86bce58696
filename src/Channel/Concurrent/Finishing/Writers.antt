-- ===== src/Channel/Concurrent/Finishing/Writers.antt =====
-- A goroutine in Write (channel.go) goes on until it is done, if the connection below answers.
use zwing.Base.{
  ℕ, zero, suc, ◌≤◌, ◌≡◌, refl, [], ◌∷◌, Bytes, true, length, length-drop, drop, Outcome, ok, err,
  panic, Bool-cases, inl, inr, ◌==◌, ==→eq, ==→ne, arith,
}
use zwing.Platform.{Platform}
use zwing.Channel.{write_raw, max_plain, max_seq}
use zwing.Channel.Concurrent.{
  WriteAt, away, head, tested, sealed, loaded, sending, done, writes_now, finish, exhaust, test,
  seal, load, store, send, unlock, after_send,
}
use zwing.Channel.Concurrent.Schedule.{Goroutines}
use zwing.Channel.Concurrent.Guarded.{update_same}
use zwing.Channel.Concurrent.Finishing.{stay, WriteDone, write_first}

module _ (P : Platform) (w : P.World) (i : ℕ) where
  from_done : (s : Goroutines P) (r : _) → s.writers i ≡ done r → WriteDone P s
  from_done s r e =
      write_first P s i (done r) away _ e unlock refl
        (record { t = _; steps = stay; free = refl; other = refl })

  -- From the head of the loop, with at most `n` bytes left.
  abbrev Loop : ℕ → Type 0
  Loop n =
      (s : Goroutines P) (written : ℕ) (rest : Bytes)
      → length rest ≤ n
      → s.writers i ≡ head written rest
      → WriteDone P s

  module _ (n : ℕ) (loop : Loop n) (written : ℕ) (rest : Bytes) (short : length rest ≤ suc n) where
    from_after_send :
        (s : Goroutines P) (o : Outcome (Unit {0}))
        → s.writers i ≡ after_send P written rest o
        → WriteDone P s
    from_after_send s (ok u) e =
        loop s _ (drop max_plain rest) (omega (arith, length-drop max_plain rest)) e
    from_after_send s (err x) e = from_done s _ e
    from_after_send s (panic p) e = from_done s _ e

    from_sending :
        (s : Goroutines P) (cipher : Bytes)
        → s.writers i ≡ sending written rest cipher
        → WriteDone P s
    from_sending s cipher e =
        write_first P s i (sending written rest cipher) _ _ e (send w) refl
          (from_after_send _ (write_raw P s.mem.conn.raw cipher w).0 (update_same s.writers i _))

    from_loaded :
        (s : Goroutines P) (cipher : Bytes) (seq : ℕ)
        → s.writers i ≡ loaded written rest cipher seq
        → WriteDone P s
    from_loaded s cipher seq e =
        write_first P s i (loaded written rest cipher seq) _ _ e store refl
          (from_sending _ cipher (update_same s.writers i _))

    from_sealed :
        (s : Goroutines P) (cipher : Bytes)
        → s.writers i ≡ sealed written rest cipher
        → WriteDone P s
    from_sealed s cipher e =
        write_first P s i (sealed written rest cipher) _ _ e load refl
          (from_loaded _ cipher _ (update_same s.writers i _))

    from_tested : (s : Goroutines P) → s.writers i ≡ tested written rest → WriteDone P s
    from_tested s e =
        write_first P s i (tested written rest) _ _ e seal refl
          (from_sealed _ _ (update_same s.writers i _))

  from_head : (n : ℕ) → Loop n
  from_head n s written [] short e =
      write_first P s i (head written []) (done _) _ e (finish refl) refl
        (from_done _ _ (update_same s.writers i _))
  from_head zero s written (x ∷ rest) short e = absurd (omega arith)
  from_head (suc n) s written (x ∷ rest) short e =
      elim (Bool-cases (s.mem.conn.write_seq == max_seq)) [
        | inl full ↦
            write_first P s i (head written (x ∷ rest)) (done _) _ e
              (exhaust w (omega arith) (==→eq _ _ full)) refl
              (from_done _ _ (update_same s.writers i _))
        | inr room ↦
            write_first P s i (head written (x ∷ rest)) (tested written (x ∷ rest)) _ e
              (test (omega arith) (==→ne _ _ room)) refl
              (from_tested n (from_head n) written (x ∷ rest) short _ (update_same s.writers i _))
      ]

  from_inside :
      (s : Goroutines P) (p : WriteAt P) → s.writers i ≡ p → writes_now P p ≡ true → WriteDone P s
  from_inside s away e is = cc
  from_inside s (head written rest) e is = from_head (length rest) s written rest (omega arith) e
  from_inside s (tested written rest) e is =
      from_tested (length rest) (from_head (length rest)) written rest (omega arith) s e
  from_inside s (sealed written rest cipher) e is =
      from_sealed (length rest) (from_head (length rest)) written rest (omega arith) s cipher e
  from_inside s (loaded written rest cipher seq) e is =
      from_loaded (length rest) (from_head (length rest)) written rest (omega arith) s cipher seq e
  from_inside s (sending written rest cipher) e is =
      from_sending (length rest) (from_head (length rest)) written rest (omega arith) s cipher e
  from_inside s (done r) e is = from_done s r e

  pub writes_now-WriteDone : (s : Goroutines P) → writes_now P (s.writers i) ≡ true → WriteDone P s
  writes_now-WriteDone s is = from_inside s (s.writers i) refl is
