-- ===== src/Channel/Concurrent/Finishing/Readers.antt =====
-- A goroutine in Read (channel.go) goes on until it is done, if the connection below answers.
use zwing.Base.{Option-cases, ok, err, panic, [], ◌==◌, ==→eq, ==→ne}
use zwing.Aead.{nonce_for}
use zwing.Channel.{max_seq}
use zwing.Base.{
  ℕ, ◌≡◌, refl, Bytes, true, length, Outcome, Bool-cases, inl, inr, ltb, ltb→lt, ltb→le, arith,
}
use zwing.Platform.{Platform}
use zwing.Channel.Concurrent.{
  ReadAt, outside, looking, taking, copied, waiting, got, checked, plain, counting, counted,
  leaving, reads_now, more, copy, take_rest, empty, heard, failed, died, full, check, corrupted,
  opens, load, store, keep_rest, unlock,
}
use zwing.Channel.Concurrent.Schedule.{Goroutines}
use zwing.Channel.Concurrent.Guarded.{update_same}
use zwing.Channel.Concurrent.Finishing.{stay, ReadDone, read_first}

module _ (P : Platform) (w : P.World) (i : ℕ) where
  from_leaving : (s : Goroutines P) → s.readers i ≡ leaving → ReadDone P s
  from_leaving s e =
      read_first P s i leaving outside _ e unlock refl
        (record { t = _; steps = stay; free = refl; other = refl })

  from_counted : (s : Goroutines P) (b text : Bytes) → s.readers i ≡ counted b text → ReadDone P s
  from_counted s b text e =
      read_first P s i (counted b text) leaving _ e keep_rest refl
        (from_leaving _ (update_same s.readers i leaving))

  from_counting :
      (s : Goroutines P) (b text : Bytes) (seq : ℕ)
      → s.readers i ≡ counting b text seq
      → ReadDone P s
  from_counting s b text seq e =
      read_first P s i (counting b text seq) _ _ e store refl
        (from_counted _ b text (update_same s.readers i _))

  from_plain : (s : Goroutines P) (b text : Bytes) → s.readers i ≡ plain b text → ReadDone P s
  from_plain s b text e =
      read_first P s i (plain b text) _ _ e load refl
        (from_counting _ b text _ (update_same s.readers i _))

  from_checked : (s : Goroutines P) (b frame : Bytes) → s.readers i ≡ checked b frame → ReadDone P s
  from_checked s b frame e =
      let conn = s.mem.conn in
      elim (Option-cases (P.aead_open conn.read_aead (nonce_for conn.read_seq) frame [])) [
        | inl bad ↦
            read_first P s i (checked b frame) leaving _ e (corrupted bad) refl
              (from_leaving _ (update_same s.readers i leaving))
        | inr (text, good) ↦
            read_first P s i (checked b frame) (plain b text) _ e (opens good) refl
              (from_plain _ b text (update_same s.readers i _))
      ]

  from_got :
      (s : Goroutines P) (b : Bytes) (o : Outcome Bytes) → s.readers i ≡ got b o → ReadDone P s
  from_got s b (err x) e =
      read_first P s i (got b (err x)) leaving _ e failed refl
        (from_leaving _ (update_same s.readers i leaving))
  from_got s b (panic p) e =
      read_first P s i (got b (panic p)) leaving _ e died refl
        (from_leaving _ (update_same s.readers i leaving))
  from_got s b (ok frame) e = elim (Bool-cases (s.mem.conn.read_seq == max_seq)) [
    | inl last ↦
        read_first P s i (got b (ok frame)) leaving _ e (full (==→eq _ _ last)) refl
          (from_leaving _ (update_same s.readers i leaving))
    | inr room ↦
        read_first P s i (got b (ok frame)) (checked b frame) _ e (check (==→ne _ _ room)) refl
          (from_checked _ b frame (update_same s.readers i _))
  ]

  from_copied :
      (s : Goroutines P) (b buffer : Bytes) (n : ℕ) → s.readers i ≡ copied b buffer n → ReadDone P s
  from_copied s b buffer n e =
      read_first P s i (copied b buffer n) leaving _ e (take_rest w) refl
        (from_leaving _ (update_same s.readers i leaving))

  from_taking : (s : Goroutines P) (b : Bytes) → s.readers i ≡ taking b → ReadDone P s
  from_taking s b e =
      read_first P s i (taking b) _ _ e copy refl (from_copied _ b _ _ (update_same s.readers i _))

  from_waiting : (s : Goroutines P) (b : Bytes) → s.readers i ≡ waiting b → ReadDone P s
  from_waiting s b e =
      read_first P s i (waiting b) _ _ e (heard w) refl (from_got _ b _ (update_same s.readers i _))

  from_looking : (s : Goroutines P) (b : Bytes) → s.readers i ≡ looking b → ReadDone P s
  from_looking s b e = elim (Bool-cases (ltb 0 (length s.mem.conn.read_buf))) [
    | inl some_left ↦
        read_first P s i (looking b) (taking b) _ e (more (ltb→lt 0 _ some_left)) refl
          (from_taking _ b (update_same s.readers i (taking b)))
    | inr none_left ↦
        let nothing = ltb→le 0 (length s.mem.conn.read_buf) none_left in
        read_first P s i (looking b) (waiting b) _ e (empty (omega arith)) refl
          (from_waiting _ b (update_same s.readers i (waiting b)))
  ]

  from_inside :
      (s : Goroutines P) (p : ReadAt) → s.readers i ≡ p → reads_now p ≡ true → ReadDone P s
  from_inside s outside e is = cc
  from_inside s (looking b) e is = from_looking s b e
  from_inside s (taking b) e is = from_taking s b e
  from_inside s (copied b buffer n) e is = from_copied s b buffer n e
  from_inside s (waiting b) e is = from_waiting s b e
  from_inside s (got b o) e is = from_got s b o e
  from_inside s (checked b frame) e is = from_checked s b frame e
  from_inside s (plain b text) e is = from_plain s b text e
  from_inside s (counting b text n) e is = from_counting s b text n e
  from_inside s (counted b text) e is = from_counted s b text e
  from_inside s leaving e is = from_leaving s e

  pub reads_now-ReadDone : (s : Goroutines P) → reads_now (s.readers i) ≡ true → ReadDone P s
  reads_now-ReadDone s is = from_inside s (s.readers i) refl is
