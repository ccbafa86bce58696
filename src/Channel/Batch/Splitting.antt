-- ===== src/Channel/Batch/Splitting.antt =====
-- channel.go: Write, a record at a time.
use zwing.Base.{
  ℕ, suc, ◌+◌, ◌-◌, ◌%◌, ◌^◌, ltb, ◌<◌, ◌≤◌, ◌≡◌, zero, ap₂, refl, sym, ap, ◌∙◌, Bytes, none, some,
  List, [], ◌∷◌, length, take, drop, arith, ◌==◌, Bool-cases, inl, inr, ==→eq, ==→ne, Outcome, ok,
  err, panic, sequence_exhausted, lt→ltb, take_all, length_zero, length-take, length-drop,
  if◌then◌else◌,
}
use zwing.Platform.{Platform}
use zwing.Aead.{nonce_for}
use zwing.Channel.{Conn, WriteReturn, max_seq, max_plain, write, write_raw}
use zwing.Channel.Stream.{concat, chunks}
use native.Mathlib.Nat.{mod-eq_of_lt}
use zwing.Channel.Batch.{sealed, send_all, send_batch, report}
use zwing.Channel.Batch.Rounds.{after, send_batch-cons, send_batch_stopped, take_nil, take_full}
use zwing.Channel.Batch.Writing.{write-write_batch, chunks_enough}

-- What is within the limit is one record.
chunks_one : (b : Bytes) → 0 < length b → length b ≤ max_plain → chunks (length b) b ≡ b ∷ []
unfolding chunks
chunks_one [] positive short = absurd (omega arith)
chunks_one (x ∷ rest) positive short =
    let left = drop max_plain (x ∷ rest) in
    let nothing : left ≡ [] = length_zero left (omega (arith, length-drop max_plain (x ∷ rest))) in
    ap (λ l. l ∷ chunks (length rest) left) (take_all max_plain (x ∷ rest) short)
    ∙ ap (λ l. (x ∷ rest) ∷ chunks (length rest) l) nothing

chunks_none : chunks 0 [] ≡ []
unfolding chunks
chunks_none = refl

chunks_cons :
    (x : ℕ) (rest : Bytes)
    → chunks (length (x ∷ rest)) (x ∷ rest)
      ≡ take max_plain (x ∷ rest) ∷ chunks (length rest) (drop max_plain (x ∷ rest))
unfolding chunks
chunks_cons x rest = refl

take_none : (n : ℕ) → take {A = ℕ} n [] ≡ []
unfolding take
take_none zero = refl
take_none (suc n) = refl

drop_none : (n : ℕ) → drop {A = ℕ} n [] ≡ []
unfolding drop
drop_none zero = refl
drop_none (suc n) = refl

module _ (P : Platform) where
  -- More bytes are reported.
  abbrev pub counted :
      ℕ → Outcome (WriteReturn P) × Conn P × P.World → Outcome (WriteReturn P) × Conn P × P.World
  counted k r = elim (r.0) [
    | ok ret ↦ (ok (record { count = k + ret.count; error = ret.error }), r.1, r.2)
    | err e ↦ r
    | panic p ↦ r
  ]

  -- A Write goes on after another, if that took all.
  pub go_on :
      Outcome (WriteReturn P) × Conn P × P.World
      → Bytes
      → Outcome (WriteReturn P) × Conn P × P.World
  go_on r b = elim (r.0) [
    | ok ret ↦ elim (ret.error) [ none ↦ counted ret.count (write P r.1 b r.2) | some e ↦ r ]
    | err e ↦ r
    | panic p ↦ r
  ]

  report-counted :
      (c : Conn P) (k : ℕ) (records : List Bytes) (n : ℕ) (o : Outcome (Unit {0})) (w : P.World)
      → report P c k records n o w ≡ counted k (report P c 0 records n o w)
  unfolding report
  report-counted c k records n (ok u) w =
      let sum : k + length (concat (take n records)) ≡ k + (0 + length (concat (take n records))) =
        omega arith in
      ap
        (λ i. (
          ok (record {
            count = i;
            error = if ltb n (length records) then some sequence_exhausted else none;
          }),
          record c { write_seq = c.write_seq + n },
          w,
        ))
        sum
  report-counted c k records n (err e) w =
      let sum : k + length (concat (take n records)) ≡ k + (0 + length (concat (take n records))) =
        omega arith in
      ap
        (λ i. (
          ok (record { count = i; error = some e }),
          record c { write_seq = c.write_seq + n + 1 },
          w,
        ))
        sum
  report-counted c k records n (panic p) w = refl

  send_batch-counted :
      (c : Conn P) (k : ℕ) (records : List Bytes) (w : P.World)
      → send_batch P c k records w ≡ counted k (send_batch P c 0 records w)
  unfolding send_batch
  send_batch-counted c k records w =
      let s =
        send_all P c.raw (sealed P c.write_aead c.write_seq (take (max_seq - c.write_seq) records))
          w in
      report-counted c k records s.0 s.1 s.2

  write-batch :
      (c : Conn P) (b : Bytes) (w : P.World)
      → c.write_seq ≤ max_seq
      → write P c b w ≡ send_batch P c 0 (chunks (length b) b) w
  write-batch c b w h = (write-write_batch P c b w (length b) h (omega arith)).0

  -- After one record: the rest of the batch is a Write of the bytes that are left.
  after-go_on :
      (c : Conn P) (r left : Bytes) (m : ℕ) (o : Outcome (Unit {0})) (w : P.World)
      → c.write_seq < max_seq
      → length left ≤ m
      → after P c 0 r (chunks m left) o w ≡ go_on (after P c 0 r [] o w) left
  unfolding after go_on
  after-go_on c r left m (ok u) w room enough =
      let wraps : (c.write_seq + 1) % 2 ^ 64 ≡ c.write_seq + 1 = mod-eq_of_lt (omega arith) in
      let c' : Conn P = record c { write_seq = (c.write_seq + 1) % 2 ^ 64 } in
      let whole : 0 + length r ≡ length r = omega arith in
      ap (λ l. send_batch P c' (0 + length r) l w)
        (chunks_enough m (length left) left enough (omega arith))
      ∙ send_batch-counted c' (0 + length r) (chunks (length left) left) w
      ∙ ap (counted (0 + length r)) (sym (write-batch c' left w (omega arith)))
      ∙ ap (λ q. go_on q left) (sym (send_batch_stopped P c' (0 + length r) [] w (take_nil _)))
  after-go_on c r left m (err e) w room enough = refl
  after-go_on c r left m (panic p) w room enough = refl

  -- Without a number left, nothing of a record is sent.
  exhausted :
      (c : Conn P) (r : Bytes) (rs : List Bytes) (w : P.World)
      → c.write_seq ≡ max_seq
      → send_batch P c 0 (r ∷ rs) w
        ≡ (ok (record { count = 0; error = some sequence_exhausted }), c, w)
  exhausted c r rs w full =
      send_batch_stopped P c 0 (r ∷ rs) w (take_full c.write_seq (r ∷ rs) full)
      ∙ ap
          (λ t.
            (ok (record { count = 0; error = if t then some sequence_exhausted else none }), c, w))
          (lt→ltb 0 (length (r ∷ rs)) (omega arith))

  -- The records of a Write are Writes of their own.
  batch-go_on :
      (c : Conn P) (r left : Bytes) (m : ℕ) (w : P.World)
      → c.write_seq ≤ max_seq
      → length left ≤ m
      → send_batch P c 0 (r ∷ chunks m left) w ≡ go_on (send_batch P c 0 (r ∷ []) w) left
  batch-go_on c r left m w h enough = elim (Bool-cases (c.write_seq == max_seq)) [
    | inl at_last ↦
        let full = ==→eq c.write_seq max_seq at_last in
        exhausted c r (chunks m left) w full
        ∙ unfold go_on in ap (λ q. go_on q left) (sym (exhausted c r [] w full))
    | inr room ↦
        let below : c.write_seq < max_seq = omega (arith, ==→ne c.write_seq max_seq room) in
        let sent = write_raw P c.raw (P.aead_seal c.write_aead (nonce_for c.write_seq) r []) w in
        send_batch-cons P c 0 r (chunks m left) w below
        ∙ after-go_on c r left m sent.0 sent.1 below enough
        ∙ ap (λ q. go_on q left) (sym (send_batch-cons P c 0 r [] w below))
  ]

  -- From a counter of at most 2^64 - 1, whatever the connection does: Write of `b` does what
  -- Write of its first record does and, if that took all of it, a Write of the bytes that are
  -- left, with the reported bytes added.
  pub write-go_on :
      (c : Conn P) (b : Bytes) (w : P.World)
      → c.write_seq ≤ max_seq
      → write P c b w ≡ go_on (write P c (take max_plain b) w) (drop max_plain b)
  unfolding go_on
  write-go_on c [] w h =
      let empty =
        write-batch c [] w h
        ∙ ap (λ l. send_batch P c 0 l w) chunks_none
        ∙ send_batch_stopped P c 0 [] w (take_nil _) in
      empty
      ∙ sym (ap (counted 0) empty)
      ∙ ap (λ q. go_on q []) (sym empty)
      ∙ ap₂ (λ l m. go_on (write P c l w) m) (sym (take_none max_plain)) (sym (drop_none max_plain))
  write-go_on c (x ∷ rest) w h =
      let r = take max_plain (x ∷ rest) in
      let left = drop max_plain (x ∷ rest) in
      let hr = length-take max_plain (x ∷ rest) in
      let hl = length-drop max_plain (x ∷ rest) in
      let one =
        write-batch c r w h
        ∙ ap (λ l. send_batch P c 0 l w) (chunks_one r (omega arith) (omega arith)) in
      write-batch c (x ∷ rest) w h
      ∙ ap (λ l. send_batch P c 0 l w) (chunks_cons x rest)
      ∙ batch-go_on c r left (length rest) w h (omega arith)
      ∙ ap (λ q. go_on q left) (sym one)
