-- ===== src/Channel/Integrity/Records.antt =====
-- The records that the Writes of one end seal (channel.go), in the order of their numbers.
use zwing.Base.{
  ℕ, zero, suc, ◌+◌, ◌-◌, ◌%◌, ◌^◌, ◌≤◌, ◌≡◌, ap, Bytes, Bool-cases, inl, inr, List, [], ◌∷◌, ◌++◌,
  length, length-append, length-take, take, drop, arith, ◌==◌, ==→ne, Outcome, ok, err, panic, some,
}
use native.Mathlib.Nat.{mod-eq_of_lt}
use zwing.Platform.{Platform}
use zwing.Aead.{nonce_for}
use zwing.Channel.{Conn, WriteReturn, write, write_loop, write_raw, max_seq, max_plain}
use zwing.Channel.Counters
use zwing.Channel.Counters.{IsCounted, Advances, Calls, Calls-Advances, Call}
use zwing.Channel.Halves.{read-ReaderOf}
use zwing.Channel.Stream.{chunks}
use zwing.Channel.Integrity.{Reads, here, reads, writes}

module _ (P : Platform) where
  -- What a Write seals of its bytes: a record for each number that it uses.
  abbrev pub sealed_by : Conn P → Bytes → P.World → List Bytes
  sealed_by c b w = take ((write P c b w).1.write_seq - c.write_seq) (chunks (length b) b)

  unfoldable pub records_of : {c d : Conn P} {out : Bytes} → Reads P c out d → List Bytes
  records_of here = []
  records_of (reads before b w) = records_of before
  records_of (writes {out} {d} before b w) = records_of before ++ sealed_by d b w

  -- The same calls, without what they returned.
  pub Reads-Calls : {c d : Conn P} {out : Bytes} → Reads P c out d → Calls P c d
  Reads-Calls here = Counters.here
  Reads-Calls (reads {out} {d} before b w) =
      Counters.next (Reads-Calls before) (Counters.reads d b w)
  Reads-Calls (writes {out} {d} before b w) =
      Counters.next (Reads-Calls before) (Counters.writes d b w)

  within :
      (bound : ℕ) (c' : Conn P) (written : ℕ) (o : Outcome (Unit {0})) (w : P.World)
      (next : Outcome (WriteReturn P) × Conn P × P.World)
      → c'.write_seq ≤ bound
      → next.1.write_seq ≤ bound
      → let r : Outcome (WriteReturn P) × Conn P × P.World = elim o [
        | ok u ↦ next
        | err e ↦ (ok (record { count = written; error = some e }), c', w)
        | panic p ↦ (panic p, c', w)
      ] in
        r.1.write_seq ≤ bound
  within bound c' written (ok u) w next f g = g
  within bound c' written (err e) w next f g = f
  within bound c' written (panic p) w next f g = f

  -- Write uses a number for each record at most.
  write_loop-within :
      (fuel : ℕ) (c : Conn P) (written : ℕ) (rest : Bytes) (w : P.World)
      → c.write_seq ≤ max_seq
      → (write_loop P fuel c written rest w).1.write_seq ≤ c.write_seq + length (chunks fuel rest)
  unfolding write_loop chunks
  write_loop-within fuel c written [] w h = omega arith
  write_loop-within zero c written (x ∷ rest) w h = omega arith
  write_loop-within (suc fuel) c written (x ∷ rest) w h =
      elim (Bool-cases (c.write_seq == max_seq)) [
        | inl full ↦ rw (full, write_loop) (omega arith)
        | inr room ↦
            let chunk = take max_plain (x ∷ rest) in
            let left = drop max_plain (x ∷ rest) in
            let below = ==→ne c.write_seq max_seq room in
            let next : (c.write_seq + 1) % 2 ^ 64 ≡ c.write_seq + 1 = mod-eq_of_lt (omega arith) in
            let c' : Conn P = record c { write_seq = (c.write_seq + 1) % 2 ^ 64 } in
            let sent =
              write_raw P c.raw (P.aead_seal c.write_aead (nonce_for c.write_seq) chunk []) w in
            let on = write_loop-within fuel c' (written + length chunk) left sent.1 (omega arith) in
            rw (room, write_loop)
              (within (c.write_seq + suc (length (chunks fuel left))) c' written sent.0 sent.1 _
                (omega arith) (omega arith))
      ]

  length-sealed_by :
      (c : Conn P) (b : Bytes) (w : P.World)
      → c.write_seq ≤ max_seq
      → length (sealed_by c b w) ≡ (write P c b w).1.write_seq - c.write_seq
  unfolding write
  length-sealed_by c b w h =
      let bound = write_loop-within (length b) c 0 b w h in
      omega (arith, length-take ((write P c b w).1.write_seq - c.write_seq) (chunks (length b) b))

  -- The log has a record for each number that was used.
  pub length-records_of :
      {c d : Conn P} {out : Bytes} (calls : Reads P c out d)
      → IsCounted P c
      → length (records_of calls) + c.write_seq ≡ d.write_seq
  unfolding records_of
  length-records_of here k = omega arith
  length-records_of (reads {out} {d} before b w) k =
      omega (arith, length-records_of before k, ap (λ c. c.write_seq) (read-ReaderOf P d b w))
  length-records_of (writes {out} {d} before b w) k =
      let so_far = Calls-Advances P (Reads-Calls before) k in
      let more =
        Calls-Advances P (Counters.next Counters.here (Counters.writes d b w)) so_far.counted in
      let first = so_far.counted.writing in
      let grows = more.writing in
      omega (
        arith,
        length-records_of before k,
        length-append (records_of before) (sealed_by d b w),
        length-sealed_by d b w first,
      )
