-- ===== src/Channel/Batch/Writing.antt =====
-- channel.go: Write's loop over `b` and the batch.
use zwing.Base.{
  ℕ, zero, suc, ◌+◌, ◌%◌, ◌^◌, ◌<◌, ◌≤◌, ◌≡◌, refl, ap, ◌∙◌, sym, Bytes, none, some, [], ◌∷◌,
}
use zwing.Base.{
  length-drop, length, take, drop, arith, ◌==◌, if◌then◌else◌, Outcome, ok, err, panic,
}
use zwing.Base.{lt→ltb, Bool-cases, inl, inr, ==→eq, ==→ne, sequence_exhausted}
use native.Mathlib.Nat.{mod-eq_of_lt}
use zwing.Platform.{Platform}
use zwing.Aead.{nonce_for}
use zwing.Channel.{Conn, WriteReturn, max_seq, max_plain, write, write_loop, write_raw}
use zwing.Channel.Stream.{concat, chunks, concat-chunks}
use zwing.Channel.Batch.{send_batch, write_batch}
use zwing.Channel.Batch.Rounds.{
  bump, after, send_batch-cons, send_batch_stopped, take_nil, take_full,
}

-- More rounds than bytes make no difference.
pub chunks_enough : (m n : ℕ) (b : Bytes) → length b ≤ m → length b ≤ n → chunks m b ≡ chunks n b
unfolding chunks
chunks_enough m n [] hm hn = refl
chunks_enough zero n (x ∷ rest) hm hn = absurd (omega arith)
chunks_enough (suc m) zero (x ∷ rest) hm hn = absurd (omega arith)
chunks_enough (suc m) (suc n) (x ∷ rest) hm hn =
    let hd = length-drop max_plain (x ∷ rest) in
    ap (λ l. take max_plain (x ∷ rest) ∷ l)
      (chunks_enough m n (drop max_plain (x ∷ rest)) (omega arith) (omega arith))

module _ (P : Platform) where
  write_loop-send_batch :
      (fuel : ℕ) (c : Conn P) (written : ℕ) (rest : Bytes) (w : P.World)
      → c.write_seq ≤ max_seq
      → write_loop P fuel c written rest w ≡ send_batch P c written (chunks fuel rest) w
  unfolding write_loop chunks after
  write_loop-send_batch fuel c written [] w h =
      sym (send_batch_stopped P c written [] w (take_nil _))
  write_loop-send_batch zero c written (x ∷ rest) w h =
      sym (send_batch_stopped P c written [] w (take_nil _))
  write_loop-send_batch (suc fuel) c written (x ∷ rest) w h =
      let r = take max_plain (x ∷ rest) in
      let rs = chunks fuel (drop max_plain (x ∷ rest)) in
      let sent = write_raw P c.raw (P.aead_seal c.write_aead (nonce_for c.write_seq) r []) w in
      elim (Bool-cases (c.write_seq == max_seq)) [
        | inl full ↦
            let spent = take_full c.write_seq (r ∷ rs) (==→eq c.write_seq max_seq full) in
            rw (full, write_loop)
              (sym (
                send_batch_stopped P c written (r ∷ rs) w spent
                ∙ ap
                    (λ t. (
                      ok (record {
                        count = written;
                        error = if t then some sequence_exhausted else none;
                      }),
                      c,
                      w,
                    ))
                    (lt→ltb 0 (length (r ∷ rs)) (omega arith))))
        | inr room ↦
            let below : c.write_seq < max_seq = omega (arith, ==→ne c.write_seq max_seq room) in
            let wraps : (c.write_seq + 1) % 2 ^ 64 ≡ c.write_seq + 1 = mod-eq_of_lt (omega arith) in
            let loop : Outcome (Unit {0}) → Outcome (WriteReturn P) × Conn P × P.World = λ o.
              elim o [
                | ok u ↦
                    write_loop P fuel (bump P c) (written + length r) (drop max_plain (x ∷ rest))
                      (sent.1)
                | err e ↦ (ok (record { count = written; error = some e }), bump P c, sent.1)
                | panic p ↦ (panic p, bump P c, sent.1)
              ] in
            let rest_sent : loop (sent.0) ≡ after P c written r rs (sent.0) (sent.1) =
              elim (sent.0) as (λ o. loop o ≡ after P c written r rs o (sent.1)) [
                | ok u ↦
                    write_loop-send_batch fuel (bump P c) (written + length r)
                      (drop max_plain (x ∷ rest)) (sent.1) (omega arith)
                | err e ↦ refl
                | panic p ↦ refl
              ] in
            rw (room, write_loop) (rest_sent ∙ sym (send_batch-cons P c written r rs w below))
      ]

  -- From a counter of at most 2^64 - 1, whatever the connection does: Write cuts `b` into
  -- records, which together are `b`, seals as many as there are numbers left, and puts the frames
  -- on the connection in order until one fails. The bytes of the sent records are reported, with
  -- that failure, or with exhaustion when a record had no number; a frame that failed has used
  -- its number. More rounds of the loop than `b` has bytes change nothing.
  pub write-write_batch :
      (c : Conn P) (b : Bytes) (w : P.World) (fuel : ℕ)
      → c.write_seq ≤ max_seq
      → length b ≤ fuel
      → (write P c b w ≡ write_batch P c b w)
        × (concat (chunks (length b) b) ≡ b)
        × (write_loop P fuel c 0 b w ≡ write P c b w)
  unfolding write
  write-write_batch c b w fuel h enough =
      let run = write_loop-send_batch (length b) c 0 b w h in
      (
        run,
        concat-chunks (length b) b (omega arith),
        write_loop-send_batch fuel c 0 b w h
            ∙ ap (λ records. send_batch P c 0 records w)
                (chunks_enough fuel (length b) b enough (omega arith))
            ∙ sym run,
      )
