-- ===== src/TestServer/Echo.antt =====
-- The test server's echo, on a channel in order.
use zwing.Base.{
  ℕ, ◌<◌, ◌≤◌, ◌≡◌, refl, ap, ◌∙◌, arith, Bytes, [], ◌∷◌, ◌++◌, none, length, take, drop, zeros,
  length-zeros, length-take, length-drop, length_zero, take_all, inl, inr, ok,
}
use zwing.Platform.{Platform}
use zwing.Platform.Laws.{AeadLaws}
use zwing.Platform.Duplex.{Duplex}
use zwing.Channel.{Conn, ReadReturn, read, write, max_seq, max_plain}
use zwing.Channel.Halves.{read-ReaderOf}
use zwing.Channel.Stream.{chunks}
use zwing.Channel.Stream.Writing.{write-InStep}
use zwing.Channel.Stream.Reading.{read-HandedOut}
use zwing.Channel.Exchange.{
  Exchange, handed, taken, IsReady, Reach, here, next, b_reads, b_writes, read_a, read_b, write_a,
  write_b,
}
use zwing.Channel.Exchange.Queue.{ready-unread}
use zwing.Channel.Exchange.Order.{IsExchange, Step-IsExchange}
use zwing.TestServer.{echo, echo_buffer_size, reply, wrote}

chunks_nil : (fuel : ℕ) → length (chunks fuel []) ≡ 0
unfolding chunks
chunks_nil fuel = refl

-- A short text is one record.
length-chunks_short : (b : Bytes) → length b ≤ max_plain → length (chunks (length b) b) ≤ 1
unfolding chunks
length-chunks_short [] short = omega arith
length-chunks_short (x ∷ rest) short =
    let left = drop max_plain (x ∷ rest) in
    let none_left : left ≡ [] =
      length_zero left (omega (arith, length-drop max_plain (x ∷ rest))) in
    omega (arith, ap (λ l. length (chunks (length rest) l)) none_left, chunks_nil (length rest))

echo_ok :
    (P : Platform) (eof : ℕ) (c : Conn P) (w : P.World) (ret : ReadReturn P) (count : ℕ)
    → let o = read P c (zeros echo_buffer_size) w in
      let v = write P o.1 (take ret.count ret.buffer) o.2 in
      o.0 ≡ ok ret
      → ret.error ≡ none
      → v.0 ≡ ok (record { count = count; error = none })
      → echo P eof c w ≡ (ok tt, v.1, v.2)
unfolding echo reply wrote
echo_ok P eof c w ret count e calm f =
    let o = read P c (zeros echo_buffer_size) w in
    ap (λ r. reply P eof r o.1 o.2) e
    ∙ rw calm (
        ap
          (λ r. (
            wrote P r,
            (write P o.1 (take ret.count ret.buffer) o.2).1,
            (write P o.1 (take ret.count ret.buffer) o.2).2,
          ))
          f)

module _ (P : Platform) (aead : AeadLaws P) {raw_a raw_b : P.RawConn}
    (duplex : Duplex P raw_a raw_b) where
  -- The server at end `b` has read some bytes and written them back.
  pub record Echoed (eof : ℕ) (s : Exchange P) : Type 0 where
    pub text : Bytes
    pub after : Exchange P
    pub ran : echo P eof s.b s.world ≡ (ok tt, after.b, after.world)
    pub some : 0 < length text
    pub heard : after.got_b ≡ s.got_b ++ text
    pub said : after.sent_b ≡ s.sent_b ++ text
    pub asked : after.sent_a ≡ s.sent_a
    pub reach : Reach P duplex s after

  -- On an exchange in order, if bytes are on their way to the server, its sequence numbers last
  -- and the libraries work, the echo succeeds: it reads a byte or more, and writes back what it
  -- read and nothing else.
  pub echo-Echoed :
      (eof : ℕ) (s : Exchange P)
      → IsExchange P duplex s
      → IsReady P duplex.forward s.b s.world
      → s.b.write_seq < max_seq
      → Echoed eof s
  unfolding read_b read_a write_b write_a echo
  echo-Echoed eof s q ready room =
      let buf = zeros echo_buffer_size in
      let h =
        read-HandedOut P aead raw_a raw_b duplex.forward s.a s.b buf s.world q.forward.records
          q.forward.in_step (ready-unread P aead q.forward ready) in
      let text = take h.ret.count h.ret.buffer in
      let fits = h.fits in
      let whole = h.whole in
      let ht = length-take h.ret.count h.ret.buffer in
      let hb = length-zeros echo_buffer_size in
      let s1 = read_b P s buf in
      let heard = b_reads buf ready in
      let q1 = Step-IsExchange P aead duplex heard q in
      let given = ap (λ o. o.0) h.ran in
      let short = length-chunks_short text (omega arith) in
      let (c2, w2, records, sent, step, back) =
        write-InStep P aead raw_b raw_a duplex.backward s1.a s1.b text s1.world q1.backward.records
          q1.backward.in_step
          (omega (arith, ap (λ c. c.write_seq) (read-ReaderOf P s.b buf s.world))) in
      record {
        text = text;
        after = write_b P s1 text;
        ran = echo_ok P eof s.b s.world h.ret (length text) given h.no_error (ap (λ o. o.0) sent);
        some = elim h.progress [ inl empty ↦ absurd (omega arith) | inr more ↦ omega arith ];
        heard = ap (λ o. s.got_b ++ handed P o) given;
        said =
            ap (λ o. s.sent_b ++ taken P text o) (ap (λ o. o.0) sent)
            ∙ ap (λ x. s.sent_b ++ x) (take_all (length text) text (omega arith));
        asked = refl;
        reach = next (next here heard) (b_writes text);
      }

  -- What the server has echoed is the next part of what `a` had written, and has come back to `a`.
  pub record Returned (eof : ℕ) (s : Exchange P) : Type 0 where
    pub echoed : Echoed eof s
    pub rest : Bytes
    pub asked : s.got_b ++ (echoed.text ++ rest) ≡ s.sent_a
    pub last : Exchange P
    pub reach : Reach P duplex echoed.after last
    pub returned : last.got_a ≡ s.sent_b ++ echoed.text
