-- ===== src/Channel/Exchange/Draining.antt =====
-- Reading at one end until nothing is left to read (channel.go's Read).
use zwing.Base.{
  length_zero, ℕ, zero, suc, ◌+◌, ◌<◌, ◌≤◌, ◌≡◌, refl, sym, subst, ap, ◌∙◌, Bytes, List, [], ◌∷◌,
  ◌++◌, length, ltb, length-append, length-take, append-nil, arith, Bool-cases, inl, inr, ltb→lt,
  ltb→le, Outcome,
}
use zwing.Host.Link.{Link}
use zwing.Platform.{Platform}
use zwing.Platform.Laws.{AeadLaws}
use zwing.Platform.Duplex.{Duplex}
use zwing.Wire.Frames.{frame, length-frame}
use zwing.Aead.{nonce_for}
use zwing.Channel.{Conn, ReadReturn, read}
use zwing.Channel.Stream.{InStep, unread, seals, seals-cons, concat, concat_nil}
use zwing.Channel.Stream.Reading.{read-HandedOut}
use zwing.Channel.Exchange.{
  Exchange, flip, handed, read_b, read_a, write_b, IsReady, Step, Reach, here, next, a_writes,
  b_writes, a_reads, b_reads,
}
use zwing.Channel.Exchange.Queue.{IsQueue, ready-unread}
use zwing.Channel.Exchange.Order.{turned, IsExchange, Step-IsExchange}

module _ (P : Platform) {raw_a raw_b : P.RawConn} where
  module _ (duplex : Duplex P raw_a raw_b) where
    pub Reach-trans :
        {s t u : Exchange P} → Reach P duplex s t → Reach P duplex t u → Reach P duplex s u
    Reach-trans r here = r
    Reach-trans r (next q step) = next (Reach-trans r q) step

  -- A call at one end is a call at the other, seen from there.
  flip-Step :
      (duplex : Duplex P raw_a raw_b) {s t : Exchange P}
      → Step P (turned P duplex) s t
      → Step P duplex (flip P s) (flip P t)
  unfolding write_b read_b
  flip-Step duplex (a_writes bs) = b_writes bs
  flip-Step duplex (b_writes bs) = a_writes bs
  flip-Step duplex (a_reads buf ready) = b_reads buf ready
  flip-Step duplex (b_reads buf ready) = a_reads buf ready

  pub flip-Reach :
      (duplex : Duplex P raw_a raw_b) {s t : Exchange P}
      → Reach P (turned P duplex) s t
      → Reach P duplex (flip P s) (flip P t)
  flip-Reach duplex here = here
  flip-Reach duplex (next before step) = next (flip-Reach duplex before) (flip-Step duplex step)

module _ (P : Platform) (aead : AeadLaws P) where
  module _ {near far : P.RawConn} {link : Link P.host near far} {s r : Conn P} {w : P.World}
      {sent got : Bytes} (q : IsQueue P near far link s r w sent got) where
    -- What is not handed out yet can be read.
    pub unread-IsReady : 0 < length (unread P r q.records) → IsReady P link r w
    unread-IsReady more = go q.records q.in_step more
      where
        go :
            (rs : List Bytes)
            → InStep P near far link s r w rs
            → 0 < length (unread P r rs)
            → IsReady P link r w
        go [] step more =
            inl (omega (arith, length-append r.read_buf (concat []), ap length concat_nil))
        go (t ∷ ts) step more =
            let cipher = P.aead_seal r.read_aead (nonce_for r.read_seq) t [] in
            let rest = seals P r.read_aead (r.read_seq + 1) ts in
            inr (
              omega (
                arith,
                ap length (step.wire ∙ seals-cons P r.read_aead r.read_seq t ts),
                length-append (frame cipher) rest,
                length-frame cipher,
              ))

    -- A read with room for a byte hands out one at least.
    read-some :
        (buf : Bytes)
        → IsReady P link r w
        → 0 < length buf
        → 0 < length (handed P (read P r buf w).0)
    read-some buf ready room =
        let h =
          read-HandedOut P aead near far link s r buf w q.records q.in_step
            (ready-unread P aead q ready) in
        let fits = h.fits in
        let whole = h.whole in
        let progress = h.progress in
        subst (λ (o : Outcome (ReadReturn P) × Conn P × P.World). 0 < length (handed P o.0))
          (sym h.ran)
          (elim progress [
            | inl empty ↦ absurd (omega arith)
            | inr some ↦ omega (arith, length-take h.ret.count h.ret.buffer)
          ])

  module _ {raw_a raw_b : P.RawConn} (duplex : Duplex P raw_a raw_b) where
    -- The end `b` has handed out all that was sent to it, and only it has read.
    pub record Drained (s : Exchange P) : Type 0 where
      pub last : Exchange P
      pub reach : Reach P duplex s last
      pub all : last.got_b ≡ s.sent_a
      pub sent : (last.sent_a ≡ s.sent_a) × (last.sent_b ≡ s.sent_b)
      pub heard : last.got_a ≡ s.got_a

    caught_up :
        (s : Exchange P) (q : IsExchange P duplex s)
        → length (unread P s.b q.forward.records) ≤ 0
        → Drained s
    caught_up s q none_left = record {
      last = s;
      reach = here;
      all =
          sym (append-nil s.got_b)
          ∙ ap (λ x. s.got_b ++ x) (sym (length_zero (unread P s.b q.forward.records) none_left))
          ∙ q.forward.in_order;
      sent = (refl, refl);
      heard = refl;
    }

    pub drain :
        (n : ℕ) (s : Exchange P) (buf : Bytes)
        → IsExchange P duplex s
        → 0 < length buf
        → length s.sent_a ≤ length s.got_b + n
        → Drained s
    unfolding read_b read_a
    drain zero s buf q room bound =
        let left = unread P s.b q.forward.records in
        caught_up s q (omega (arith, ap length q.forward.in_order, length-append s.got_b left))
    drain (suc n) s buf q room bound =
        let left = unread P s.b q.forward.records in
        elim (Bool-cases (ltb 0 (length left))) [
          | inr none_left ↦ caught_up s q (ltb→le 0 (length left) none_left)
          | inl more ↦
              let ready = unread-IsReady q.forward (ltb→lt 0 (length left) more) in
              let some = read-some q.forward buf ready room in
              let step = b_reads buf ready in
              let fresh = handed P (read P s.b buf s.world).0 in
              let d =
                drain n (read_b P s buf) buf (Step-IsExchange P aead duplex step q) room
                  (omega (arith, length-append s.got_b fresh)) in
              record {
                last = d.last;
                reach = Reach-trans P duplex (next here step) d.reach;
                all = d.all;
                sent = d.sent;
                heard = d.heard;
              }
        ]
