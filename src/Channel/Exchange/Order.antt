-- ===== src/Channel/Exchange/Order.antt =====
-- The invariant of an exchange, and its steps (channel.go's Read and Write).
use zwing.Base.{Bytes}
use zwing.Platform.{Platform}
use zwing.Platform.Laws.{AeadLaws}
use zwing.Platform.Duplex.{Duplex}
use zwing.Channel.Halves.{write-view, read-view}
use zwing.Channel.Exchange.{
  Exchange, flip, write_a, read_a, write_b, read_b, IsReady, Step, Reach, here, next, a_writes,
  b_writes, a_reads, b_reads,
}
use zwing.Channel.Exchange.Queue.{
  IsQueue, write-IsQueue, write_back-IsQueue, read-IsQueue, read_back-IsQueue,
}

module _ (P : Platform) where
  pub record IsExchange {raw_a raw_b : P.RawConn} (duplex : Duplex P raw_a raw_b) (s : Exchange P)
      : Type 0 where
    pub forward : IsQueue P raw_a raw_b duplex.forward s.a s.b s.world s.sent_a s.got_b
    pub backward : IsQueue P raw_b raw_a duplex.backward s.b s.a s.world s.sent_b s.got_a

  -- A connection seen from its other end.
  abbrev pub turned : {a b : P.RawConn} → Duplex P a b → Duplex P b a
  turned d = record {
    forward = d.backward;
    backward = d.forward;
    write_forward = d.write_backward;
    read_forward = d.read_backward;
    write_backward = d.write_forward;
    read_backward = d.read_forward;
    sign_forward = d.sign_backward;
    sign_backward = d.sign_forward;
    mlkem_forward = d.mlkem_backward;
    mlkem_backward = d.mlkem_forward;
    entropy_forward = d.entropy_backward;
    entropy_backward = d.entropy_forward;
  }

module _ (P : Platform) (aead : AeadLaws P) where
  write_a-IsExchange :
      {raw_a raw_b : P.RawConn} (duplex : Duplex P raw_a raw_b) (s : Exchange P) (bs : Bytes)
      → IsExchange P duplex s
      → IsExchange P duplex (write_a P s bs)
  unfolding write_a
  write_a-IsExchange {raw_a} {raw_b} duplex s bs q =
      let raw = q.forward.in_step.raw_s in
      record {
        forward = write-IsQueue P aead q.forward bs;
        backward =
            write_back-IsQueue P aead q.backward bs
              (write-view P duplex.backward.pending raw_a duplex.write_forward s.a bs s.world raw);
      }

  read_a-IsExchange :
      {raw_a raw_b : P.RawConn} (duplex : Duplex P raw_a raw_b) (s : Exchange P) (buf : Bytes)
      → IsReady P duplex.backward s.a s.world
      → IsExchange P duplex s
      → IsExchange P duplex (read_a P s buf)
  unfolding read_a
  read_a-IsExchange {raw_a} {raw_b} duplex s buf ready q =
      let raw = q.forward.in_step.raw_s in
      record {
        forward =
            read_back-IsQueue P aead q.forward buf
              (read-view P duplex.forward.pending raw_a duplex.read_backward s.a buf s.world raw);
        backward = read-IsQueue P aead q.backward buf ready;
      }

  pub flip-IsExchange :
      {raw_a raw_b : P.RawConn} (duplex : Duplex P raw_a raw_b) (s : Exchange P)
      → IsExchange P duplex s
      → IsExchange P (turned P duplex) (flip P s)
  flip-IsExchange duplex s q = record { forward = q.backward; backward = q.forward }

  module _ {raw_a raw_b : P.RawConn} (duplex : Duplex P raw_a raw_b) where
    pub Step-IsExchange :
        {s t : Exchange P} → Step P duplex s t → IsExchange P duplex s → IsExchange P duplex t
    unfolding write_b read_b
    Step-IsExchange {s} (a_writes bs) q = write_a-IsExchange duplex s bs q
    Step-IsExchange {s} (b_writes bs) q =
        flip-IsExchange (turned P duplex) _
          (write_a-IsExchange (turned P duplex) (flip P s) bs (flip-IsExchange duplex s q))
    Step-IsExchange {s} (a_reads buf ready) q = read_a-IsExchange duplex s buf ready q
    Step-IsExchange {s} (b_reads buf ready) q =
        flip-IsExchange (turned P duplex) _
          (read_a-IsExchange (turned P duplex) (flip P s) buf ready (flip-IsExchange duplex s q))

    pub Reach-IsExchange :
        {s t : Exchange P} → Reach P duplex s t → IsExchange P duplex s → IsExchange P duplex t
    Reach-IsExchange here q = q
    Reach-IsExchange (next before step) q = Step-IsExchange step (Reach-IsExchange before q)
