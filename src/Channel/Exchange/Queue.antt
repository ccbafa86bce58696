-- ===== src/Channel/Exchange/Queue.antt =====
-- One direction of an exchange as a queue of bytes, under calls of Read and Write at either end
-- (channel.go).
use zwing.Base.{
  ℕ, ◌<◌, ◌≡◌, sym, subst, ap, ◌∙◌, Bytes, List, [], ◌∷◌, ◌++◌, take, length, length-append,
  append_assoc, arith, Outcome, inl, inr,
}
use zwing.Host.Link.{Link}
use zwing.Platform.{Platform}
use zwing.Platform.Laws.{AeadLaws}
use zwing.Channel.{Conn, ReadReturn, WriteReturn, read, write}
use zwing.Channel.Halves.{write-WriterOf, read-ReaderOf}
use zwing.Channel.Stream.{InStep, unread, seals_nil, concat, concat_cons}
use zwing.Channel.Stream.Filling.{write-Filled}
use zwing.Channel.Stream.Reading.{read-HandedOut}
use zwing.Channel.Exchange.{taken, handed, IsReady}

module _ (P : Platform) where
  -- The other end of two ends in step may write, and the writer's end read, without disturbing them.
  other_end :
      (near far : P.RawConn) (link : Link P.host near far) (s r : Conn P) (w w' : P.World)
      (records : List Bytes) (read_seq write_seq : ℕ) (read_buf : Bytes)
      → InStep P near far link s r w records
      → link.pending w' ≡ link.pending w
      → InStep P near far link
          (record s { read_seq = read_seq; read_buf = read_buf })
          (record r { write_seq = write_seq })
          w'
          records
  other_end near far link s r w w' records m n buf step still = record {
    raw_s = step.raw_s;
    raw_r = step.raw_r;
    same_key = step.same_key;
    counted = step.counted;
    below = step.below;
    wire = still ∙ step.wire;
    sized = step.sized;
  }

  -- One direction: the ends are in step, and what was handed out and what is unread is what was
  -- sent.
  pub record IsQueue (near far : P.RawConn) (link : Link P.host near far) (s r : Conn P)
      (w : P.World) (sent got : Bytes) : Type 0 where
    pub records : List Bytes
    pub in_step : InStep P near far link s r w records
    pub in_order : got ++ unread P r records ≡ sent

module _ (P : Platform) (aead : AeadLaws P) where
  module _ {near far : P.RawConn} {link : Link P.host near far} {s r : Conn P} {w : P.World}
      {sent got : Bytes} (q : IsQueue P near far link s r w sent got) where
    -- The writer writes.
    pub write-IsQueue :
        (bs : Bytes)
        → let o = write P s bs w in IsQueue P near far link o.1 r o.2 (sent ++ taken P bs o.0) got
    write-IsQueue bs =
        let f = write-Filled P aead near far link r s bs w q.records q.in_step in
        subst
          (λ (o : Outcome (WriteReturn P) × Conn P × P.World).
            IsQueue P near far link o.1 r o.2 (sent ++ taken P bs o.0) got)
          (sym f.ran)
          (record {
            records = f.records';
            in_step = f.in_step;
            in_order =
                ap (λ x. got ++ x) f.back
                ∙ sym (append_assoc got (unread P r q.records) (take f.ret.count bs))
                ∙ ap (λ x. x ++ take f.ret.count bs) q.in_order;
          })

    -- The reader writes, the other way.
    pub write_back-IsQueue :
        (bs : Bytes)
        → link.pending (write P r bs w).2 ≡ link.pending w
        → IsQueue P near far link s (write P r bs w).1 (write P r bs w).2 sent got
    write_back-IsQueue bs still =
        subst (λ c. IsQueue P near far link s c (write P r bs w).2 sent got)
          (sym (write-WriterOf P r bs w))
          (record {
            records = q.records;
            in_step =
                other_end P near far link s r w (write P r bs w).2 q.records s.read_seq _ s.read_buf
                  q.in_step still;
            in_order = q.in_order;
          })

    -- What is ready to be read is a byte at least.
    pub ready-unread : IsReady P link r w → 0 < length (unread P r q.records)
    ready-unread ready = go q.records q.in_step ready
      where
        go :
            (rs : List Bytes)
            → InStep P near far link s r w rs
            → IsReady P link r w
            → 0 < length (unread P r rs)
        go rs step (inl more) = omega (arith, length-append r.read_buf (concat rs))
        go [] step (inr more) =
            absurd
              (omega (arith, ap length step.wire, ap length (seals_nil P r.read_aead r.read_seq)))
        go (t ∷ ts) step (inr more) =
            let sized = step.sized in
            omega (
              arith,
              length-append r.read_buf (concat (t ∷ ts)),
              ap length (concat_cons t ts),
              length-append t (concat ts),
              sized.0.0,
            )

    -- The reader reads.
    pub read-IsQueue :
        (buf : Bytes)
        → IsReady P link r w
        → let o = read P r buf w in IsQueue P near far link s o.1 o.2 sent (got ++ handed P o.0)
    read-IsQueue buf ready =
        let h =
          read-HandedOut P aead near far link s r buf w q.records q.in_step (ready-unread ready) in
        subst
          (λ (o : Outcome (ReadReturn P) × Conn P × P.World).
            IsQueue P near far link s o.1 o.2 sent (got ++ handed P o.0))
          (sym h.ran)
          (record {
            records = h.records';
            in_step = h.in_step;
            in_order =
                append_assoc got (take h.ret.count h.ret.buffer) (unread P h.r' h.records')
                ∙ ap (λ x. got ++ x) h.front
                ∙ q.in_order;
          })

    -- The writer reads, the other way.
    pub read_back-IsQueue :
        (buf : Bytes)
        → link.pending (read P s buf w).2 ≡ link.pending w
        → IsQueue P near far link (read P s buf w).1 r (read P s buf w).2 sent got
    read_back-IsQueue buf still =
        subst (λ c. IsQueue P near far link c r (read P s buf w).2 sent got)
          (sym (read-ReaderOf P s buf w))
          (record {
            records = q.records;
            in_step =
                other_end P near far link s r w (read P s buf w).2 q.records _ r.write_seq _
                  q.in_step still;
            in_order = q.in_order;
          })
