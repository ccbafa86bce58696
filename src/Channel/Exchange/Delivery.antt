-- ===== src/Channel/Exchange/Delivery.antt =====
-- What an exchange that began fresh has handed out (channel.go's Read and Write at both ends).
use zwing.Base.{◌<◌, ◌≡◌, refl, ◌∙◌, Bytes, [], ◌++◌, length, arith}
use zwing.Platform.{Platform}
use zwing.Platform.Laws.{AeadLaws}
use zwing.Platform.Duplex.{Duplex}
use zwing.Channel.Stream.{InStep, concat_nil}
use zwing.Channel.Exchange.{flip, Exchange, Reach}
use zwing.Channel.Exchange.Draining.{drain, Reach-trans, flip-Reach}
use zwing.Channel.Exchange.Order.{turned, flip-IsExchange, IsExchange, Reach-IsExchange}

module _ (P : Platform) where
  -- Two ends in step before the first call, with nothing written, read or kept.
  pub record IsFresh {raw_a raw_b : P.RawConn} (duplex : Duplex P raw_a raw_b) (s : Exchange P)
      : Type 0 where
    pub forward : InStep P raw_a raw_b duplex.forward s.a s.b s.world []
    pub backward : InStep P raw_b raw_a duplex.backward s.b s.a s.world []
    pub kept : (s.a.read_buf ≡ []) × (s.b.read_buf ≡ [])
    pub nothing_sent : (s.sent_a ≡ []) × (s.sent_b ≡ [])
    pub nothing_got : (s.got_a ≡ []) × (s.got_b ≡ [])

  -- Each end has handed out the front of what the other wrote.
  pub record IsInOrder (s : Exchange P) : Type 0 where
    pub rest_a : Bytes
    pub a_to_b : s.got_b ++ rest_a ≡ s.sent_a
    pub rest_b : Bytes
    pub b_to_a : s.got_a ++ rest_b ≡ s.sent_b

module _ (P : Platform) (aead : AeadLaws P) where
  module _ {raw_a raw_b : P.RawConn} (duplex : Duplex P raw_a raw_b) where
    pub fresh-IsExchange : (s : Exchange P) → IsFresh P duplex s → IsExchange P duplex s
    fresh-IsExchange s f = record {
      forward = record {
        records = [];
        in_step = f.forward;
        in_order = simp (f.nothing_got.1, f.kept.1, f.nothing_sent.0, concat_nil) refl;
      };
      backward = record {
        records = [];
        in_step = f.backward;
        in_order = simp (f.nothing_got.0, f.kept.0, f.nothing_sent.1, concat_nil) refl;
      };
    }

    -- From a fresh exchange, on connections that are up, if the libraries work: after any calls
    -- of Read and Write at either end that do not block, in any order, each end has handed out
    -- the front of what the other's Write has taken, nothing lost, changed or out of order.
    pub Reach-IsInOrder :
        (s t : Exchange P) → IsFresh P duplex s → Reach P duplex s t → IsInOrder P t
    Reach-IsInOrder s t fresh reach =
        let q = Reach-IsExchange P aead duplex reach (fresh-IsExchange s fresh) in
        record { rest_a = _; a_to_b = q.forward.in_order; rest_b = _; b_to_a = q.backward.in_order }

    -- Both ends have handed out all that the other had sent, and nothing was sent meanwhile.
    pub record Delivered (s : Exchange P) : Type 0 where
      pub last : Exchange P
      pub reach : Reach P duplex s last
      pub a_to_b : last.got_b ≡ s.sent_a
      pub b_to_a : last.got_a ≡ s.sent_b
      pub sent : (last.sent_a ≡ s.sent_a) × (last.sent_b ≡ s.sent_b)

    pub Reach-Delivered :
        (s t : Exchange P) (buf : Bytes)
        → IsFresh P duplex s
        → Reach P duplex s t
        → 0 < length buf
        → Delivered t
    Reach-Delivered s t buf fresh reach room =
        let q = Reach-IsExchange P aead duplex reach (fresh-IsExchange s fresh) in
        let there = drain P aead duplex (length t.sent_a) t buf q room (omega arith) in
        let q' = flip-IsExchange P aead duplex _ (Reach-IsExchange P aead duplex there.reach q) in
        let back =
          drain P aead (turned P duplex) (length there.last.sent_b) (flip P there.last) buf q' room
            (omega arith) in
        let (sent_b, sent_a) = back.sent in
        record {
          last = flip P back.last;
          reach = Reach-trans P duplex there.reach (flip-Reach P duplex back.reach);
          a_to_b = back.heard ∙ there.all;
          b_to_a = back.all ∙ there.sent.1;
          sent = (sent_a ∙ there.sent.0, sent_b ∙ there.sent.1);
        }
