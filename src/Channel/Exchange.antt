-- ===== src/Channel/Exchange.antt =====
-- Both ends of a channel (channel.go) and the connection between them, under calls of Read and
-- Write at either end in any order: states, steps and reachability.
pub mod Queue
pub mod Order
pub mod Draining
pub mod Delivery
use zwing.Base.{ℕ, ◌<◌, Bytes, List, [], ◌++◌, take, length, Outcome, ok, err, panic, ◌⊎◌}
use zwing.Host.Link.{Link}
use zwing.Platform.{Platform}
use zwing.Platform.Duplex.{Duplex}
use zwing.Channel.{Conn, ReadReturn, WriteReturn, read, write}

module _ (P : Platform) where
  -- The two ends, the world, and for each direction what Write took and what Read handed out.
  pub record Exchange : Type 0 where
    pub a : Conn P
    pub b : Conn P
    pub world : P.World
    pub sent_a : Bytes
    pub got_b : Bytes
    pub sent_b : Bytes
    pub got_a : Bytes

  -- The same, seen from the other end.
  abbrev pub flip : Exchange → Exchange
  flip s = record {
    a = s.b;
    b = s.a;
    world = s.world;
    sent_a = s.sent_b;
    got_b = s.got_a;
    sent_b = s.sent_a;
    got_a = s.got_b;
  }

  abbrev pub taken : Bytes → Outcome (WriteReturn P) → Bytes
  taken bs (ok ret) = take ret.count bs
  taken bs (err e) = []
  taken bs (panic p) = []

  abbrev pub handed : Outcome (ReadReturn P) → Bytes
  handed (ok ret) = take ret.count ret.buffer
  handed (err e) = []
  handed (panic p) = []

  -- The end `a` calls Write.
  unfoldable pub write_a : Exchange → Bytes → Exchange
  write_a s bs =
      let r = write P s.a bs s.world in
      record s { a = r.1; world = r.2; sent_a = s.sent_a ++ taken bs r.0 }

  -- The end `a` calls Read.
  unfoldable pub read_a : Exchange → Bytes → Exchange
  read_a s buf =
      let r = read P s.a buf s.world in
      record s { a = r.1; world = r.2; got_a = s.got_a ++ handed r.0 }

  unfoldable pub write_b : Exchange → Bytes → Exchange
  write_b s bs = flip (write_a (flip s) bs)

  unfoldable pub read_b : Exchange → Bytes → Exchange
  read_b s buf = flip (read_a (flip s) buf)

  -- A read does not block: bytes are left of a record, or are on their way.
  abbrev pub IsReady : {near far : P.RawConn} → Link P.host near far → Conn P → P.World → Type 0
  IsReady link c w = (0 < length c.read_buf) ⊎ (0 < length (link.pending w))

  module _ {raw_a raw_b : P.RawConn} (duplex : Duplex P raw_a raw_b) where
    -- One call at one end. A read that would block is not a step: it waits for one.
    pub data Step (s : Exchange) : Exchange → Type 0 where
      a_writes : (bs : Bytes) → Step s (write_a s bs)
      b_writes : (bs : Bytes) → Step s (write_b s bs)
      a_reads : (buf : Bytes) → IsReady duplex.backward s.a s.world → Step s (read_a s buf)
      b_reads : (buf : Bytes) → IsReady duplex.forward s.b s.world → Step s (read_b s buf)

    pub data Reach (s : Exchange) : Exchange → Type 0 where
      here : Reach s s
      next : {t u : Exchange} → Reach s t → Step t u → Reach s u
