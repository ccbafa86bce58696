-- ===== src/Endpoint/Session.antt =====
-- A whole session: the handshake of two honest sides, and what their channel carries after it.
use zwing.Base.{◌⊎◌, inl, inr, refl, [], List, Bytes, ◌≡◌, ◌++◌, take, some, ok}
use zwing.Channel.{Conn}
use zwing.Channel.Stream.{concat}
use zwing.Channel.Integrity.{Reads, AreUnforged, Reads-front}
use zwing.Endpoint.{client, server}
use zwing.Endpoint.Entry.{ClientOpened, ServerOpened, client-ClientOpened, server-ServerOpened}
use zwing.Platform.{Platform}
use zwing.Platform.Laws.{AeadLaws}
use zwing.Platform.Duplex.{Duplex}
use zwing.Config.{Config}
use zwing.Identity.{Identity}
use zwing.Channel.Exchange.{Exchange, Reach}
use zwing.Channel.Exchange.Delivery.{IsFresh, IsInOrder, Reach-IsInOrder}
use zwing.Endpoint.Opening.{Opened}

module _ (P : Platform) (a b : P.RawConn) (duplex : Duplex P a b) (cfg_a cfg_b : Config P)
    (id_a id_b : Identity P) (w : P.World) where
  -- The two ends that a handshake opened, before their first call.
  abbrev pub opened_exchange : Opened P a b duplex cfg_a cfg_b id_a id_b w → Exchange P
  opened_exchange o = record {
    a = o.conn_a;
    b = o.conn_b;
    world = o.agreed.w3;
    sent_a = [];
    got_b = [];
    sent_b = [];
    got_a = [];
  }

  opened-IsFresh :
      (o : Opened P a b duplex cfg_a cfg_b id_a id_b w) → IsFresh P duplex (opened_exchange o)
  opened-IsFresh o = record {
    forward = o.forward;
    backward = o.backward;
    kept = o.kept;
    nothing_sent = (refl, refl);
    nothing_got = (refl, refl);
  }

  -- On the two ends that a handshake opened, if the libraries work, over any calls of Read and
  -- Write at either end that do not block: each end has handed out the front of what the other's
  -- Write has taken, nothing lost, changed or out of order.
  pub Opened-IsInOrder :
      (aead : AeadLaws P) (o : Opened P a b duplex cfg_a cfg_b id_a id_b w) (t : Exchange P)
      → Reach P duplex (opened_exchange o) t
      → IsInOrder P t
  Opened-IsInOrder aead o t reach =
      Reach-IsInOrder P aead duplex (opened_exchange o) t (opened-IsFresh o) reach

module _ (P : Platform) (cfg : Config P) (conn : P.RawConn) where
  -- A connection from a handshake in which the peer authenticated, on either side of it.
  abbrev pub IsAuthenticated : Conn P → Type 0
  IsAuthenticated c = ClientOpened P cfg conn c ⊎ ServerOpened P cfg conn c

  opened-IsAuthenticated :
      (w w' : P.World) (c : Conn P)
      → (client P conn (some cfg) w ≡ (ok c, w')) ⊎ (server P conn (some cfg) w ≡ (ok c, w'))
      → IsAuthenticated c × (c.read_seq ≡ 0) × (c.read_buf ≡ [])
  opened-IsAuthenticated w w' c (inl opened) =
      let peer = client-ClientOpened P conn cfg w w' c opened in
      (inl peer, peer.made.start.0, peer.made.start.2)
  opened-IsAuthenticated w w' c (inr opened) =
      let peer = server-ServerOpened P conn cfg w w' c opened in
      (inr peer, peer.made.start.0, peer.made.start.2)

  -- Of a connection that Client or Server returned the peer authenticated. And whatever the
  -- network delivers, if no frame that a read takes opens to anything but the peer's record of
  -- the number that is due: what any reads have handed out, with what the connection still keeps,
  -- is the first records of the peer, as many as it has counted, in order and unchanged.
  pub opened-Reads_front :
      (w w' : P.World) (c d : Conn P) (log : List Bytes) (out : Bytes) (calls : Reads P c out d)
      → (client P conn (some cfg) w ≡ (ok c, w')) ⊎ (server P conn (some cfg) w ≡ (ok c, w'))
      → AreUnforged P log calls
      → IsAuthenticated c × (out ++ d.read_buf ≡ concat (take d.read_seq log))
  opened-Reads_front w w' c d log out calls opened unforged =
      let (peer, seq, buf) = opened-IsAuthenticated w w' c opened in
      (peer, Reads-front P log c d out calls unforged seq buf)
