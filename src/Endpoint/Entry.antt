-- ===== src/Endpoint/Entry.antt =====
-- What a connection that an entry point returns has gone through.
use zwing.Base.{◌≡◌, refl, sym, subst, ap, ◌∙◌, arith, Bytes, Bool, true, false, some, []}
use zwing.Base.{Outcome, ok, err, panic, fail, and_then-eq_ok, via_ok, ok_inj}
use zwing.Base.{bind-eq_ok, via, if◌then◌else◌, inl, inr}
use zwing.Base.Returns.{IsReturn-ok}
use zwing.Platform.{Platform}
use zwing.Config.{Config}
use zwing.Aead.{must_chacha20}
use zwing.Handshake.{HandshakeResult, run_initiator, run_responder}
use zwing.Handshake.Responding.{Responded, run_responder-Responded}
use zwing.Handshake.Runs.{Initiated, run_initiator-Initiated}
use zwing.Channel.{Conn, new_conn}
use zwing.Endpoint.Deadlines.{if-cases, with_deadline-Timed}
use zwing.Endpoint.{ignored, conclude, client_handshake, server_handshake}
use zwing.Endpoint.{is_unconfigured, dial, client, server}

module _ (P : Platform) where
  -- The keys and counters of a connection that newConn made from a result.
  pub record IsEndOf (conn : P.RawConn) (res : HandshakeResult P) (tx rx : Bytes) (c : Conn P)
      : Type 0 where
    pub raw : c.raw ≡ some conn
    pub remote : c.remote ≡ res.remote
    pub write_aead : c.write_aead ≡ P.chacha_new tx
    pub read_aead : c.read_aead ≡ P.chacha_new rx
    pub start : (c.read_seq ≡ 0) × (c.write_seq ≡ 0) × (c.read_buf ≡ [])

  must_chacha20-eq_ok :
      (key : Bytes) {a : P.Aead} → must_chacha20 P key ≡ ok a → a ≡ P.chacha_new key
  unfolding must_chacha20
  must_chacha20-eq_ok key h = ground arith

  new_conn-IsEndOf :
      (conn : P.RawConn) (res : HandshakeResult P) (initiator : Bool) (c : Conn P)
      (after : HandshakeResult P)
      → new_conn P conn res initiator ≡ ok (c, after)
      → IsEndOf conn res
          (if initiator then res.key_i2r else res.key_r2i)
          (if initiator then res.key_r2i else res.key_i2r)
          c
  unfolding new_conn
  new_conn-IsEndOf conn res initiator c after h = elim (and_then-eq_ok _ _ h) [
    | via_ok rx e1 h1 ↦ elim (and_then-eq_ok _ _ h1) [
      | via_ok tx e2 h2 ↦
          let made = ap (λ p. p.0) (ok_inj h2) in
          record {
            raw = ap (λ c. c.raw) (sym made);
            remote = ap (λ c. c.remote) (sym made);
            write_aead = ap (λ c. c.write_aead) (sym made) ∙ must_chacha20-eq_ok _ e2;
            read_aead = ap (λ c. c.read_aead) (sym made) ∙ must_chacha20-eq_ok _ e1;
            start = (
              ap (λ c. c.read_seq) (sym made),
              ap (λ c. c.write_seq) (sym made),
              ap (λ c. c.read_buf) (sym made),
            );
          }
    ]
  ]

  pub conclude_ok :
      (conn : P.RawConn) (initiator : Bool) (run : Outcome (HandshakeResult P)) (w w' : P.World)
      (c : Conn P)
      → (conclude P conn initiator run w).0 ≡ ok c
      → (res : HandshakeResult P) × (run ≡ ok res)
        × IsEndOf conn res
            (if initiator then res.key_i2r else res.key_r2i)
            (if initiator then res.key_r2i else res.key_i2r)
            c
  unfolding conclude
  conclude_ok conn initiator (ok res) w w' c h = (
    res,
    refl,
    elim (and_then-eq_ok (new_conn P conn res initiator) _ h) [
      | via_ok made e g ↦
          subst (IsEndOf conn res _ _) (ok_inj g)
            (new_conn-IsEndOf conn res initiator made.0 made.1 e)
    ],
  )
  conclude_ok conn initiator (err e) w w' c h =
      elim (bind-eq_ok (ignored (P.conn_close conn)) (λ _. fail e) w {b = c}
        (λ i. (h i, (conclude P conn initiator (err e) w).1))) [ via u w1 e1 h1 ↦ ground arith ]
  conclude_ok conn initiator (panic p) w w' c h = ground arith

  -- A connection that the initiator's side returned: from an authenticated handshake with the peer
  -- that it names, sealing with one channel key and opening with the other, from zero.
  pub record ClientOpened (cfg : Config P) (conn : P.RawConn) (c : Conn P) : Type 0 where
    pub res : HandshakeResult P
    pub handshake : Initiated P cfg res
    pub made : IsEndOf conn res res.key_i2r res.key_r2i c

  -- A connection that the responder's side returned: from a run of the responder on the raw
  -- connection, whose secret was encapsulated to the peer that the connection names. It seals with
  -- one key of that secret and opens with the other, from zero.
  pub record ServerOpened (cfg : Config P) (conn : P.RawConn) (c : Conn P) : Type 0 where
    pub res : HandshakeResult P
    pub before : P.World
    pub after : P.World
    pub handshake : Responded P conn cfg before after res
    pub made : IsEndOf conn res res.key_r2i res.key_i2r c

  -- Client returns a connection only after a handshake of the initiator in which the peer
  -- authenticated: the connection names that peer, seals with the one channel key of the
  -- handshake, opens with the other, and counts from zero.
  pub client-ClientOpened :
      (conn : P.RawConn) (cfg : Config P) (w w' : P.World) (c : Conn P)
      → client P conn (some cfg) w ≡ (ok c, w')
      → ClientOpened cfg conn c
  unfolding client_handshake
  client-ClientOpened conn cfg w w' c h =
      let timed = with_deadline-Timed P conn cfg _ w w' (ok c) h (IsReturn-ok c) in
      let w1 = timed.w0 in
      let e1 = ap (λ p. p.0) timed.run in
      let (res, e2, made) = conclude_ok conn true _ _ w1 c e1 in
      record {
        res = res;
        handshake =
            run_initiator-Initiated P conn cfg w1 _ res
              (λ i. (e2 i, (run_initiator P conn (some cfg) w1).1));
        made = made;
      }

  -- Server returns a connection only after a run of the responder on the given raw connection: a
  -- frame read from it parsed as a HandshakeInit whose identity passes the pin and has signed, a
  -- secret was encapsulated to that identity, and its ciphertext was signed and sent. The
  -- connection names that identity, seals with the second of the two channel keys that are
  -- derived from that secret, opens with the first, and counts from zero.
  pub server-ServerOpened :
      (conn : P.RawConn) (cfg : Config P) (w w' : P.World) (c : Conn P)
      → server P conn (some cfg) w ≡ (ok c, w')
      → ServerOpened cfg conn c
  unfolding server_handshake
  server-ServerOpened conn cfg w w' c h =
      let timed = with_deadline-Timed P conn cfg _ w w' (ok c) h (IsReturn-ok c) in
      let w1 = timed.w0 in
      let e1 = ap (λ p. p.0) timed.run in
      let (res, e2, made) = conclude_ok conn false _ _ w1 c e1 in
      record {
        res = res;
        before = w1;
        after = (run_responder P conn (some cfg) w1).1;
        handshake =
            run_responder-Responded P conn cfg w1 _ res
              (λ i. (e2 i, (run_responder P conn (some cfg) w1).1));
        made = made;
      }

  -- A connection that Dial returns stands on the TCP connection that it dialled, after a
  -- handshake of the initiator in which the peer authenticated.
  pub dial-ClientOpened :
      (addr : Bytes) (cfg : Config P) (w w' : P.World) (c : Conn P)
      → dial P addr (some cfg) w ≡ (ok c, w')
      → (conn : P.RawConn) × (w1 : P.World) × (P.dial_tcp addr w ≡ (ok conn, w1))
        × ClientOpened cfg conn c
  unfolding dial
  dial-ClientOpened addr cfg w w' c h = elim (if-cases P (is_unconfigured P (some cfg)) _ _ w h) [
    | inl (_, refused) ↦ ground arith
    | inr (_, run) ↦ elim (bind-eq_ok _ _ w run) [
      | via conn w1 e1 h1 ↦ (conn, w1, e1, client-ClientOpened conn cfg w1 w' c h1)
    ]
  ]
