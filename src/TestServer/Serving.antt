-- ===== src/TestServer/Serving.antt =====
-- What the test server did when it returns from main.
use zwing.Base.{
  ap₂, Option-cases, ℕ, ◌≡◌, refl, sym, ap, ◌∙◌, Bytes, Bool, true, false, Option, none, some, inl,
  inr, ◌⊎◌, Error, Outcome, ok, err, panic, Proc, via, bind-eq_ok, pure-eq_ok, length, take, zeros,
  if◌then◌else◌,
}
use zwing.Platform.{Platform}
use zwing.Config.{Config}
use zwing.Identity.{Identity, generate_identity}
use zwing.Channel.{Conn, ReadReturn, WriteReturn, read, write, close}
use zwing.Channel.Contract.{write-IsWriter}
use zwing.Endpoint.{
  Listener, kept, listen, accept, server_handshake, close_listener, is_unconfigured,
}
use zwing.Endpoint.Deadlines.{if-cases}
use zwing.Endpoint.Entry.{ServerOpened, server-ServerOpened}
use zwing.TestServer.{
  Console, is_eof, at_return, wrote, reply, echo, echo_buffer_size, serve_one, announce,
  server_config, test_server,
}

kept-eq_ok : {A B : Type 0} (o : Outcome A) (s : Outcome B) {a : A} → kept o s ≡ ok a → o ≡ ok a
unfolding kept
kept-eq_ok o (ok b) e = e
kept-eq_ok o (err f) e = e
kept-eq_ok o (panic p) e = cc

module _ (P : Platform) where
  at_return-eq_ok :
      {A B : Type 0} (o : Outcome A) (w w' : P.World) (d : Proc P.World B) {a : A}
      → at_return P o w d ≡ (ok a, w')
      → (o ≡ ok a) × (w' ≡ (d w).1)
  unfolding at_return
  at_return-eq_ok (ok b) w w' d e =
      (kept-eq_ok (ok b) (d w).0 (ap (λ q. q.0) e), ap (λ q. q.1) (sym e))
  at_return-eq_ok (err f) w w' d e = cc
  at_return-eq_ok (panic p) w w' d e =
      (kept-eq_ok (panic p) (d w).0 (ap (λ q. q.0) e), ap (λ q. q.1) (sym e))

  -- How an echo without an error ends: the peer hung up before it sent, or all that was read is
  -- written.
  pub data EchoEnd (eof : ℕ) (c : Conn P) (w : P.World) : Type 0 where
    hung_up :
        (ret : ReadReturn P) (e : Error)
        → (read P c (zeros echo_buffer_size) w).0 ≡ ok ret
        → ret.error ≡ some e
        → is_eof eof e ≡ true
        → EchoEnd eof c w
    wrote_back :
        (ret : ReadReturn P)
        → (read P c (zeros echo_buffer_size) w).0 ≡ ok ret
        → ret.error ≡ none
        → (write P
            (read P c (zeros echo_buffer_size) w).1
            (take ret.count ret.buffer)
            (read P c (zeros echo_buffer_size) w).2).0
          ≡ ok (record { count = length (take ret.count ret.buffer); error = none })
        → EchoEnd eof c w

  no_error : (x : Option Error) → elim x [ none ↦ ok (tt {0}) | some e ↦ err e ] ≡ ok tt → x ≡ none
  no_error none e = refl
  no_error (some f) e = cc

  wrote-eq_ok :
      (o : Outcome (WriteReturn P))
      → wrote P o ≡ ok tt
      → (ret : WriteReturn P) × (o ≡ ok ret) × (ret.error ≡ none)
  unfolding wrote
  wrote-eq_ok (ok ret) e = (ret, refl, no_error ret.error e)
  wrote-eq_ok (err f) e = cc
  wrote-eq_ok (panic p) e = cc

  all_written :
      (c : Conn P) (b : Bytes) (w : P.World)
      → wrote P (write P c b w).0 ≡ ok tt
      → (write P c b w).0 ≡ ok (record { count = length b; error = none })
  all_written c b w h =
      let (ret, e, calm) = wrote-eq_ok (write P c b w).0 h in
      elim (write-IsWriter P c b w ret e) [
        | inl (_, n) ↦ e ∙ ap₂ (λ k x. ok (record { count = k; error = x })) n calm
        | inr (f, bad, _) ↦ cc
      ]

  is_true : (t : Bool) (f : Error) → (if t then ok (tt {0}) else err f) ≡ ok tt → t ≡ true
  is_true true f e = refl
  is_true false f e = cc

  reply-cases :
      (eof : ℕ) (o : Outcome (ReadReturn P)) (c : Conn P) (w : P.World)
      → (reply P eof o c w).0 ≡ ok tt
      → (ret : ReadReturn P) × (o ≡ ok ret)
        × (((ret.error ≡ none) × (wrote P (write P c (take ret.count ret.buffer) w).0 ≡ ok tt))
            ⊎ ((e : Error) × (ret.error ≡ some e) × (is_eof eof e ≡ true)))
  unfolding reply
  reply-cases eof (ok ret) c w h = elim (Option-cases ret.error) [
    | inl calm ↦ (ret, refl, inl (calm, rw calm at h))
    | inr (e, bad) ↦ (ret, refl, inr (e, bad, is_true (is_eof eof e) e (rw bad at h)))
  ]
  reply-cases eof (err e) c w h = cc
  reply-cases eof (panic p) c w h = cc

  -- When main returns: an identity was generated, the listener was made for it, the peer of the one
  -- accepted connection authenticated, the echo ended well, and connection and listener were closed.
  pub record Served (console : Console P) (addr : Bytes) (w w' : P.World) : Type 0 where
    pub id : Identity P
    pub ln : Listener P
    pub raw : P.RawConn
    pub conn : Conn P
    pub w1 : P.World
    pub w2 : P.World
    pub w3 : P.World
    pub generated : generate_identity P w ≡ (ok id, w1)
    pub listened : listen P addr (some (server_config P id)) w1 ≡ (ok ln, w2)
    pub accepted : accept P ln (announce P console id ln w2) ≡ (ok conn, w3)
    pub opened : ServerOpened P (server_config P id) raw conn
    pub ended : EchoEnd console.eof conn w3
    pub closed : w' ≡ (close_listener P ln (close P conn (echo P console.eof conn w3).2).1).1

  listen-cfg :
      (addr : Bytes) (cfg : Config P) (w w' : P.World) (ln : Listener P)
      → is_unconfigured P (some cfg) ≡ false
      → listen P addr (some cfg) w ≡ (ok ln, w')
      → ln.cfg ≡ some cfg
  unfolding listen
  listen-cfg addr cfg w w' ln configured e =
      elim (if-cases P (is_unconfigured P (some cfg)) _ _ w e) [
        | inl (refused, _) ↦ cc
        | inr (_, run) ↦ elim (bind-eq_ok (P.listen_tcp addr) _ w run) [
          | via raw w1 e1 h ↦ ap (λ l. l.cfg) (sym (pure-eq_ok h))
        ]
      ]

  accept-ServerOpened :
      (ln : Listener P) (cfg : Config P) (w w' : P.World) (c : Conn P)
      → ln.cfg ≡ some cfg
      → accept P ln w ≡ (ok c, w')
      → (raw : P.RawConn) × ServerOpened P cfg raw c
  unfolding accept
  accept-ServerOpened ln cfg w w' c is e = elim (bind-eq_ok _ _ w e) [
    | via raw w1 e1 h ↦ (
      raw,
      server-ServerOpened P raw cfg w1 w' c (ap (λ g. server_handshake P raw g w1) (sym is) ∙ h),
    )
  ]

  echo-EchoEnd : (eof : ℕ) (c : Conn P) (w : P.World) → (echo P eof c w).0 ≡ ok tt → EchoEnd eof c w
  unfolding echo
  echo-EchoEnd eof c w e =
      let o = read P c (zeros echo_buffer_size) w in
      let (ret, given, how) = reply-cases eof o.0 o.1 o.2 e in
      elim how [
        | inl (calm, sent) ↦
            wrote_back ret given calm (all_written o.1 (take ret.count ret.buffer) o.2 sent)
        | inr (f, bad, gone) ↦ hung_up ret f given bad gone
      ]

  -- When the test server's main returns, and log.Fatalf has not ended it: an identity was
  -- generated and the listener made for it, the peer of the one accepted connection
  -- authenticated, the peer hung up or all bytes of one read were written back, and the
  -- connection and then the listener were closed.
  pub test_server-Served :
      (console : Console P) (addr : Bytes) (w w' : P.World)
      → test_server P console addr w ≡ (ok tt, w')
      → Served console addr w w'
  unfolding test_server serve_one is_unconfigured
  test_server-Served console addr w w' h = elim (bind-eq_ok _ _ w h) [
    | via id w1 generated h1 ↦ elim (bind-eq_ok _ _ w1 h1) [
      | via ln w2 listened h2 ↦
          let served = serve_one P console ln (announce P console id ln w2) in
          let (e3, closed) = at_return-eq_ok served.0 served.1 w' (close_listener P ln) h2 in
          elim (bind-eq_ok (accept P ln) _ (announce P console id ln w2) (λ i. (e3 i, served.1))) [
            | via conn w3 accepted h3 ↦
                let (e4, closed_conn) = at_return-eq_ok _ _ _ (close P conn) h3 in
                let (raw, opened) =
                  accept-ServerOpened ln (server_config P id) _ w3 conn
                    (listen-cfg addr (server_config P id) w1 w2 ln refl listened) accepted in
                record {
                  id = id;
                  ln = ln;
                  raw = raw;
                  conn = conn;
                  w1 = w1;
                  w2 = w2;
                  w3 = w3;
                  generated = generated;
                  listened = listened;
                  accepted = accepted;
                  opened = opened;
                  ended = echo-EchoEnd console.eof conn w3 e4;
                  closed = closed ∙ ap (λ v. (close_listener P ln v).1) closed_conn;
                }
          ]
    ]
  ]
